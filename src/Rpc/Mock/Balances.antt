-- ===== src/Rpc/Mock/Balances.antt =====
-- Balances that are set in the mock server, as the RPC client reads them.
use solana_exporter.Base.{
  ℤ, pos, Float64, Text, codes, text_eq, ==-cases, true, lookup, lookup-insert, lookup-insert_self,
  Option, none, some, ◌≡◌, ◌≢◌, refl, sym, ◌∙◌, inl, inr, List, ◌∷◌,
}
use solana_exporter.Rpc.Types.{Result, ok, Commitment, lamports_in_sol}
use solana_exporter.Rpc.Wire.{Param, text, Response, RpcClient}
use solana_exporter.Rpc.Transport.{call, request_of, decode_reply, decode_body, check_error}
use solana_exporter.Rpc.Decoding.{Unmarshal}
use solana_exporter.Rpc.Queries.{balance_query}
use solana_exporter.Rpc.Node.{node_client}
use solana_exporter.Rpc.Mock.{MockServer, balance_opt, set_opt, entries_of, or_zero}
use solana_exporter.Rpc.Mock.Answers.{
  MockAnswer, balance_answer, served, is_set, serve_balance, serve_method, get_result,
}
use solana_exporter.Rpc.Mock.Serving.{no_error, handle_rpc_request, mock_http}

-- The client decodes a balance that the server encodes.
abbrev pub IsDecoded : {A : Type 0} → (Response (Option (MockAnswer A)) → Text) → Unmarshal → Type 0
IsDecoded encode unmarshal =
    (n : ℤ)
    → unmarshal.contextual_int
        (encode (record { result = some (balance_answer n); error = no_error }))
      ≡ ok (record { result = record { value = n }; error = no_error })

-- No error is set for the method.
abbrev pub IsAnswered : {A : Type 0} → Text → MockServer A → Type 0
IsAnswered method s = lookup method (entries_of s.easy_errors) ≡ none

module _ {A : Type 0} (s : MockServer A) where
  pub served_method :
      (method : Text) (params : List Param)
      → IsAnswered method s
      → get_result s method params ≡ serve_method s method params
  unfolding get_result
  served_method method params answered = rw (get_result, answered) refl

  served_balance :
      (address : Text) (rest : List Param)
      → is_set s.balances ≡ true
      → serve_method s (codes "getBalance") (text address ∷ rest)
        ≡ served (balance_answer (or_zero (pos 0) (lookup address (entries_of s.balances))))
  unfolding serve_method serve_balance
  served_balance address rest set = rw set refl

module _ {A F : Type 0} (encode : Response (Option (MockAnswer A)) → Text) (unmarshal : Unmarshal)
    (decoded : IsDecoded encode unmarshal) (get : Text → MockServer A → Result ℤ × MockServer A)
    (float : Float64 F) (client : RpcClient) where
  unfoldable pub balance_of : Commitment → Text → MockServer A → Result F
  balance_of commitment address s =
      ((node_client (mock_http encode get) unmarshal float client).get_balance commitment address
        s).0

  abbrev in_sol : ℤ → F
  in_sol n = float.div (float.of_int n) (float.of_int lamports_in_sol)

  balance_of_lem :
      (commitment : Commitment) (address : Text) (s : MockServer A)
      → IsAnswered (codes "getBalance") s
      → is_set s.balances ≡ true
      → balance_of commitment address s
        ≡ ok (in_sol (or_zero (pos 0) (lookup address (entries_of s.balances))))
  unfolding balance_of node_client call mock_http handle_rpc_request decode_reply decode_body
      check_error
  balance_of_lem commitment address s answered set =
      let request = request_of (balance_query unmarshal commitment address) in
      let answer =
        served_method s request.method request.params answered ∙ served_balance s address _ set in
      rw (answer, decoded (or_zero (pos 0) (lookup address (entries_of s.balances)))) refl

  -- Where `json.Unmarshal` reads the balances that the server's encoder writes, and no error is set for
  -- `getBalance`: after `SetOpt` has set the balance of an address, `GetBalance` of the client returns
  -- it, in SOL, for any commitment; and if a balance was set before, then for each other address it
  -- returns what it did.
  pub get_balance-set_opt :
      (commitment : Commitment) (s : MockServer A) (address other : Text) (balance : ℤ)
      → IsAnswered (codes "getBalance") s
      → let t = set_opt (balance_opt address balance) s in
        (balance_of commitment address t ≡ ok (in_sol balance))
        × (other ≢ address
            → is_set s.balances ≡ true
            → balance_of commitment other t ≡ balance_of commitment other s)
  unfolding set_opt
  get_balance-set_opt commitment s address other balance answered =
      let t = set_opt (balance_opt address balance) s in
      let before = entries_of s.balances in
      (
        rw
            (
              balance_of_lem commitment address t answered refl,
              lookup-insert_self address balance before,
            )
            refl,
        (λ differs set.
            let kept = lookup-insert address other balance before in
            elim (==-cases address other) [
              | inl (same, p) ↦ absurd (differs (sym p))
              | inr (same, p) ↦
                  rw
                    (
                      balance_of_lem commitment other t answered refl,
                      kept,
                      same,
                      balance_of_lem commitment other s answered set,
                    )
                    refl
            ]),
      )
