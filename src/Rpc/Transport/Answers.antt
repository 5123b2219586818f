-- ===== src/Rpc/Transport/Answers.antt =====
-- Which replies of the node `getResponse` turns into a result, and which into an RPC error.
use solana_exporter.Base.{pos, int_eqb, int_eqb_iff, Bool-cases, Text, ◌≡◌, ◌≢◌, refl, inl, inr}
use solana_exporter.Rpc.Types.{Result, ok, err, rpc}
use solana_exporter.Rpc.Wire.{Response, Reply, not_sent, not_read, body, Http, RpcClient}
use solana_exporter.Rpc.Transport.{Query, request_of, check_error, decode_body, decode_reply, call}

module _ {A : Type 0} (query : Query A) where
  -- The reply has a body, which is decoded.
  abbrev pub Decodes : Reply → Response A → Type 0
  Decodes reply response =
      (json : Text) × (reply ≡ body json) × (query.unmarshal json ≡ ok response)

  -- The three ends: a result, the node's error, and neither.
  abbrev pub IsAnswer : Reply → Result A → Type 0
  IsAnswer reply (ok a) =
      (response : Response A) × Decodes reply response
      × (response.error.error_code ≡ pos 0)
      × (response.result ≡ a)
  IsAnswer reply (err (rpc e)) =
      (response : Response A) × Decodes reply response
      × (response.error.error_code ≢ pos 0)
      × (e ≡ record response.error { method = query.method })
  IsAnswer reply (err e) = (response : Response A) → ¬ Decodes reply response

  check_error-IsAnswer :
      (reply : Reply) (response : Response A)
      → Decodes reply response
      → IsAnswer reply (check_error query.method response)
  unfolding check_error
  check_error-IsAnswer reply response decodes =
      elim (Bool-cases (int_eqb response.error.error_code (pos 0))) [
        | inl none_sent ↦
            rw none_sent
              (response, decodes, (int_eqb_iff response.error.error_code (pos 0)).0 none_sent, refl)
        | inr sent ↦ rw sent (
          response,
          decodes,
          (λ p. cc (sent, (int_eqb_iff response.error.error_code (pos 0)).1 p)),
          refl,
        )
      ]

  decode_body-IsAnswer :
      (json : Text) (decoded : Result (Response A))
      → query.unmarshal json ≡ decoded
      → IsAnswer (body json) (decode_body query.method decoded)
  unfolding decode_body
  decode_body-IsAnswer json (err e) h = λ response (json', p, q). cc
  decode_body-IsAnswer json (ok response) h =
      check_error-IsAnswer (body json) response (json, refl, h)

  decode_reply-IsAnswer : (reply : Reply) → IsAnswer reply (decode_reply query reply)
  unfolding decode_reply
  decode_reply-IsAnswer (not_sent e) = λ response (json, p, q). cc
  decode_reply-IsAnswer (not_read e) = λ response (json, p, q). cc
  decode_reply-IsAnswer (body json) = decode_body-IsAnswer json (query.unmarshal json) refl

-- Whatever the reply to a request is: a result is returned only if the body is decoded and its error
-- code is 0, and it is the body's; an RPC error is returned only if the body is decoded and its error
-- code is not 0, and it is the body's error with the name of the method called; any other error only if
-- no body is decoded.
pub call-IsAnswer :
    {W A : Type 0} (http : Http W) (client : RpcClient) (query : Query A) (world : W)
    → IsAnswer query
        (http.post client.rpc_url client.http_timeout (request_of query) world).0
        (call http client query world).0
unfolding call
call-IsAnswer http client query world =
    decode_reply-IsAnswer query
      (http.post client.rpc_url client.http_timeout (request_of query) world).0
