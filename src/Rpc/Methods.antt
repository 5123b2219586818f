-- ===== src/Rpc/Methods.antt =====
-- The methods of `Client` in pkg/rpc/client.go, which send a request and return, or exit the process.
use solana_exporter.Base.{
  ℤ, Float64, Bool, true, false, not, contains, text_eq, List, [], ◌∷◌, ◌++◌, Text, codes, Map,
  Option, none, some, format_int,
}
use solana_exporter.Exec.{Exec, returned, assertf, pure, ◌>>=◌, ◌>>◌}
use solana_exporter.Rpc.Types.{
  lamports_in_sol, Result, ok, err, wrap, Error, EpochInfo, VoteAccounts, BlockProduction,
  InflationReward, Block, Commitment, processed,
}
use solana_exporter.Rpc.Wire.{Http, RpcClient}
use solana_exporter.Rpc.Transport.{Sent, got, get_response}
use solana_exporter.Rpc.Decoding.{Contextual, Unmarshal}
use solana_exporter.Rpc.Queries.{
  epoch_info_query, vote_accounts_query, version_query, identity_query, slot_query,
  block_production_query, balance_query, inflation_reward_query, leader_schedule_query, block_query,
  health_query, minimum_ledger_slot_query, first_available_block_query, genesis_hash_query,
}

abbrev pub map_ok : {A B : Type 0} → (A → B) → Result A → Result B
map_ok f (ok a) = ok (f a)
map_ok f (err e) = err e

abbrev pub details_options : List Text
details_options = codes "full" ∷ codes "none" ∷ []

abbrev pub is_processed : Commitment → Bool
is_processed processed = true
is_processed _ = false

module _ {F : Type 0} (float : Float64 F) where
  abbrev pub sol_of : Contextual ℤ → F
  sol_of answer = float.div (float.of_int answer.value) (float.of_int lamports_in_sol)

module _ {W : Type 0} (http : Http W) (unmarshal : Unmarshal) (client : RpcClient) where
  unfoldable pub get_epoch_info : Commitment → Exec W Sent (Result EpochInfo)
  get_epoch_info commitment = get_response http client (epoch_info_query unmarshal commitment)

  unfoldable pub get_vote_accounts : Commitment → Exec W Sent (Result VoteAccounts)
  get_vote_accounts commitment = get_response http client (vote_accounts_query unmarshal commitment)

  unfoldable pub get_version : Exec W Sent (Result Text)
  get_version = get_response http client (version_query unmarshal)

  unfoldable pub get_identity : Exec W Sent (Result Text)
  get_identity = get_response http client (identity_query unmarshal)

  unfoldable pub get_slot : Commitment → Exec W Sent (Result ℤ)
  get_slot commitment = get_response http client (slot_query unmarshal commitment)

  unfoldable pub get_block_production : Commitment → ℤ → ℤ → Exec W Sent (Result BlockProduction)
  get_block_production commitment first_slot last_slot = do
    answer ←
        get_response http client (block_production_query unmarshal commitment first_slot last_slot)
    pure (map_ok (λ result. result.value) answer)

  unfoldable pub get_balance : {F : Type 0} → Float64 F → Commitment → Text → Exec W Sent (Result F)
  get_balance float commitment address = do
    answer ← get_response http client (balance_query unmarshal commitment address)
    pure (map_ok (sol_of float) answer)

  unfoldable pub get_inflation_reward :
      Commitment → List Text → ℤ → Exec W Sent (Result (List InflationReward))
  get_inflation_reward commitment addresses epoch =
      get_response http client (inflation_reward_query unmarshal commitment addresses epoch)

  unfoldable pub get_leader_schedule : Commitment → ℤ → Exec W Sent (Result (Map Text (List ℤ)))
  get_leader_schedule commitment slot =
      get_response http client (leader_schedule_query unmarshal commitment slot)

  -- Other details than these, and the commitment `processed`, exit the process.
  unfoldable pub get_block : Commitment → ℤ → Text → Exec W Sent (Result Block)
  get_block commitment slot transaction_details = do
    assertf (contains details_options transaction_details)
    assertf (not (is_processed commitment))
    get_response http client (block_query unmarshal commitment slot transaction_details)

  unfoldable pub get_health : Exec W Sent (Result Text)
  get_health = get_response http client (health_query unmarshal)

  unfoldable pub get_minimum_ledger_slot : Exec W Sent (Result ℤ)
  get_minimum_ledger_slot = get_response http client (minimum_ledger_slot_query unmarshal)

  unfoldable pub get_first_available_block : Exec W Sent (Result ℤ)
  get_first_available_block = get_response http client (first_available_block_query unmarshal)

  unfoldable pub get_genesis_hash : Exec W Sent (Result Text)
  get_genesis_hash = get_response http client (genesis_hash_query unmarshal)

module _ {W : Type 0} (http : Http W) (client : RpcClient) where
  abbrev pub firedancer_metrics_url : Text
  firedancer_metrics_url =
      codes "http://127.0.0.1:" ++ format_int client.firedancer_metrics_port ++ codes "/metrics"

  abbrev wrap_get_error : Result ℤ → Result ℤ
  wrap_get_error (ok status) = ok status
  wrap_get_error (err e) = err (wrap (codes "failed to get Firedancer metrics") e)

  unfoldable pub fetch_metrics : W → Result ℤ × W
  fetch_metrics world =
      let (answer, world') = http.get firedancer_metrics_url world in
      (wrap_get_error answer, world')

  get_unless : Option Error → Exec W Sent (Result ℤ)
  unfolding fetch_metrics
  get_unless (some e) world = record {
    result = returned (err (wrap (codes "failed to create request") e));
    events = [];
    state = world;
  }
  get_unless none world =
      let answer = fetch_metrics world in
      record {
        result = returned answer.0;
        events = got firedancer_metrics_url ∷ [];
        state = answer.1;
      }

  unfoldable pub get_firedancer_metrics : Exec W Sent (Result ℤ)
  unfolding get_unless
  get_firedancer_metrics = get_unless (http.new_request firedancer_metrics_url)
