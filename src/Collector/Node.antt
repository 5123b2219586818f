-- ===== src/Collector/Node.antt =====
-- The node's own metrics: `collectVersion`, `collectIdentity`, `collectMinimumLedgerSlot`,
-- `collectFirstAvailableBlock`, `collectBalances` and `collectHealth`.
use solana_exporter.Base.{
  ℤ, pos, Text, codes, text_eqb, text_eq, Bool, List, [], ◌∷◌, Map, Option, none, some,
  if◌then◌else◌,
}
use solana_exporter.Exec.{pure, gets, ◌>>=◌, ◌>>◌}
use solana_exporter.Rpc.Types.{Error, Result, ok, err}
use solana_exporter.Utils.Accounts.{fetch_balances}
use solana_exporter.Utils.Unique.{combine_unique}
use solana_exporter.Utils.Health.{Health, extract_health_and_num_slots_behind}
use solana_exporter.Collector.Desc.{
  account_balances, node_version, node_is_healthy, node_num_slots_behind, node_minimum_ledger_slot,
  node_first_available_block, node_identity, node_is_active, GaugeDesc, Env, Collect, ask,
  must_new_const_metric, new_invalid_metric,
}

unfoldable pub firedancer_label : Bool → Text
firedancer_label is_firedancer = if is_firedancer then codes "1" else codes "0"

-- `health, err := GetHealth`: on an error the string is empty.
abbrev health_text : Result Text → Text
health_text (ok health) = health
health_text (err e) = []

abbrev health_error : Result Text → Option Error
health_error (ok health) = none
health_error (err e) = some e

module _ {W F : Type 0} (env : Env W F) where
  abbrev float : ℤ → F
  float = env.float.of_int

  -- `BoolToFloat64`
  unfoldable pub bool_to_float64 : Bool → F
  bool_to_float64 b = if b then float (pos 1) else float (pos 0)

  unfoldable pub report_version : Bool → Result Text → Collect W F (Unit {0})
  unfolding firedancer_label
  report_version is_firedancer (err e) = new_invalid_metric node_version (some e)
  report_version is_firedancer (ok version) =
      must_new_const_metric node_version (float (pos 1))
        (version ∷ firedancer_label is_firedancer ∷ [])

  unfoldable pub collect_version : Collect W F (Unit {0})
  unfolding report_version
  collect_version = do
    answer ← ask env.outside.rpc_client.get_version
    is_firedancer ← gets (λ s. s.is_firedancer)
    report_version is_firedancer answer

  unfoldable pub report_active : Text → Collect W F (Unit {0})
  unfolding bool_to_float64
  report_active identity =
      if text_eqb env.config.active_identity []
      then pure tt
      else must_new_const_metric node_is_active
          (bool_to_float64 (text_eqb env.config.active_identity identity)) (identity ∷ [])

  unfoldable pub report_identity : Result Text → Collect W F (Unit {0})
  unfolding report_active
  report_identity (err e) = new_invalid_metric node_identity (some e)
  report_identity (ok identity) = do
    report_active identity
    must_new_const_metric node_identity (float (pos 1)) (identity ∷ [])

  unfoldable pub collect_identity : Collect W F (Unit {0})
  unfolding report_identity
  collect_identity = do answer ← ask env.outside.rpc_client.get_identity; report_identity answer

  unfoldable pub report_slot : GaugeDesc → Result ℤ → Collect W F (Unit {0})
  report_slot desc (err e) = new_invalid_metric desc (some e)
  report_slot desc (ok slot) = must_new_const_metric desc (float slot) []

  unfoldable pub collect_minimum_ledger_slot : Collect W F (Unit {0})
  unfolding report_slot
  collect_minimum_ledger_slot = do
    answer ← ask env.outside.rpc_client.get_minimum_ledger_slot
    report_slot node_minimum_ledger_slot answer

  unfoldable pub collect_first_available_block : Collect W F (Unit {0})
  unfolding report_slot
  collect_first_available_block = do
    answer ← ask env.outside.rpc_client.get_first_available_block
    report_slot node_first_available_block answer

  unfoldable pub emit_balances : Map Text F → Collect W F (Unit {0})
  emit_balances [] = pure tt
  emit_balances ((address, balance) ∷ balances) = do
    must_new_const_metric account_balances balance (address ∷ [])
    emit_balances balances

  unfoldable pub report_balances : Result (Map Text F) → Collect W F (Unit {0})
  unfolding emit_balances
  report_balances (err e) = new_invalid_metric account_balances (some e)
  report_balances (ok balances) = emit_balances balances

  -- The addresses whose balances are asked for.
  unfoldable pub balance_addresses : List Text
  balance_addresses =
      combine_unique
        (env.config.balance_addresses ∷ env.config.node_keys ∷ env.config.vote_keys ∷ [])

  unfoldable pub collect_balances : Collect W F (Unit {0})
  unfolding report_balances balance_addresses
  collect_balances = if env.config.light_mode then pure tt else do
    answer ← ask (fetch_balances env.outside.rpc_client balance_addresses)
    report_balances answer

  -- The invalid metric for the health carries the error of the call, not `isHealthyErr`.
  unfoldable pub report_is_healthy : Option Error → Health → Collect W F (Unit {0})
  unfolding bool_to_float64
  report_is_healthy e health = elim health.is_healthy_err [
    | some reason ↦ new_invalid_metric node_is_healthy e
    | none ↦ must_new_const_metric node_is_healthy (bool_to_float64 health.is_healthy) []
  ]

  unfoldable pub report_num_slots_behind : Health → Collect W F (Unit {0})
  report_num_slots_behind health = elim health.num_slots_behind_err [
    | some reason ↦ new_invalid_metric node_num_slots_behind (some reason)
    | none ↦ must_new_const_metric node_num_slots_behind (float health.num_slots_behind) []
  ]

  unfoldable pub report_health : Result Text → Collect W F (Unit {0})
  unfolding report_is_healthy report_num_slots_behind
  report_health answer = do
    let health = extract_health_and_num_slots_behind (health_text answer) (health_error answer)
    report_is_healthy (health_error answer) health
    report_num_slots_behind health

  unfoldable pub collect_health : Collect W F (Unit {0})
  unfolding report_health
  collect_health = do answer ← ask env.outside.rpc_client.get_health; report_health answer
