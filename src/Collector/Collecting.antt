-- ===== src/Collector/Collecting.antt =====
-- `Collect`: one scrape.
use solana_exporter.Base.{
  ℤ, pos, int_eqb, Text, format_int, Bool, true, false, [], ◌∷◌, some, if◌then◌else◌,
}
use solana_exporter.Exec.{pure, ◌>>=◌, ◌>>◌}
use solana_exporter.Rpc.Types.{Result, ok, err}
use solana_exporter.Rpc.Cluster.{get_cluster_from_genesis_hash}
use solana_exporter.Api
use solana_exporter.Api.{get_min_required_version}
use solana_exporter.Collector.Desc.{
  foundation_min_required_version, Env, Collect, ask, ask_api, set_is_firedancer,
  must_new_const_metric, new_invalid_metric,
}
use solana_exporter.Collector.Votes.{collect_vote_accounts}
use solana_exporter.Collector.Node.{
  collect_health, collect_minimum_ledger_slot, collect_first_available_block, report_version,
  collect_identity, collect_balances,
}
use solana_exporter.Collector.Required.{collect_node_is_outdated, collect_node_needs_update}

module _ {W F : Type 0} (env : Env W F) where
  abbrev is_ok_status : Result ℤ → Bool
  is_ok_status (ok status) = int_eqb status (pos 200)
  is_ok_status (err e) = false

  -- The metrics endpoint is asked only if the version was fetched. The field is set and never reset.
  unfoldable pub detect_firedancer : Result Text → Collect W F Bool
  detect_firedancer (err e) = pure false
  detect_firedancer (ok version) = do
    answer ← ask env.outside.rpc_client.get_firedancer_metrics
    if is_ok_status answer then set_is_firedancer true else pure tt
    pure (is_ok_status answer)

  unfoldable pub collect_version_and_client : Collect W F (Unit {0})
  unfolding detect_firedancer report_version
  collect_version_and_client = do
    version ← ask env.outside.rpc_client.get_version
    is_firedancer ← detect_firedancer version
    report_version env is_firedancer version

  unfoldable pub report_min_required : Result Api.Required → Collect W F (Unit {0})
  report_min_required (err e) = new_invalid_metric foundation_min_required_version (some e)
  report_min_required (ok r) =
      must_new_const_metric foundation_min_required_version (env.float.of_int (pos 1))
        (r.version ∷ r.firedancer ∷ r.cluster ∷ format_int r.for_epoch ∷ [])

  unfoldable pub collect_for_cluster : Result Text → Collect W F (Unit {0})
  unfolding report_min_required
  collect_for_cluster (err e) = report_min_required (err e)
  collect_for_cluster (ok cluster) = do
    required ← ask_api (get_min_required_version env.outside cluster)
    report_min_required required

  abbrev cluster_of : Result Text → Result Text
  cluster_of (err e) = err e
  cluster_of (ok hash) = get_cluster_from_genesis_hash hash

  unfoldable pub collect_min_required_version : Collect W F (Unit {0})
  unfolding collect_for_cluster
  collect_min_required_version = do
    hash ← ask env.outside.rpc_client.get_genesis_hash
    collect_for_cluster (cluster_of hash)

  unfoldable pub collect : Collect W F (Unit {0})
  unfolding collect_version_and_client collect_min_required_version
  collect = do
    collect_health env
    collect_minimum_ledger_slot env
    collect_first_available_block env
    collect_vote_accounts env
    collect_version_and_client
    collect_identity env
    collect_balances env
    collect_min_required_version
    collect_node_is_outdated env
    collect_node_needs_update env
