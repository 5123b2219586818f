-- ===== src/Collector/Required.antt =====
-- Required versions: `collectNodeIsOutdated` and `collectNodeNeedsUpdate`.
use solana_exporter.Base.{pos, ltb_ℤ, Text, codes, format_int, Bool, [], ◌∷◌, if◌then◌else◌}
use solana_exporter.Exec.{pure, gets, ◌>>=◌}
use solana_exporter.Rpc.Types.{Result, ok, err}
use solana_exporter.Rpc.Cluster.{get_cluster_from_genesis_hash}
use solana_exporter.Api
use solana_exporter.Api.{get_min_required_version, get_next_epoch_min_required_version}
use solana_exporter.Collector.Versions.{compare_versions}
use solana_exporter.Collector.Desc.{
  node_is_outdated, node_needs_update, GaugeDesc, Env, Collect, ask, ask_api, must_new_const_metric,
}
use solana_exporter.Collector.Node.{firedancer_label, bool_to_float64}

-- A genesis hash that could not be fetched leaves the default; an unknown one gives the empty name.
abbrev named_cluster : Result Text → Text
named_cluster (ok cluster) = cluster
named_cluster (err e) = []

unfoldable pub cluster_or_default : Result Text → Text
cluster_or_default (err e) = codes "mainnet-beta"
cluster_or_default (ok hash) = named_cluster (get_cluster_from_genesis_hash hash)

module _ {W F : Type 0} (env : Env W F) where
  unfoldable pub required_version : Bool → Api.Required → Text
  required_version is_firedancer r = if is_firedancer then r.firedancer else r.version

  unfoldable pub report_required :
      GaugeDesc → Text → Text → Result Api.Required → Collect W F (Unit {0})
  unfolding required_version firedancer_label bool_to_float64
  report_required desc version cluster (err e) = pure tt
  report_required desc version cluster (ok r) = do
    is_firedancer ← gets (λ s. s.is_firedancer)
    let required = required_version is_firedancer r
    must_new_const_metric desc
        (bool_to_float64 env (ltb_ℤ (compare_versions version required) (pos 0)))
        (firedancer_label is_firedancer
          ∷ version
          ∷ required
          ∷ cluster
          ∷ format_int r.for_epoch
          ∷ [])

  unfoldable pub node_is_outdated_of : Result Text → Collect W F (Unit {0})
  unfolding report_required cluster_or_default
  node_is_outdated_of (err e) = pure tt
  node_is_outdated_of (ok version) = do
    hash ← ask env.outside.rpc_client.get_genesis_hash
    required ← ask_api (get_min_required_version env.outside (cluster_or_default hash))
    report_required node_is_outdated version (cluster_or_default hash) required

  unfoldable pub collect_node_is_outdated : Collect W F (Unit {0})
  unfolding node_is_outdated_of
  collect_node_is_outdated = do
    version ← ask env.outside.rpc_client.get_version
    node_is_outdated_of version

  unfoldable pub node_needs_update_of : Result Text → Collect W F (Unit {0})
  unfolding report_required cluster_or_default
  node_needs_update_of (err e) = pure tt
  node_needs_update_of (ok version) = do
    hash ← ask env.outside.rpc_client.get_genesis_hash
    required ← ask_api (get_next_epoch_min_required_version env.outside (cluster_or_default hash))
    report_required node_needs_update version (cluster_or_default hash) required

  unfoldable pub collect_node_needs_update : Collect W F (Unit {0})
  unfolding node_needs_update_of
  collect_node_needs_update = do
    version ← ask env.outside.rpc_client.get_version
    node_needs_update_of version
