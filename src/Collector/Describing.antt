-- ===== src/Collector/Describing.antt =====
-- The names that `NewSolanaCollector` gives the descriptors, and `Describe`.
use solana_exporter.Base.{Text, codes, List, [], ◌∷◌, map}
use solana_exporter.Metrics.{Description}
use solana_exporter.Collector.Desc.{
  GaugeDesc, validator_active_stake, cluster_active_stake, validator_last_vote, cluster_last_vote,
  validator_root_slot, cluster_root_slot, validator_delinquent, cluster_validator_count,
  account_balances, node_version, node_is_healthy, node_num_slots_behind, node_minimum_ledger_slot,
  node_first_available_block, node_identity, node_is_active, foundation_min_required_version,
  node_is_outdated, node_needs_update, variable_labels,
}

unfoldable pub desc_name : GaugeDesc → Text
desc_name validator_active_stake = codes "solana_validator_active_stake"
desc_name cluster_active_stake = codes "solana_cluster_active_stake"
desc_name validator_last_vote = codes "solana_validator_last_vote"
desc_name cluster_last_vote = codes "solana_cluster_last_vote"
desc_name validator_root_slot = codes "solana_validator_root_slot"
desc_name cluster_root_slot = codes "solana_cluster_root_slot"
desc_name validator_delinquent = codes "solana_validator_delinquent"
desc_name cluster_validator_count = codes "solana_cluster_validator_count"
desc_name account_balances = codes "solana_account_balance"
desc_name node_version = codes "solana_node_version"
desc_name node_identity = codes "solana_node_identity"
desc_name node_is_healthy = codes "solana_node_is_healthy"
desc_name node_num_slots_behind = codes "solana_node_num_slots_behind"
desc_name node_minimum_ledger_slot = codes "solana_node_minimum_ledger_slot"
desc_name node_first_available_block = codes "solana_node_first_available_block"
desc_name node_is_active = codes "solana_node_is_active"
desc_name foundation_min_required_version = codes "solana_foundation_min_required_version"
desc_name node_is_outdated = codes "solana_node_is_outdated"
desc_name node_needs_update = codes "solana_node_needs_update"

-- `NewGaugeDesc`
unfoldable pub new_gauge_desc : GaugeDesc → Description
unfolding desc_name variable_labels
new_gauge_desc desc = record { name = desc_name desc; labels = variable_labels desc }

-- The descriptors in the order in which they are sent.
unfoldable pub describe : List Description
unfolding new_gauge_desc
describe = map new_gauge_desc (
    node_version ∷ node_identity ∷ validator_active_stake ∷ cluster_active_stake
    ∷ validator_last_vote ∷ cluster_last_vote ∷ validator_root_slot ∷ cluster_root_slot
    ∷ validator_delinquent ∷ cluster_validator_count ∷ account_balances ∷ node_is_healthy
    ∷ node_num_slots_behind ∷ node_minimum_ledger_slot ∷ node_first_available_block ∷ node_is_active
    ∷ foundation_min_required_version ∷ node_is_outdated ∷ node_needs_update ∷ [])
