-- ===== src/Slots/Registering.antt =====
-- The metrics that `NewSlotWatcher` makes and registers.
use solana_exporter.Base.{
  Text, codes, contains_text, ◌||◌, List, [], ◌∷◌, Option, none, some, if◌then◌else◌,
}
use solana_exporter.Exec.{Exec, returned, stop, exit, pure, ◌>>=◌, ◌>>◌}
use solana_exporter.Metrics.{Description, RegisterError, Registry}
use solana_exporter.Slots.State.{
  Gauge, total_transactions, slot_height, epoch_number, epoch_first_slot, epoch_last_slot,
  block_height, Counter, leader_slots, leader_slots_by_epoch, cluster_slots_by_epoch,
  inflation_rewards, fee_rewards,
}
use solana_exporter.Slots.Vectors.{counter_labels, block_size_labels}

unfoldable pub gauge_name : Gauge → Text
gauge_name total_transactions = codes "solana_node_transactions_total"
gauge_name slot_height = codes "solana_node_slot_height"
gauge_name epoch_number = codes "solana_node_epoch_number"
gauge_name epoch_first_slot = codes "solana_node_epoch_first_slot"
gauge_name epoch_last_slot = codes "solana_node_epoch_last_slot"
gauge_name block_height = codes "solana_node_block_height"

unfoldable pub counter_name : Counter → Text
counter_name leader_slots = codes "solana_validator_leader_slots_total"
counter_name leader_slots_by_epoch = codes "solana_validator_leader_slots_by_epoch_total"
counter_name cluster_slots_by_epoch = codes "solana_cluster_slots_by_epoch_total"
counter_name inflation_rewards = codes "solana_validator_inflation_rewards_total"
counter_name fee_rewards = codes "solana_validator_fee_rewards_total"

unfoldable pub block_size_name : Text
block_size_name = codes "solana_validator_block_size"

abbrev gauge : Gauge → Description
gauge g = record { name = gauge_name g; labels = [] }

abbrev counter : Counter → Description
counter c = record { name = counter_name c; labels = counter_labels c }

-- The metrics in the order of the registration.
unfoldable pub watcher_metrics : List Description
unfolding gauge_name counter_name block_size_name
watcher_metrics =
    gauge total_transactions
    ∷ gauge slot_height
    ∷ gauge epoch_number
    ∷ gauge epoch_first_slot
    ∷ gauge epoch_last_slot
    ∷ counter leader_slots
    ∷ counter leader_slots_by_epoch
    ∷ counter cluster_slots_by_epoch
    ∷ counter inflation_rewards
    ∷ counter fee_rewards
    ∷ record { name = block_size_name; labels = block_size_labels }
    ∷ gauge block_height
    ∷ []

-- An error is passed over if it says that the collector is registered already, else it ends the process.
unfoldable pub after_register : {S E : Type 0} → Option RegisterError → Exec S E (Unit {0})
after_register none = pure tt
after_register (some e) =
    if e.as_already_registered
      || contains_text e.message (codes "duplicate metrics collector registration attempted")
    then pure tt
    else stop exit

module _ {R E : Type 0} (registry : Registry R) where
  unfoldable pub register : List Description → Exec R E (Option RegisterError)
  register ds r =
      let answer = registry.register ds r in
      record { result = returned answer.0; events = []; state = answer.1 }

  unfoldable pub register_each : List Description → Exec R E (Unit {0})
  unfolding register after_register
  register_each [] = pure tt
  register_each (d ∷ ds) = do e ← register (d ∷ []); after_register e; register_each ds
