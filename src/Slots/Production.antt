-- ===== src/Slots/Production.antt =====
-- Block production: `checkValidSlotRange` and `fetchAndEmitBlockProduction`.
use solana_exporter.Base.{
  ℤ, ◌-64◌, ltb_ℤ, Text, codes, format_int, contains, text_eq, Bool, not, ◌||◌, List, [], ◌∷◌, ◌++◌,
  Map, if◌then◌else◌,
}
use solana_exporter.Exec.{pure, emit, gets, assertf, ◌>>=◌, ◌>>◌}
use solana_exporter.Config.{ExporterConfig}
use solana_exporter.Rpc.Types.{Result, ok, err, finalized, HostProduction, BlockProduction}
use solana_exporter.Utils.Tracker.{add_tracked_nodekeys}
use solana_exporter.Slots.State.{
  leader_slots, leader_slots_by_epoch, cluster_slots_by_epoch, add_to_counter, get_block_production,
  Watcher, Env, Action, ask, update,
}

abbrev pub status_valid : Text
status_valid = codes "valid"

abbrev pub status_skipped : Text
status_skipped = codes "skipped"

-- Whether the range lies in the epoch that is watched; `false` is the error.
unfoldable pub check_valid_slot_range : ℤ → ℤ → Watcher → Bool
check_valid_slot_range from to w = not (ltb_ℤ from w.first_slot || ltb_ℤ w.last_slot to)

-- `slices.Contains(c.config.NodeKeys, address) || c.config.ComprehensiveSlotTracking`
unfoldable pub is_tracked : ExporterConfig → Text → Bool
is_tracked config address = contains config.node_keys address || config.comprehensive_slot_tracking

module _ {W F : Type 0} (env : Env W F) where
  abbrev float : ℤ → F
  float = env.float.of_int

  unfoldable pub emit_by_epoch : Text → Text → HostProduction → Action W F (Unit {0})
  emit_by_epoch epoch_str address production = do
    add_to_counter env.float leader_slots_by_epoch (address ∷ epoch_str ∷ status_valid ∷ [])
        (float production.blocks_produced)
    add_to_counter env.float leader_slots_by_epoch (address ∷ epoch_str ∷ status_skipped ∷ [])
        (float (production.leader_slots -64 production.blocks_produced))

  -- One round of the loop over `ByIdentity`.
  unfoldable pub emit_host : Text → Text → HostProduction → Action W F (Unit {0})
  unfolding emit_by_epoch is_tracked
  emit_host epoch_str address production = do
    add_to_counter env.float leader_slots (address ∷ status_valid ∷ [])
        (float production.blocks_produced)
    add_to_counter env.float leader_slots (address ∷ status_skipped ∷ [])
        (float (production.leader_slots -64 production.blocks_produced))
    if is_tracked env.config address then emit_by_epoch epoch_str address production else pure tt
    add_to_counter env.float cluster_slots_by_epoch (epoch_str ∷ status_valid ∷ [])
        (float production.blocks_produced)
    add_to_counter env.float cluster_slots_by_epoch (epoch_str ∷ status_skipped ∷ [])
        (float (production.leader_slots -64 production.blocks_produced))

  -- The loop; `nodekeys` collects the addresses that have series for the epoch.
  unfoldable pub emit_hosts : Text → Map Text HostProduction → List Text → Action W F (List Text)
  unfolding emit_host
  emit_hosts epoch_str [] nodekeys = pure nodekeys
  emit_hosts epoch_str ((address, production) ∷ hosts) nodekeys = do
    emit_host epoch_str address production
    emit_hosts epoch_str hosts
        (if is_tracked env.config address then nodekeys ++ address ∷ [] else nodekeys)

  unfoldable pub emit_block_production : ℤ → Result BlockProduction → Action W F (Unit {0})
  unfolding emit_hosts
  emit_block_production epoch (err e) = pure tt
  emit_block_production epoch (ok production) = do
    nodekeys ← emit_hosts (format_int epoch) production.by_identity []
    update
        (λ w. record w { nodekey_tracker = add_tracked_nodekeys epoch nodekeys w.nodekey_tracker })

  unfoldable pub fetch_and_emit_block_production : ℤ → ℤ → Action W F (Unit {0})
  unfolding check_valid_slot_range emit_block_production
  fetch_and_emit_block_production start_slot end_slot =
      if env.config.light_mode then pure tt else do
        w ← gets (λ s. s.watcher)
        assertf (check_valid_slot_range start_slot end_slot w)
        emit (get_block_production start_slot end_slot)
        answer ← ask (env.client.get_block_production finalized start_slot end_slot)
        emit_block_production w.current_epoch answer
