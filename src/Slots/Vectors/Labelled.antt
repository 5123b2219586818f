-- ===== src/Slots/Vectors/Labelled.antt =====
-- The calls that the slot watcher makes on its counters have one value for each label.
use solana_exporter.Base.{
  ℕ, suc, ℤ, Text, Bool, true, false, All, List, [], ◌∷◌, Map, get_elem?, Option-cases, inl, inr,
  zero,
}
use solana_exporter.Slots.Each.{Each-events}
use solana_exporter.Rpc.Types.{
  Result, ok, err, EpochInfo, HostProduction, BlockProduction, InflationReward, BlockReward, Block,
  Transaction,
}
use solana_exporter.Utils.Schedule.{Schedule}
use solana_exporter.Slots.State.{System, Env}
use solana_exporter.Slots.Production.{
  emit_hosts, emit_block_production, fetch_and_emit_block_production,
}
use solana_exporter.Slots.Infos.{
  emit_fees, emit_counts, emit_block, fetch_slots, fetch_schedule, fetch_and_emit_block_infos,
}
use solana_exporter.Slots.Rewards.{
  emit_inflation_rewards, emit_reward_answer, fetch_and_emit_inflation_rewards, votekey_at,
}
use solana_exporter.Slots.Cleaning.{
  clean_rewards, clean_leader_slots, clean_status, take_tracked, clean_epoch,
}
use solana_exporter.Slots.Watching.{
  start_tracking, follow_epoch, emit_epoch_bounds, update_leader_schedule, emit_heights, advance_to,
  track_epoch, move_slot_watermark, close_rewards, close_current_epoch, advance, watch_epoch,
  watch_answer, watch_round, watch_rounds, new_ticker, watch_slots,
}
use solana_exporter.Slots.Vectors.{IsLabelled, Labels, label_rules}

module _ {W F : Type 0} (env : Env W F) where
  emit_hosts-Labels :
      (epoch_str : Text) (hosts : Map Text HostProduction) (nodekeys : List Text)
      → Labels (emit_hosts env epoch_str hosts nodekeys)
  unfolding emit_hosts
  emit_hosts-Labels epoch_str [] nodekeys = search label_rules
  emit_hosts-Labels epoch_str ((address, production) ∷ hosts) nodekeys =
      search (label_rules, emit_hosts-Labels epoch_str hosts) depth 12

  emit_block_production-Labels :
      (epoch : ℤ) (answer : Result BlockProduction)
      → Labels (emit_block_production env epoch answer)
  unfolding emit_block_production
  emit_block_production-Labels epoch (err e) = search label_rules
  emit_block_production-Labels epoch (ok production) = search (label_rules, emit_hosts-Labels)

  production-Labels : (from to : ℤ) → Labels (fetch_and_emit_block_production env from to)
  unfolding fetch_and_emit_block_production
  production-Labels from to = search (label_rules, emit_block_production-Labels) depth 12

  emit_fees-Labels :
      (nodekey : Text) (epoch : ℤ) (rewards : List BlockReward)
      → Labels (emit_fees env nodekey epoch rewards)
  unfolding emit_fees
  emit_fees-Labels nodekey epoch [] = search label_rules
  emit_fees-Labels nodekey epoch (reward ∷ rewards) =
      let ih = emit_fees-Labels nodekey epoch rewards in search label_rules depth 12

  emit_counts-Labels :
      (nodekey : Text) (transactions : List Transaction) (counted : Result ℕ)
      → Labels (emit_counts env nodekey transactions counted)
  unfolding emit_counts
  emit_counts-Labels nodekey transactions (err e) = search label_rules
  emit_counts-Labels nodekey transactions (ok n) = search label_rules depth 12

  emit_block-Labels :
      (nodekey : Text) (epoch : ℤ) (answer : Result Block)
      → Labels (emit_block env nodekey epoch answer)
  unfolding emit_block
  emit_block-Labels nodekey epoch (err e) = search label_rules
  emit_block-Labels nodekey epoch (ok block) =
      search (label_rules, emit_fees-Labels, emit_counts-Labels) depth 12

  fetch_slots-Labels :
      (nodekey : Text) (epoch : ℤ) (slots : List ℤ) → Labels (fetch_slots env nodekey epoch slots)
  unfolding fetch_slots
  fetch_slots-Labels nodekey epoch [] = search label_rules
  fetch_slots-Labels nodekey epoch (slot ∷ slots) =
      let ih = fetch_slots-Labels nodekey epoch slots in
      search (label_rules, emit_block-Labels) depth 12

  fetch_schedule-Labels :
      (epoch : ℤ) (schedule : Schedule) → Labels (fetch_schedule env epoch schedule)
  unfolding fetch_schedule
  fetch_schedule-Labels epoch [] = search label_rules
  fetch_schedule-Labels epoch ((nodekey, slots) ∷ schedule) =
      let ih = fetch_schedule-Labels epoch schedule in search (label_rules, fetch_slots-Labels)

  infos-Labels : (from to : ℤ) → Labels (fetch_and_emit_block_infos env from to)
  unfolding fetch_and_emit_block_infos
  infos-Labels from to = search (label_rules, fetch_schedule-Labels) depth 12

  move_slot_watermark-Labels : (to : ℤ) → Labels (move_slot_watermark env to)
  unfolding move_slot_watermark
  move_slot_watermark-Labels to = search (label_rules, production-Labels, infos-Labels) depth 12

  votekey_at-Labels : (i : ℕ) → Labels (votekey_at env i)
  unfolding votekey_at
  votekey_at-Labels i = elim (Option-cases (get_elem? env.config.vote_keys i)) [
    | inl h ↦ rw (h, votekey_at) (search label_rules)
    | inr (k, h) ↦ rw (h, votekey_at) (search label_rules)
  ]

  emit_inflation_rewards-Labels :
      (epoch : ℤ) (i : ℕ) (rewards : List InflationReward)
      → Labels (emit_inflation_rewards env epoch i rewards)
  unfolding emit_inflation_rewards
  emit_inflation_rewards-Labels epoch i [] = search label_rules
  emit_inflation_rewards-Labels epoch i (reward ∷ rewards) =
      let ih = emit_inflation_rewards-Labels epoch (suc i) rewards in
      search (label_rules, votekey_at-Labels) depth 12

  emit_reward_answer-Labels :
      (epoch : ℤ) (answer : Result (List InflationReward))
      → Labels (emit_reward_answer env epoch answer)
  unfolding emit_reward_answer
  emit_reward_answer-Labels epoch (err e) = search label_rules
  emit_reward_answer-Labels epoch (ok rewards) = search (label_rules, emit_inflation_rewards-Labels)

  close_rewards-Labels : (epoch : ℤ) → Labels (close_rewards env epoch)
  unfolding close_rewards fetch_and_emit_inflation_rewards
  close_rewards-Labels epoch = search (label_rules, emit_reward_answer-Labels) depth 16

  track_epoch-Labels : (info : EpochInfo) → Labels (track_epoch env info)
  unfolding track_epoch start_tracking follow_epoch emit_epoch_bounds update_leader_schedule
  track_epoch-Labels info = search label_rules depth 16

  close_current_epoch-Labels : (info : EpochInfo) → Labels (close_current_epoch env info)
  unfolding close_current_epoch
  close_current_epoch-Labels info =
      search (label_rules, close_rewards-Labels, move_slot_watermark-Labels, track_epoch-Labels)
        depth 12

  watch_epoch-Labels : (info : EpochInfo) → Labels (watch_epoch env info)
  unfolding watch_epoch emit_heights advance advance_to
  watch_epoch-Labels info =
      search
        (label_rules, track_epoch-Labels, close_current_epoch-Labels, move_slot_watermark-Labels)
        depth 16

  watch_answer-Labels : (answer : Result EpochInfo) → Labels (watch_answer env answer)
  unfolding watch_answer
  watch_answer-Labels (err e) = search label_rules
  watch_answer-Labels (ok info) = watch_epoch-Labels info

  watch_round-Labels : Labels (watch_round env)
  unfolding watch_round
  watch_round-Labels = search (label_rules, watch_answer-Labels)

  watch_rounds-Labels : (rounds : ℕ) → Labels (watch_rounds env rounds)
  unfolding watch_rounds
  watch_rounds-Labels zero = search label_rules
  watch_rounds-Labels (suc rounds) =
      let ih = watch_rounds-Labels rounds in search (label_rules, watch_round-Labels)

  watch_slots-Labels : (rounds : ℕ) → Labels (watch_slots env rounds)
  unfolding watch_slots new_ticker
  watch_slots-Labels rounds = search (label_rules, watch_rounds-Labels)

  clean_rewards-Labels :
      (epoch_str : Text) (i : ℕ) (nodekeys : List Text)
      → Labels (clean_rewards env epoch_str i nodekeys)
  unfolding clean_rewards
  clean_rewards-Labels epoch_str i [] = search label_rules
  clean_rewards-Labels epoch_str i (nodekey ∷ nodekeys) =
      let ih = clean_rewards-Labels epoch_str (suc i) nodekeys in
      search (label_rules, votekey_at-Labels) depth 12

  clean_leader_slots-Labels :
      (epoch_str status : Text) (nodekeys : List Text)
      → Labels (clean_leader_slots env epoch_str status nodekeys)
  unfolding clean_leader_slots
  clean_leader_slots-Labels epoch_str status [] = search label_rules
  clean_leader_slots-Labels epoch_str status (nodekey ∷ nodekeys) =
      let ih = clean_leader_slots-Labels epoch_str status nodekeys in search label_rules

  clean_epoch-Labels : (cancelled : Bool) (epoch : ℤ) → Labels (clean_epoch env cancelled epoch)
  unfolding clean_epoch clean_status take_tracked
  clean_epoch-Labels true epoch = search label_rules
  clean_epoch-Labels false epoch =
      search (label_rules, clean_rewards-Labels, clean_leader_slots-Labels) depth 16

-- Whatever the node answers and whether the run returns or stops: each call that any number of rounds of
-- `WatchSlots`, or a cleaning of any epoch, makes on a counter or on the block sizes has exactly one value
-- for each label with which `NewSlotWatcher` made it.
pub watch_slots-IsLabelled :
    {W F : Type 0} (env : Env W F) (rounds : ℕ) (cancelled : Bool) (epoch : ℤ) (s t : System W)
    → All IsLabelled (watch_slots env rounds s).events
      × All IsLabelled (clean_epoch env cancelled epoch t).events
watch_slots-IsLabelled env rounds cancelled epoch s t = (
  Each-events IsLabelled (watch_slots env rounds) s (watch_slots-Labels env rounds),
  Each-events IsLabelled (clean_epoch env cancelled epoch) t
      (clean_epoch-Labels env cancelled epoch),
)
