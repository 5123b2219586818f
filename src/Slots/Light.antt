-- ===== src/Slots/Light.antt =====
-- The slot watcher in light mode: the calls that are left.
use solana_exporter.Base.{ℕ, zero, suc, ℤ, Bool, true, false, All, ◌≡◌, refl}
use solana_exporter.Rpc.Types.{Result, ok, err, EpochInfo}
use solana_exporter.Slots.State.{Call, set_gauge, go_clean_epoch, System, Env, Action}
use solana_exporter.Slots.Production.{fetch_and_emit_block_production}
use solana_exporter.Slots.Infos.{fetch_and_emit_block_infos}
use solana_exporter.Slots.Rewards.{fetch_and_emit_inflation_rewards}
use solana_exporter.Slots.Watching.{
  start_tracking, follow_epoch, emit_epoch_bounds, update_leader_schedule, emit_heights, advance_to,
  track_epoch, move_slot_watermark, close_rewards, close_current_epoch, advance, watch_epoch,
  watch_answer, watch_round, watch_rounds, new_ticker, watch_slots,
}
use solana_exporter.Slots.Each.{Each, Each-events, each_rules}

-- A call on a gauge of the node, or the start of a cleaning.
abbrev pub is_light : {F : Type 0} → Call F → Bool
is_light (set_gauge gauge x) = true
is_light (go_clean_epoch epoch) = true
is_light _ = false

abbrev pub IsLight : {F : Type 0} → Call F → Type 0
IsLight c = is_light c ≡ true

abbrev EachIsLight : {W F A : Type 0} → Action W F A → Type 0
EachIsLight m = Each IsLight m

ruleset light_rules = (each_rules, refl)

module _ {W F : Type 0} (env : Env W F) (light : env.config.light_mode ≡ true) where
  production-light : (from to : ℤ) → EachIsLight (fetch_and_emit_block_production env from to)
  unfolding fetch_and_emit_block_production
  production-light from to = rw light (search light_rules)

  infos-light : (from to : ℤ) → EachIsLight (fetch_and_emit_block_infos env from to)
  unfolding fetch_and_emit_block_infos
  infos-light from to = rw light (search light_rules)

  rewards-light : (epoch : ℤ) → EachIsLight (fetch_and_emit_inflation_rewards env epoch)
  unfolding fetch_and_emit_inflation_rewards
  rewards-light epoch = rw light (search light_rules)

  move_slot_watermark-light : (to : ℤ) → EachIsLight (move_slot_watermark env to)
  unfolding move_slot_watermark
  move_slot_watermark-light to = search (light_rules, production-light, infos-light) depth 12

  close_rewards-light : (epoch : ℤ) → EachIsLight (close_rewards env epoch)
  unfolding close_rewards
  close_rewards-light epoch = search (light_rules, rewards-light) depth 12

  track_epoch-light : (info : EpochInfo) → EachIsLight (track_epoch env info)
  unfolding track_epoch start_tracking follow_epoch emit_epoch_bounds update_leader_schedule
  track_epoch-light info = search light_rules depth 16

  close_current_epoch-light : (info : EpochInfo) → EachIsLight (close_current_epoch env info)
  unfolding close_current_epoch
  close_current_epoch-light info =
      search (light_rules, close_rewards-light, move_slot_watermark-light, track_epoch-light) depth
        12

  watch_epoch-light : (info : EpochInfo) → EachIsLight (watch_epoch env info)
  unfolding watch_epoch emit_heights advance advance_to
  watch_epoch-light info =
      search (light_rules, track_epoch-light, close_current_epoch-light, move_slot_watermark-light)
        depth 16

  watch_answer-light : (answer : Result EpochInfo) → EachIsLight (watch_answer env answer)
  unfolding watch_answer
  watch_answer-light (err e) = search light_rules
  watch_answer-light (ok info) = watch_epoch-light info

  watch_rounds-light : (rounds : ℕ) → EachIsLight (watch_rounds env rounds)
  unfolding watch_rounds watch_round
  watch_rounds-light zero = search light_rules
  watch_rounds-light (suc rounds) =
      let ih = watch_rounds-light rounds in search (light_rules, watch_answer-light) depth 12

  watch_slots-light : (rounds : ℕ) → EachIsLight (watch_slots env rounds)
  unfolding watch_slots new_ticker
  watch_slots-light rounds = search (light_rules, watch_rounds-light) depth 12

  -- In light mode, whatever the node answers and whether the run returns or stops: over any number of
  -- rounds `WatchSlots` only sets the gauges of the node and of its epoch and starts cleanings; it asks for
  -- no block production, block or inflation rewards, and adds to no counter.
  pub watch_slots-IsLight :
      (rounds : ℕ) (s : System W) → All IsLight (watch_slots env rounds s).events
  watch_slots-IsLight rounds s =
      Each-events IsLight (watch_slots env rounds) s (watch_slots-light rounds)
