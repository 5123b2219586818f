-- ===== src/Slots/Watching.antt =====
-- The epochs and the main loop: `trackEpoch`, `closeCurrentEpoch`, `moveSlotWatermark`, `WatchSlots`.
use solana_exporter.Base.{
  ℕ, zero, suc, ℤ, pos, ◌+64◌, ◌-64◌, int_eqb, ltb_ℤ, leb_ℤ, ltb, length, [], if◌then◌else◌,
}
use solana_exporter.Exec.{stop, panic, pure, emit, gets, assertf, ◌>>=◌, ◌>>◌}
use solana_exporter.Rpc.Types.{Result, ok, err, finalized, EpochInfo}
use solana_exporter.Utils.Schedule.{Schedule, get_epoch_bounds, get_trimmed_leader_schedule}
use solana_exporter.Slots.State.{
  total_transactions, slot_height, epoch_number, epoch_first_slot, epoch_last_slot, block_height,
  set_gauge, go_clean_epoch, Watcher, Env, Action, ask, update,
}
use solana_exporter.Slots.Production.{fetch_and_emit_block_production}
use solana_exporter.Slots.Infos.{fetch_and_emit_block_infos}
use solana_exporter.Slots.Rewards.{fetch_and_emit_inflation_rewards}

abbrev pub set_epoch : ℤ → ℤ × ℤ → Watcher → Watcher
set_epoch epoch bounds w = record w {
  current_epoch = epoch;
  first_slot = bounds.0;
  last_slot = bounds.1;
}

-- A schedule that could not be fetched is `nil`.
abbrev pub schedule_or_nil : Result Schedule → Schedule
schedule_or_nil (ok schedule) = schedule
schedule_or_nil (err e) = []

module _ {W F : Type 0} (env : Env W F) where
  abbrev float : ℤ → F
  float = env.float.of_int

  -- The initial setup: the current slot becomes the first slot that is tracked.
  unfoldable pub start_tracking : EpochInfo → Action W F (Unit {0})
  start_tracking info = update (λ w. record (set_epoch info.epoch (get_epoch_bounds info) w) {
    slot_watermark = info.absolute_slot -64 pos 1;
  })

  unfoldable pub follow_epoch : EpochInfo → Action W F (Unit {0})
  follow_epoch info = do
    w ← gets (λ s. s.watcher)
    assertf (int_eqb info.epoch (w.current_epoch +64 pos 1))
    assertf (int_eqb (get_epoch_bounds info).0 (w.last_slot +64 pos 1))
    assertf (int_eqb w.slot_watermark w.last_slot)
    update (set_epoch info.epoch (get_epoch_bounds info))

  unfoldable pub emit_epoch_bounds : Action W F (Unit {0})
  emit_epoch_bounds = do
    w ← gets (λ s. s.watcher)
    emit (set_gauge epoch_number (float w.current_epoch))
    emit (set_gauge epoch_first_slot (float w.first_slot))
    emit (set_gauge epoch_last_slot (float w.last_slot))

  unfoldable pub update_leader_schedule : EpochInfo → Action W F (Unit {0})
  update_leader_schedule info = do
    w ← gets (λ s. s.watcher)
    answer ← ask (
        get_trimmed_leader_schedule env.client env.config.node_keys info.absolute_slot w.first_slot)
    update (λ w. record w { leader_schedule = schedule_or_nil answer })

  unfoldable pub track_epoch : EpochInfo → Action W F (Unit {0})
  unfolding start_tracking follow_epoch emit_epoch_bounds update_leader_schedule
  track_epoch info = do
    w ← gets (λ s. s.watcher)
    if int_eqb w.current_epoch (pos 0) then start_tracking info else follow_epoch info
    emit_epoch_bounds
    update_leader_schedule info

  unfoldable pub move_slot_watermark : ℤ → Action W F (Unit {0})
  move_slot_watermark to = do
    w ← gets (λ s. s.watcher)
    fetch_and_emit_block_production env (w.slot_watermark +64 pos 1) to
    fetch_and_emit_block_infos env (w.slot_watermark +64 pos 1) to
    update (λ w. record w { slot_watermark = to })

  -- An error of the rewards is logged.
  unfoldable pub close_rewards : ℤ → Action W F (Unit {0})
  close_rewards epoch =
      if ltb 0 (length env.config.vote_keys)
      then (do fetch_and_emit_inflation_rewards env epoch; pure tt)
      else pure tt

  unfoldable pub close_current_epoch : EpochInfo → Action W F (Unit {0})
  unfolding move_slot_watermark track_epoch close_rewards
  close_current_epoch new_epoch = do
    w ← gets (λ s. s.watcher)
    close_rewards w.current_epoch
    move_slot_watermark w.last_slot
    emit (go_clean_epoch w.current_epoch)
    track_epoch new_epoch

  unfoldable pub emit_heights : EpochInfo → Action W F (Unit {0})
  emit_heights info = do
    emit (set_gauge total_transactions (float info.transaction_count))
    emit (set_gauge slot_height (float info.absolute_slot))
    emit (set_gauge block_height (float info.block_height))

  -- The slots up to the current one; an epoch that is over is closed first.
  unfoldable pub advance_to : EpochInfo → Action W F (Unit {0})
  unfolding close_current_epoch move_slot_watermark
  advance_to info = do
    w ← gets (λ s. s.watcher)
    if ltb_ℤ w.current_epoch info.epoch then close_current_epoch info else pure tt
    move_slot_watermark info.absolute_slot

  -- A round once the tracking numbers are set.
  unfoldable pub advance : EpochInfo → Action W F (Unit {0})
  unfolding advance_to
  advance info = do
    w ← gets (λ s. s.watcher)
    if leb_ℤ info.absolute_slot w.slot_watermark then pure tt else advance_to info

  unfoldable pub watch_epoch : EpochInfo → Action W F (Unit {0})
  unfolding track_epoch emit_heights advance
  watch_epoch info = do
    w ← gets (λ s. s.watcher)
    if int_eqb w.current_epoch (pos 0) then track_epoch info else pure tt
    emit_heights info
    advance info

  unfoldable pub watch_answer : Result EpochInfo → Action W F (Unit {0})
  unfolding watch_epoch
  watch_answer (err e) = pure tt
  watch_answer (ok info) = watch_epoch info

  -- One round of the loop, after its tick.
  unfoldable pub watch_round : Action W F (Unit {0})
  unfolding watch_answer
  watch_round = do answer ← ask (env.client.get_epoch_info finalized); watch_answer answer

  -- The loop of `WatchSlots` over the rounds before the context is done.
  unfoldable pub watch_rounds : ℕ → Action W F (Unit {0})
  unfolding watch_round
  watch_rounds zero = pure tt
  watch_rounds (suc rounds) = do watch_round; watch_rounds rounds

  -- `time.NewTicker` panics at an interval that is not positive.
  unfoldable pub new_ticker : Action W F (Unit {0})
  new_ticker = if ltb_ℤ (pos 0) env.config.slot_pace then pure tt else stop panic

  unfoldable pub watch_slots : ℕ → Action W F (Unit {0})
  unfolding watch_rounds new_ticker
  watch_slots rounds = do new_ticker; watch_rounds rounds
