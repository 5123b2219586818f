-- ===== src/Slots/Advances/Epochs.antt =====
-- The change of the epoch and the moves of a round, as triples.
use solana_exporter.Base.{
  ap, sym, ◌∙◌, ℤ, pos, pos_part, neg_part, ◌+64◌, +64_lem, -64_lem, ◌+ℤ◌, ◌-ℤ◌, +ℤ_parts, -ℤ_parts,
  ◌≤ℤ◌, ltb_ℤ, leb_ℤ, int_eqb, int_eqb-eq, IsInt64, false, ◌<◌, ◌+◌, ◌^◌, ◌≡◌, refl, arith,
  if◌then◌else◌, int_laws,
}
use solana_exporter.Exec.{emit, pure, ◌>>◌}
use solana_exporter.Exec.Logic.{Holds}
use solana_exporter.Rpc.Types.{EpochInfo}
use solana_exporter.Utils.Schedule.{get_epoch_bounds}
use solana_exporter.Slots.State.{Call, go_clean_epoch, Watcher, System, Env}
use solana_exporter.Slots.Quiet.{
  Quiet, IsQuiet, SamePosition, quiet_rules, update-IsQuiet,
  fetch_and_emit_inflation_rewards-IsQuiet,
}
use solana_exporter.Slots.Watermark.{move_slot_watermark-MovesTo}
use solana_exporter.Slots.Watching.{
  move_slot_watermark, follow_epoch, track_epoch, close_current_epoch, advance, advance_to,
  set_epoch, emit_epoch_bounds, update_leader_schedule, close_rewards,
}
use solana_exporter.Slots.Advances.{
  IsTracking, IsBefore, Advances, then-Advances, Advances-map, pure-Advances, read-Advances,
  IsQuiet-Advances, moves-Advances, assert-Advances, if-Advances, update-Advances,
}

-- The slot of an answer of `getEpochInfo` is one of the slots of its epoch, and their numbers fit.
pub record IsInside (info : EpochInfo) : Type 0 where
  pub index_nonnegative : pos 0 ≤ℤ info.slot_index
  pub index_below : info.slot_index +ℤ pos 1 ≤ℤ info.slots_in_epoch
  pub begins_nonnegative : info.slot_index ≤ℤ info.absolute_slot
  pub slot_fits : IsInt64 info.absolute_slot
  pub end_fits : IsInt64 (info.absolute_slot -ℤ info.slot_index +ℤ info.slots_in_epoch)

-- The slot lies between the bounds of its epoch.
IsInside-bounds :
    (info : EpochInfo)
    → IsInside info
    → let (first, last) = get_epoch_bounds info in
      (first ≤ℤ info.absolute_slot) × (info.absolute_slot ≤ℤ last) × (pos_part last + 1 < 2 ^ 63)
unfolding get_epoch_bounds
IsInside-bounds info h =
    let first = info.absolute_slot -ℤ info.slot_index in
    let a = -ℤ_parts info.absolute_slot info.slot_index in
    let b = +ℤ_parts first info.slots_in_epoch in
    let c = -ℤ_parts (first +ℤ info.slots_in_epoch) (pos 1) in
    let d = +ℤ_parts info.slot_index (pos 1) in
    let i = h.index_nonnegative in
    let j = h.index_below in
    let k = h.begins_nonnegative in
    let l = h.slot_fits in
    let m = h.end_fits in
    rw
      (
        -64_lem info.absolute_slot info.slot_index (grind int_laws),
        +64_lem first info.slots_in_epoch m,
        -64_lem (first +ℤ info.slots_in_epoch) (pos 1) (grind int_laws),
      )
      (grind int_laws)

-- The facts that `trackEpoch` asserts put the watermark before the slot of the new epoch.
followed_lem :
    (info : EpochInfo) (w : Watcher)
    → IsInside info
    → pos 1 ≤ℤ info.epoch
    → IsTracking w
    → (get_epoch_bounds info).0 ≡ w.last_slot +64 pos 1
    → w.slot_watermark ≡ w.last_slot
    → IsBefore info.absolute_slot (set_epoch info.epoch (get_epoch_bounds info) w)
followed_lem info w inside h (number, low, up, fits) follows done =
    let (after, before, room) = IsInside-bounds info inside in
    let next = +ℤ_parts w.last_slot (pos 1) in
    let exact : w.last_slot +64 pos 1 ≡ w.last_slot +ℤ pos 1 = +64_lem _ _ (grind int_laws) in
    let p = ap pos_part (follows ∙ exact) in
    let q = ap neg_part (follows ∙ exact) in
    let d = ap pos_part done in
    let e = ap neg_part done in ((h, low, omega arith, room), omega arith)

-- What holds of the position holds after what leaves it alone.
pub SamePosition-IsTracking : (v w : Watcher) → SamePosition v w → IsTracking v → IsTracking w
SamePosition-IsTracking v w same h = rw (same.0, same.2, same.3) h

SamePosition-IsBefore :
    (slot : ℤ) (v w : Watcher) → SamePosition v w → IsBefore slot v → IsBefore slot w
SamePosition-IsBefore slot v w same h = rw (same.0, same.2, same.3) h

-- The watcher's last slot is `last`.
abbrev EndsAt : ℤ → Watcher → Type 0
EndsAt last w = IsTracking w × (w.last_slot ≡ last)

SamePosition-EndsAt : (last : ℤ) (v w : Watcher) → SamePosition v w → EndsAt last v → EndsAt last w
SamePosition-EndsAt last v w same h = rw (same.0, same.2, same.3) h

EndsAt-IsBefore : (last : ℤ) (w : Watcher) → EndsAt last w → IsBefore last w
EndsAt-IsBefore last w (tracking, e) = (tracking, rw e at tracking.2)

-- The watcher that was read.
abbrev At : Watcher → Watcher → Type 0
At w v = IsTracking v × (v ≡ w)

pub started_epoch : (w : Watcher) → IsTracking w → int_eqb w.current_epoch (pos 0) ≡ false
started_epoch w h = let positive = h.0 in ground arith

module _ {W F : Type 0} (env : Env W F) where
  emit_epoch_bounds-IsQuiet : IsQuiet (emit_epoch_bounds env)
  unfolding emit_epoch_bounds
  emit_epoch_bounds-IsQuiet = search quiet_rules depth 12

  update_leader_schedule-IsQuiet : (info : EpochInfo) → IsQuiet (update_leader_schedule env info)
  unfolding update_leader_schedule
  update_leader_schedule-IsQuiet info = search (quiet_rules, update-IsQuiet) depth 12

  close_rewards-IsQuiet : (epoch : ℤ) → IsQuiet (close_rewards env epoch)
  unfolding close_rewards
  close_rewards-IsQuiet epoch =
      search (quiet_rules, fetch_and_emit_inflation_rewards-IsQuiet env) depth 12

  go_clean_epoch-IsQuiet :
      (epoch : ℤ) → Holds Quiet Quiet (emit {S = System W} {E = Call F} (go_clean_epoch epoch))
  go_clean_epoch-IsQuiet epoch = search quiet_rules

  move_slot_watermark-Advances :
      (to : ℤ)
      → env.config.light_mode ≡ false
      → Advances (IsBefore to) IsTracking (move_slot_watermark env to)
  move_slot_watermark-Advances to light = record {
    at = λ s. moves-Advances to s _ _ _ (move_slot_watermark-MovesTo env to s light);
  }

  -- From here on the answer's slot lies in its epoch, which is not epoch 0.
  module _ (info : EpochInfo) (inside : IsInside info) where
    abbrev Before : Watcher → Type 0
    Before = IsBefore info.absolute_slot

    follow_epoch-Advances : pos 1 ≤ℤ info.epoch → Advances IsTracking Before (follow_epoch env info)
    unfolding follow_epoch
    follow_epoch-Advances h = read-Advances IsTracking Before _ λ w known.
        assert-Advances (At w) Before _ _ λ next. assert-Advances (At w) Before _ _ λ follows.
          assert-Advances (At w) Before _ _ λ done.
            update-Advances (At w) Before _ λ v (tracking, e). (
              followed_lem info v inside h tracking
                  (int_eqb-eq _ _ follows ∙ ap (λ u. u.last_slot +64 pos 1) (sym e))
                  (rw e (int_eqb-eq _ _ done)),
              refl,
            )

    emit_then_schedule-Advances :
        Advances Before Before (emit_epoch_bounds env >> update_leader_schedule env info)
    emit_then_schedule-Advances =
        let keeps = SamePosition-IsBefore info.absolute_slot in
        then-Advances Before Before Before _ _
          (IsQuiet-Advances Before _ keeps emit_epoch_bounds-IsQuiet)
          λ _. IsQuiet-Advances Before _ keeps (update_leader_schedule-IsQuiet info)

    pub track_epoch-Advances :
        pos 1 ≤ℤ info.epoch → Advances IsTracking Before (track_epoch env info)
    unfolding track_epoch
    track_epoch-Advances h = read-Advances IsTracking Before _ λ w known.
        rw (started_epoch w known) (
          then-Advances (At w) Before Before _ _
            (Advances-map (At w) IsTracking Before Before _ (λ v p. p.0) (λ v p. p)
              (follow_epoch-Advances h))
            λ _. emit_then_schedule-Advances)

    module _ (light : env.config.light_mode ≡ false) where
      clean_and_track-Advances :
          (epoch : ℤ)
          → pos 1 ≤ℤ info.epoch
          → Advances IsTracking Before (emit (go_clean_epoch epoch) >> track_epoch env info)
      clean_and_track-Advances epoch h =
          then-Advances IsTracking IsTracking Before _ _
            (IsQuiet-Advances IsTracking _ SamePosition-IsTracking (go_clean_epoch-IsQuiet epoch))
            λ _. track_epoch-Advances h

      close_current_epoch-Advances :
          pos 1 ≤ℤ info.epoch → Advances IsTracking Before (close_current_epoch env info)
      unfolding close_current_epoch
      close_current_epoch-Advances h = read-Advances IsTracking Before _ λ w known.
          let last = w.last_slot in
          let keeps = SamePosition-EndsAt last in
          then-Advances (At w) (EndsAt last) Before _ _
            (Advances-map (At w) (EndsAt last) (EndsAt last) (EndsAt last) _
              (λ v (tracking, e). (tracking, ap (λ u. u.last_slot) e)) (λ v p. p)
              (IsQuiet-Advances (EndsAt last) _ keeps (close_rewards-IsQuiet w.current_epoch)))
            λ _.
              then-Advances (EndsAt last) IsTracking Before _ _
                (Advances-map (EndsAt last) (IsBefore last) IsTracking IsTracking _
                  (EndsAt-IsBefore last) (λ v p. p) (move_slot_watermark-Advances last light))
                λ _. clean_and_track-Advances w.current_epoch h

      -- An epoch that is over is closed, and the slot of the answer is not behind.
      close_if_over-Advances :
          (w : Watcher)
          → IsTracking w
          → Advances Before Before
              (if ltb_ℤ w.current_epoch info.epoch then close_current_epoch env info else pure tt)
      close_if_over-Advances w known =
          if-Advances Before Before _ _ _
            (λ over.
              Advances-map Before IsTracking Before Before _ (λ v p. p.0) (λ v p. p)
                (close_current_epoch-Advances (let positive = known.0 in ground arith)))
            λ going_on. pure-Advances Before tt

      advance_to-Advances : Advances Before IsTracking (advance_to env info)
      unfolding advance_to
      advance_to-Advances = read-Advances Before IsTracking _ λ w known.
          then-Advances (λ v. Before v × (v ≡ w)) Before IsTracking _ _
            (Advances-map (λ v. Before v × (v ≡ w)) Before Before Before _ (λ v p. p.0) (λ v p. p)
              (close_if_over-Advances w known.0))
            λ _. move_slot_watermark-Advances info.absolute_slot light

      -- The slot of the answer is beyond the watermark, or nothing is done.
      pub advance-Advances : Advances IsTracking IsTracking (advance env info)
      unfolding advance
      advance-Advances = read-Advances IsTracking IsTracking _ λ w known.
          if-Advances (At w) IsTracking (leb_ℤ info.absolute_slot w.slot_watermark) _ _
            (λ old.
              Advances-map (At w) IsTracking IsTracking IsTracking _ (λ v p. p.0) (λ v p. p)
                (pure-Advances IsTracking tt))
            λ new.
              Advances-map (At w) Before IsTracking IsTracking _
                (λ v (tracking, e). (tracking, rw e (ground arith))) (λ v p. p) advance_to-Advances
