-- ===== src/Slots/FirstRound.antt =====
-- A round of `WatchSlots` whose current epoch is 0, which stands for "not yet set".
use solana_exporter.Base.{
  ℤ, pos, ◌+64◌, ◌-64◌, ◌+ℤ◌, ◌-ℤ◌, +64_lem, -64_lem, +ℤ_parts, -ℤ_parts, eq_of_parts, int_laws,
  IsInt64, ◌≤ℤ◌, leb_ℤ, ltb_ℤ, int_eqb, true, false, if◌then◌else◌, ◌≡◌, refl, sym, ap, ◌∙◌, arith,
  List, [], ◌∷◌,
}
use solana_exporter.Exec.{returned, pure, proceed, ◌>>=◌, ◌>>◌}
use solana_exporter.Exec.Logic.{Post}
use solana_exporter.Rpc.Types.{ok, EpochInfo, finalized}
use solana_exporter.Slots.State.{Call, System, Env, Action, ask, update}
use solana_exporter.Slots.Requests.{requests}
use solana_exporter.Slots.Watching.{
  start_tracking, track_epoch, emit_heights, update_leader_schedule, emit_epoch_bounds,
  follow_epoch, advance, advance_to, watch_epoch, watch_answer, watch_round,
}
use solana_exporter.Slots.Watermark.{MovesTo, NotAsked, move_slot_watermark-MovesTo}

-- The slot before a slot is below it, and the slot after that is the slot itself.
slot_before :
    (a : ℤ)
    → IsInt64 a
    → pos 0 ≤ℤ a
    → (leb_ℤ a (a -64 pos 1) ≡ false) × ((a -64 pos 1) +64 pos 1 ≡ a)
slot_before a h nonnegative =
    let below = -ℤ_parts a (pos 1) in
    let above = +ℤ_parts (a -ℤ pos 1) (pos 1) in
    let down = -64_lem a (pos 1) (grind int_laws) in
    let same = eq_of_parts (a -ℤ pos 1 +ℤ pos 1) a (omega arith) in
    let up = +64_lem (a -ℤ pos 1) (pos 1) (rw same h) in
    (rw down (grind int_laws), rw down (up ∙ same))

module _ {W F : Type 0} (env : Env W F) where
  -- What a round does once the watermark stands just before the current slot.
  advance_one :
      (info : EpochInfo) (t : System W)
      → env.config.light_mode ≡ false
      → leb_ℤ info.absolute_slot t.watcher.slot_watermark ≡ false
      → ltb_ℤ t.watcher.current_epoch info.epoch ≡ false
      → let r = advance env info t in
        Post
          (MovesTo info.absolute_slot)
          (NotAsked (t.watcher.slot_watermark +64 pos 1) info.absolute_slot)
          t
          r.result
          r.events
          r.state
  unfolding advance advance_to ◌>>=◌
  advance_one info t light ahead same_epoch =
      rw (ahead, same_epoch) (move_slot_watermark-MovesTo env info.absolute_slot t light)

  -- `trackEpoch` on a watcher whose epoch is 0.
  abbrev track_first : EpochInfo → Action W F (Unit {0})
  track_first info =
      start_tracking env info >> (emit_epoch_bounds env >> update_leader_schedule env info)

  track_epoch-first :
      (info : EpochInfo) (s : System W)
      → int_eqb s.watcher.current_epoch (pos 0) ≡ true
      → track_epoch env info s ≡ track_first info s
  unfolding track_epoch ◌>>=◌
  track_epoch-first info s h =
      ap
        (λ b.
          ((if b then start_tracking env info else follow_epoch env info)
              >> (emit_epoch_bounds env >> update_leader_schedule env info))
            s)
        h

  watch_epoch-first :
      (info : EpochInfo) (s : System W)
      → int_eqb s.watcher.current_epoch (pos 0) ≡ true
      → watch_epoch env info s ≡ (track_first info >> (emit_heights env info >> advance env info)) s
  unfolding watch_epoch ◌>>=◌
  watch_epoch-first info s h =
      ap
        (λ b.
          ((if b then track_epoch env info else pure tt)
              >> (emit_heights env info >> advance env info))
            s)
        h
      ∙ ap (λ r. proceed r.result r.events r.state (λ _. emit_heights env info >> advance env info))
          (track_epoch-first info s h)

  -- It sets the position and makes no request.
  track_first-advance :
      (info : EpochInfo) (s : System W)
      → let r = (track_first info >> (emit_heights env info >> advance env info)) s in
        let t = (track_first info s).state in
        let last = advance env info t in
        (r.result ≡ last.result)
        × (requests r.events ≡ requests last.events)
        × (r.state ≡ last.state)
        × (t.watcher.current_epoch ≡ info.epoch)
        × (t.watcher.slot_watermark ≡ info.absolute_slot -64 pos 1)
  unfolding start_tracking update_leader_schedule emit_epoch_bounds emit_heights ◌>>=◌ ask update
  track_first-advance info s = (refl, refl, refl, refl, refl)

  watch_round-answer :
      (info : EpochInfo) (s : System W) (world : W)
      → env.client.get_epoch_info finalized s.world ≡ (ok info, world)
      → watch_round env s ≡ watch_epoch env info (record s { world = world })
  unfolding watch_round watch_answer ◌>>=◌ ask
  watch_round-answer info s world h = ap (λ p. watch_answer env p.0 (record s { world = p.1 })) h

  -- What `advance` did from a state that has just been set to the current slot.
  abbrev OnlyCurrent : EpochInfo → List (Call F) → System W → Type 0
  OnlyCurrent info es u =
      (requests es ≡ (info.absolute_slot, info.absolute_slot) ∷ [])
      × (u.watcher.current_epoch ≡ info.epoch)
      × (u.watcher.slot_watermark ≡ info.absolute_slot)

  advance-OnlyCurrent :
      (info : EpochInfo) (t : System W)
      → env.config.light_mode ≡ false
      → IsInt64 info.absolute_slot
      → pos 0 ≤ℤ info.absolute_slot
      → t.watcher.current_epoch ≡ info.epoch
      → t.watcher.slot_watermark ≡ info.absolute_slot -64 pos 1
      → (advance env info t).result ≡ returned tt
      → OnlyCurrent info (advance env info t).events (advance env info t).state
  advance-OnlyCurrent info t light in_range nonnegative epoch mark returns =
      let (ahead, next) = slot_before info.absolute_slot in_range nonnegative in
      let moved = advance_one info t light (rw mark ahead) (rw epoch (ground arith)) in
      let done : Post (MovesTo info.absolute_slot)
          (NotAsked (t.watcher.slot_watermark +64 pos 1) info.absolute_slot) t (returned tt)
          (advance env info t).events (advance env info t).state =
        rw returns at moved in
      let from = ap (λ m. m +64 pos 1) mark ∙ next in
      (done.1 ∙ ap (λ slot. (slot, info.absolute_slot) ∷ []) from, done.2 ∙ epoch, done.5)

-- Out of light mode, on a watcher whose epoch is 0, whatever its watermark is: if the node tells its
-- epoch, with a slot that is not negative, and the round returns, then the round asks for the block
-- production of the current slot and of no other slot, and leaves the epoch of the answer and the
-- watermark at the current slot.
pub watch_round-first :
    {W F : Type 0} (env : Env W F) (info : EpochInfo) (s : System W) (world : W)
    → env.config.light_mode ≡ false
    → s.watcher.current_epoch ≡ pos 0
    → env.client.get_epoch_info finalized s.world ≡ (ok info, world)
    → IsInt64 info.absolute_slot
    → pos 0 ≤ℤ info.absolute_slot
    → let r = watch_round env s in
      r.result ≡ returned tt
      → (requests r.events ≡ (info.absolute_slot, info.absolute_slot) ∷ [])
        × (r.state.watcher.current_epoch ≡ info.epoch)
        × (r.state.watcher.slot_watermark ≡ info.absolute_slot)
watch_round-first env info s world light unset answered in_range nonnegative returns =
    let s' = record s { world = world } in
    let (result, asked, state, epoch, mark) = track_first-advance env info s' in
    let run =
      watch_round-answer env info s world answered ∙ watch_epoch-first env info s' (ground arith) in
    let same_result = ap (λ r. r.result) run ∙ result in
    let same_requests = ap (λ r. requests r.events) run ∙ asked in
    let same_state = ap (λ r. r.state) run ∙ state in
    let only =
      advance-OnlyCurrent env info _ light in_range nonnegative epoch mark
        (sym same_result ∙ returns) in
    (same_requests ∙ only.0, rw same_state only.1, rw same_state only.2)
