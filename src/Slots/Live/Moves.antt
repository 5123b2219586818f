-- ===== src/Slots/Live/Moves.antt =====
-- `moveSlotWatermark` on a node that follows the chain.
use solana_exporter.Base.{ℤ, pos, ◌+64◌, ◌+ℤ◌, +64_lem, ◌≤ℤ◌, int_laws, true, ◌≡◌, refl, arith}
use solana_exporter.Rpc.Types.{finalized}
use solana_exporter.Utils.Schedule.{select_from_schedule}
use solana_exporter.Slots.State.{Watcher, Env}
use solana_exporter.Slots.Production.{
  check_valid_slot_range, emit_block_production, fetch_and_emit_block_production,
}
use solana_exporter.Slots.Infos.{fetch_and_emit_block_infos}
use solana_exporter.Slots.Watching.{move_slot_watermark}
use solana_exporter.Slots.Live.{Chain, IsEpoch, IsSound, IsAt, IsWithin}
use solana_exporter.Slots.Live.Rules.{
  Stays, Stays-emit, Stays-pure, Stays-then, Stays-if, Stays-assertf, Stays-answer, Stays-read,
  Reaches, Reaches-of_Stays, Reaches-then, Reaches-read, Reaches-update,
}
use solana_exporter.Slots.Live.Parts.{fetch_schedule-Stays, emit_block_production-Stays}
use solana_exporter.Slots.Live.Schedules.{select_from_schedule-IsLed}

module _ (chain : Chain) (e : ℤ) (epoch : IsEpoch chain e) where
  -- The slot after one of the epoch, or the epoch's first one, does not wrap.
  next_lem : (mark : ℤ) → IsWithin chain e mark → mark +64 pos 1 ≡ mark +ℤ pos 1
  next_lem mark (after, before) =
      let low = epoch.first_nonnegative in
      let fits = epoch.last_fits in +64_lem mark (pos 1) (grind int_laws)

  range_is_valid :
      (mark from to : ℤ) (w : Watcher)
      → chain.first e ≤ℤ from
      → to ≤ℤ chain.last e
      → IsAt chain e mark w
      → check_valid_slot_range from to w ≡ true
  unfolding check_valid_slot_range
  range_is_valid mark from to w p q at = rw (at.1, at.2) (ground arith)

module _ {W F : Type 0} (env : Env W F) (chain : Chain) (sound : IsSound env chain) (e : ℤ)
    (epoch : IsEpoch chain e) (mark : ℤ) where
  abbrev Here : Watcher → Type 0
  Here = IsAt chain e mark

  production-Stays :
      (from to : ℤ)
      → chain.first e ≤ℤ from
      → to ≤ℤ chain.last e
      → Stays Here (fetch_and_emit_block_production env from to)
  unfolding fetch_and_emit_block_production
  production-Stays from to p q =
      let call = env.client.get_block_production finalized from to in
      Stays-if env.config.light_mode _ _ (Stays-pure tt) (
        Stays-read _ λ w at.
          Stays-then _ _ (Stays-assertf _ (range_is_valid chain e epoch mark from to w p q at)) (
            Stays-then _ _ (Stays-emit _) (
              Stays-answer call (emit_block_production env w.current_epoch) λ world.
                emit_block_production-Stays env chain sound Here (λ v n keys h. h) w.current_epoch
                  (call world).0
                  (λ production asked. sound.productions from to world production asked))))

  infos-Stays :
      (from to : ℤ)
      → chain.first e ≤ℤ from
      → to ≤ℤ chain.last e
      → Stays Here (fetch_and_emit_block_infos env from to)
  unfolding fetch_and_emit_block_infos
  infos-Stays from to p q = Stays-if env.config.light_mode _ _ (Stays-pure tt) (
      Stays-read _ λ w at.
        Stays-then _ _ (Stays-assertf _ (range_is_valid chain e epoch mark from to w p q at)) (
          fetch_schedule-Stays env chain sound Here w.current_epoch
            (select_from_schedule w.leader_schedule from to)
            (select_from_schedule-IsLed chain w.leader_schedule from to at.4)))

  -- A move to a slot of the epoch ends there.
  pub move_slot_watermark-Reaches :
      (to : ℤ)
      → IsWithin chain e mark
      → to ≤ℤ chain.last e
      → Reaches Here (IsAt chain e to) (move_slot_watermark env to)
  unfolding move_slot_watermark
  move_slot_watermark-Reaches to within q = Reaches-read _ λ w at.
      let after : chain.first e ≤ℤ w.slot_watermark +64 pos 1 =
        rw (at.3, next_lem chain e epoch mark within) within.0 in
      Reaches-then _ _ (Reaches-of_Stays _ (production-Stays _ to after q)) (
        Reaches-then _ _ (Reaches-of_Stays _ (infos-Stays _ to after q))
          (Reaches-update _ λ v h. (h.0, h.1, h.2, refl, h.4)))
