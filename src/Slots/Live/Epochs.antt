-- ===== src/Slots/Live/Epochs.antt =====
-- The end of an epoch, and the beginning of the tracking, on a node that follows the chain.
use solana_exporter.Base.{
  ℤ, pos, ◌+64◌, ◌-64◌, ◌+ℤ◌, +64_lem, int_eqb, int_eqb_iff, true, false, ◌≡◌, refl, sym, ◌∙◌,
  arith,
}
use solana_exporter.Exec.{◌>>◌}
use solana_exporter.Rpc.Types.{EpochInfo}
use solana_exporter.Utils.Schedule.{get_epoch_bounds, get_trimmed_leader_schedule}
use solana_exporter.Slots.State.{Watcher, Env, Action}
use solana_exporter.Slots.Watching.{
  start_tracking, follow_epoch, emit_epoch_bounds, update_leader_schedule, track_epoch,
  close_rewards, close_current_epoch,
}
use solana_exporter.Slots.Live.{Chain, IsAdjacent, IsEpoch, IsInfo, IsSound, IsLed, IsAt, IsWithin}
use solana_exporter.Slots.Live.Rules.{
  Stays, Stays-emit, Stays-pure, Stays-then, Stays-if, Stays-assertf, Stays-answer, Stays-read,
  Stays-update, Reaches, Reaches-of_Stays, Reaches-then, Reaches-read, Reaches-update,
}
use solana_exporter.Slots.Live.Parts.{fetch_and_emit_inflation_rewards-Stays}
use solana_exporter.Slots.Live.Schedules.{get_trimmed_leader_schedule-IsLed}
use solana_exporter.Slots.Live.Moves.{move_slot_watermark-Reaches}

module _ {W F : Type 0} (env : Env W F) (chain : Chain) (sound : IsSound env chain) where
  emit_epoch_bounds-Stays : (P : Watcher → Type 0) → Stays P (emit_epoch_bounds env)
  unfolding emit_epoch_bounds
  emit_epoch_bounds-Stays P =
      Stays-read _
        λ w at. Stays-then _ _ (Stays-emit _) (Stays-then _ _ (Stays-emit _) (Stays-emit _))

  close_rewards-Stays : (P : Watcher → Type 0) (epoch : ℤ) → Stays P (close_rewards env epoch)
  unfolding close_rewards
  close_rewards-Stays P epoch =
      Stays-if _ _ _
        (Stays-then _ _ (fetch_and_emit_inflation_rewards-Stays env chain sound P epoch)
          (Stays-pure tt))
        (Stays-pure tt)

  module _ (info : EpochInfo) (agrees : IsInfo chain info) (mark : ℤ) where
    update_leader_schedule-Stays :
        Stays (IsAt chain info.epoch mark) (update_leader_schedule env info)
    unfolding update_leader_schedule
    update_leader_schedule-Stays = Stays-read _ λ w at.
        let call =
          get_trimmed_leader_schedule env.client env.config.node_keys info.absolute_slot
            w.first_slot in
        Stays-answer call _ λ world.
          let led =
            get_trimmed_leader_schedule-IsLed chain env sound info.epoch info.absolute_slot world
              agrees.after_first agrees.before_last in
          Stays-update _ λ v h. (h.0, h.1, h.2, h.3, rw at.1 led)

    -- An epoch that follows the one that was watched to its end.
    follow_epoch-Reaches :
        (e : ℤ)
        → IsEpoch chain e
        → IsAdjacent chain
        → info.epoch ≡ e +ℤ pos 1
        → mark ≡ chain.last e
        → Reaches (IsAt chain e mark) (IsAt chain info.epoch mark) (follow_epoch env info)
    unfolding follow_epoch
    follow_epoch-Reaches e epoch adjacent next done =
        let low = agrees.epoch in
        let e_next : e +64 pos 1 ≡ e +ℤ pos 1 = +64_lem e (pos 1) (rw next at low.epoch_fits) in
        let last_next = +64_lem (chain.last e) (pos 1) epoch.last_fits in
        Reaches-read _ λ w at.
          let (t, f, l, m, led) = at in
          let epochs : int_eqb info.epoch (w.current_epoch +64 pos 1) ≡ true =
            (int_eqb_iff info.epoch (w.current_epoch +64 pos 1)).1 (rw (t, e_next) next) in
          let bounds : int_eqb (get_epoch_bounds info).0 (w.last_slot +64 pos 1) ≡ true =
            (int_eqb_iff (get_epoch_bounds info).0 (w.last_slot +64 pos 1)).1
              (rw (agrees.bounds, l, last_next, next) (adjacent e)) in
          let over : int_eqb w.slot_watermark w.last_slot ≡ true =
            (int_eqb_iff w.slot_watermark w.last_slot).1 (m ∙ done ∙ sym l) in
          Reaches-then _ _ (Reaches-of_Stays _ (Stays-assertf _ epochs)) (
            Reaches-then _ _ (Reaches-of_Stays _ (Stays-assertf _ bounds)) (
              Reaches-then _ _ (Reaches-of_Stays _ (Stays-assertf _ over)) (
                Reaches-update _
                  λ v h. (refl, rw agrees.bounds refl, rw agrees.bounds refl, h.3, h.4))))

    tracking-Reaches :
        (P : Watcher → Type 0) (m : Action W F (Unit {0}))
        → Reaches P (IsAt chain info.epoch mark) m
        → Reaches P
            (IsAt chain info.epoch mark)
            (m >> (emit_epoch_bounds env >> update_leader_schedule env info))
    tracking-Reaches P m h = Reaches-then _ _ h (
        Reaches-then _ _ (Reaches-of_Stays _ (emit_epoch_bounds-Stays _))
          (Reaches-of_Stays _ update_leader_schedule-Stays))

    track_next-Reaches :
        (e : ℤ)
        → IsEpoch chain e
        → IsAdjacent chain
        → info.epoch ≡ e +ℤ pos 1
        → mark ≡ chain.last e
        → Reaches (IsAt chain e mark) (IsAt chain info.epoch mark) (track_epoch env info)
    unfolding track_epoch
    track_next-Reaches e epoch adjacent next done = Reaches-read _ λ w at.
        let positive = epoch.epoch_positive in
        let tracking : int_eqb w.current_epoch (pos 0) ≡ false = rw at.0 (ground arith) in
        rw tracking (tracking-Reaches _ _ (follow_epoch-Reaches e epoch adjacent next done))

  -- Nothing was watched before.
  abbrev IsFresh : Watcher → Type 0
  IsFresh w = (w.current_epoch ≡ pos 0) × IsLed chain w.leader_schedule

  pub track_first-Reaches :
      (info : EpochInfo)
      → IsInfo chain info
      → Reaches IsFresh
          (IsAt chain info.epoch (info.absolute_slot -64 pos 1))
          (track_epoch env info)
  unfolding track_epoch start_tracking
  track_first-Reaches info agrees = Reaches-read _ λ w fresh. rw fresh.0 (
      tracking-Reaches info agrees (info.absolute_slot -64 pos 1) IsFresh _
        (Reaches-update _ λ v h. (refl, rw agrees.bounds refl, rw agrees.bounds refl, refl, h.1)))

  -- An epoch is closed, and the next one begins with the watermark at its end.
  pub close_current_epoch-Reaches :
      (info : EpochInfo) (e mark : ℤ)
      → IsInfo chain info
      → IsEpoch chain e
      → IsAdjacent chain
      → IsWithin chain e mark
      → info.epoch ≡ e +ℤ pos 1
      → Reaches
          (IsAt chain e mark)
          (IsAt chain info.epoch (chain.last e))
          (close_current_epoch env info)
  unfolding close_current_epoch
  close_current_epoch-Reaches info e mark agrees epoch adjacent within next =
      let moved =
        move_slot_watermark-Reaches env chain sound e epoch mark (chain.last e) within
          (omega arith) in
      Reaches-read _ λ w at. rw at.2 (
        Reaches-then _ _ (Reaches-of_Stays _ (close_rewards-Stays _ w.current_epoch)) (
          Reaches-then _ _ moved (
            Reaches-then _ _ (Reaches-of_Stays _ (Stays-emit _))
              (track_next-Reaches info agrees (chain.last e) e epoch adjacent next refl))))
