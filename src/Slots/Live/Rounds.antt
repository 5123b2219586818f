-- ===== src/Slots/Live/Rounds.antt =====
-- `WatchSlots` on a node that follows the chain: every round returns, and the watermark keeps up.
use solana_exporter.Base.{
  ℤ, pos, ◌+ℤ◌, ◌-64◌, leb_ℤ, ltb_ℤ, int_eqb, int_laws, true, false, Bool-cases, ◌≡◌, refl, arith,
  inl, inr, ◌⊎◌,
}
use solana_exporter.Exec.{◌>>=◌}
use solana_exporter.Rpc.Types.{Result, ok, err, EpochInfo}
use solana_exporter.Slots.State.{System, Watcher, Env, ask}
use solana_exporter.Slots.Watching.{
  emit_heights, advance_to, advance, watch_epoch, watch_answer, watch_round,
}
use solana_exporter.Slots.Live.{Chain, IsAdjacent, IsEpoch, IsInfo, IsSound, IsAt, IsWithin}
use solana_exporter.Slots.Live.Rules.{
  Stays, Stays-emit, Stays-pure, Stays-then, Reaches, Ends, Reaches-of_Stays, Reaches-then,
  Reaches-read,
}
use solana_exporter.Slots.Live.Moves.{move_slot_watermark-Reaches}
use solana_exporter.Slots.Live.Epochs.{track_first-Reaches, close_current_epoch-Reaches}
use solana_exporter.Slots.Live.Positions.{
  Position, fresh, within, furthest, moved_by, IsNext, IsPosition, IsFollowing, end_IsWithin,
  before_IsWithin, answer_in,
}

module _ {W F : Type 0} (env : Env W F) (chain : Chain) (sound : IsSound env chain)
    (adjacent : IsAdjacent chain) where
  emit_heights-Stays : (P : Watcher → Type 0) (info : EpochInfo) → Stays P (emit_heights env info)
  unfolding emit_heights
  emit_heights-Stays P info =
      Stays-then _ _ (Stays-emit _) (Stays-then _ _ (Stays-emit _) (Stays-emit _))

  module _ (info : EpochInfo) (agrees : IsInfo chain info) (e mark : ℤ) (epoch : IsEpoch chain e)
      (place : IsWithin chain e mark) where
    advance_to-same :
        info.epoch ≡ e
        → Reaches
            (IsAt chain e mark)
            (IsAt chain info.epoch info.absolute_slot)
            (advance_to env info)
    unfolding advance_to
    advance_to-same same = Reaches-read _ λ w at.
        let current : ltb_ℤ w.current_epoch info.epoch ≡ false = rw (at.0, same) (ground arith) in
        rw (current, same)
          (Reaches-then _ _ (Reaches-of_Stays _ (Stays-pure tt)) (
            move_slot_watermark-Reaches env chain sound e epoch mark info.absolute_slot place
              (rw same at agrees.before_last)))

    advance_to-next :
        info.epoch ≡ e +ℤ pos 1
        → Reaches
            (IsAt chain e mark)
            (IsAt chain info.epoch info.absolute_slot)
            (advance_to env info)
    unfolding advance_to
    advance_to-next next =
        let (ending, later) = end_IsWithin chain e info adjacent agrees next in
        Reaches-read _ λ w at.
          let over : ltb_ℤ w.current_epoch info.epoch ≡ true = rw (at.0, next) (grind int_laws) in
          rw over (
            Reaches-then _ _
              (close_current_epoch-Reaches env chain sound info e mark agrees epoch adjacent place
                next)
              (move_slot_watermark-Reaches env chain sound info.epoch agrees.epoch (chain.last e)
                info.absolute_slot ending agrees.before_last))

    advance-Reaches :
        (info.epoch ≡ e) ⊎ (info.epoch ≡ e +ℤ pos 1)
        → Reaches
            (IsAt chain e mark)
            (IsAt chain info.epoch (furthest mark info.absolute_slot))
            (advance env info)
    unfolding advance
    advance-Reaches (inl same) = elim (Bool-cases (leb_ℤ info.absolute_slot mark)) [
      | inl behind ↦
          Reaches-read _ λ w at. rw (at.3, behind, same) (Reaches-of_Stays _ (Stays-pure tt))
      | inr ahead ↦ Reaches-read _ λ w at. rw (at.3, ahead) (advance_to-same same)
    ]
    advance-Reaches (inr next) =
        let (ending, later) = end_IsWithin chain e info adjacent agrees next in
        let ahead : leb_ℤ info.absolute_slot mark ≡ false = grind int_laws in
        Reaches-read _ λ w at. rw (at.3, ahead) (advance_to-next next)

  watch_first-Reaches :
      (info : EpochInfo)
      → IsInfo chain info
      → Reaches
          (IsFollowing chain fresh)
          (IsAt chain info.epoch info.absolute_slot)
          (watch_epoch env info)
  unfolding watch_epoch
  watch_first-Reaches info agrees =
      let mark = info.absolute_slot -64 pos 1 in
      let (place, ahead) = before_IsWithin chain info agrees in
      let last =
        rw ahead at (advance-Reaches info agrees info.epoch mark agrees.epoch place (inl refl)) in
      Reaches-read _ λ w at. rw at.0 (
        Reaches-then _ _ (track_first-Reaches env chain sound info agrees)
          (Reaches-then _ _ (Reaches-of_Stays _ (emit_heights-Stays _ info)) last))

  watch_epoch-Reaches :
      (info : EpochInfo) (e mark : ℤ)
      → IsInfo chain info
      → IsEpoch chain e
      → IsWithin chain e mark
      → (info.epoch ≡ e) ⊎ (info.epoch ≡ e +ℤ pos 1)
      → Reaches
          (IsAt chain e mark)
          (IsAt chain info.epoch (furthest mark info.absolute_slot))
          (watch_epoch env info)
  unfolding watch_epoch
  watch_epoch-Reaches info e mark agrees epoch place step = Reaches-read _ λ w at.
      let positive = epoch.epoch_positive in
      let tracked : int_eqb w.current_epoch (pos 0) ≡ false = rw at.0 (ground arith) in
      rw tracked (
        Reaches-then _ _ (Reaches-of_Stays _ (Stays-pure tt)) (
          Reaches-then _ _ (Reaches-of_Stays _ (emit_heights-Stays _ info))
            (advance-Reaches info agrees e mark epoch place step)))

  watch_answer-Reaches :
      (position : Position) (answer : Result EpochInfo)
      → IsPosition chain position
      → IsNext chain position answer
      → Reaches
          (IsFollowing chain position)
          (IsFollowing chain (moved_by answer position))
          (watch_answer env answer)
  unfolding watch_answer
  watch_answer-Reaches position (err e) at next = Reaches-of_Stays _ (Stays-pure tt)
  watch_answer-Reaches fresh (ok info) at agrees = watch_first-Reaches info agrees
  watch_answer-Reaches (within e mark) (ok info) (epoch, place) (agrees, step) =
      watch_epoch-Reaches info e mark agrees epoch place step

  pub watch_round-Ends :
      (position : Position) (s : System W)
      → IsPosition chain position
      → IsNext chain position (answer_in env s)
      → IsFollowing chain position s.watcher
      → Ends
          (IsFollowing chain (moved_by (answer_in env s) position))
          (watch_round env s).result
          (watch_round env s).state
  unfolding watch_round ask ◌>>=◌
  watch_round-Ends position s at next follows =
      (watch_answer-Reaches position (answer_in env s) at next).at _ follows
