-- ===== src/Slots/Order/Rounds.antt =====
-- Rounds of `WatchSlots`: what follows the start of a cleaning.
use solana_exporter.Base.{
  ℕ, zero, suc, ℤ, pos, ◌+ℤ◌, ◌≤ℤ◌, +ℤ_parts, int_eqb, ltb_ℤ, int_laws, IsInt64, Bool-cases, All,
  All-In, In, List, [], ◌∷◌, ◌++◌, ◌≡◌, refl, arith, inl, inr, if◌then◌else◌,
}
use solana_exporter.Exec.{pure, panic, ◌>>=◌}
use solana_exporter.Exec.Logic.{Post-either, Holds-map, Holds-if, Holds-pure, Holds-stop}
use solana_exporter.Rpc.Types.{Result, ok, err, finalized, EpochInfo}
use solana_exporter.Slots.State.{Call, go_clean_epoch, System, Env, ask}
use solana_exporter.Slots.Watching.{
  move_slot_watermark, track_epoch, close_current_epoch, emit_heights, advance_to, advance,
  watch_epoch, watch_answer, watch_round, watch_rounds, new_ticker, watch_slots,
}
use solana_exporter.Slots.Series.Labels.{StaysIn, addition_rules}
use solana_exporter.Slots.Series.Additions.{move_slot_watermark-StaysIn}
use solana_exporter.Slots.Order.{IsEpochNumber, Concerns, IsFrom, IsOrdered}
use solana_exporter.Slots.Order.Rules.{
  InOrder, ProgressesSoFar, Progress, ProgressFrom, Progress-logic, Progress-may_stop,
  Progress-then, Progress-read, From-then, From-of_Progress, Progress-of_stays,
}
use solana_exporter.Slots.Order.Epochs.{
  track_epoch-Tracking, From-of_Tracking, close_current_epoch-From,
}

module _ {W F : Type 0} (env : Env W F) where
  -- The epochs that the node answers are numbers of epochs.
  pub record IsReporting : Type 0 where
    pub numbers :
        (world : W) (info : EpochInfo)
        → (env.client.get_epoch_info finalized world).0 ≡ ok info
        → IsEpochNumber info.epoch

module _ {W F : Type 0} (env : Env W F) where
  pure-Progress : {A : Type 0} (a : A) → Progress {W = W} {F = F} (pure a)
  pure-Progress a = Holds-pure Progress-logic a

  move_slot_watermark-Progress : (to : ℤ) → Progress (move_slot_watermark env to)
  move_slot_watermark-Progress to = Progress-of_stays _ (λ e. move_slot_watermark-StaysIn env e to)

  emit_heights-StaysIn : (e : ℤ) (info : EpochInfo) → StaysIn e (emit_heights env info)
  unfolding emit_heights
  emit_heights-StaysIn e info = search addition_rules

  module _ (info : EpochInfo) (number : IsEpochNumber info.epoch) where
    closing-From :
        (e : ℤ)
        → ProgressFrom e (if ltb_ℤ e info.epoch then close_current_epoch env info else pure tt)
    closing-From e = elim (Bool-cases (ltb_ℤ e info.epoch)) [
      | inl over ↦
          let next : e +ℤ pos 1 ≤ℤ info.epoch = grind int_laws in
          rw over (close_current_epoch-From env e info number next)
      | inr current ↦ rw current (From-of_Progress e _ (pure-Progress tt))
    ]

    advance_to-Progress : Progress (advance_to env info)
    unfolding advance_to
    advance_to-Progress = Progress-read _ λ w.
        From-then w.current_epoch _ _ (closing-From w.current_epoch)
          (move_slot_watermark-Progress info.absolute_slot)

    advance-Progress : Progress (advance env info)
    unfolding advance
    advance-Progress = Progress-read _ λ w.
        From-of_Progress w.current_epoch _ (Holds-if _ _ _ (pure-Progress tt) advance_to-Progress)

    tracking-From :
        (e : ℤ) → ProgressFrom e (if int_eqb e (pos 0) then track_epoch env info else pure tt)
    tracking-From e = elim (Bool-cases (int_eqb e (pos 0))) [
      | inl none_yet ↦
          let (fits, le) = number in
          rw none_yet
            (From-of_Tracking info.epoch e _ number (ground arith) (track_epoch-Tracking env info))
      | inr watching ↦ rw watching (From-of_Progress e _ (pure-Progress tt))
    ]

    watch_epoch-Progress : Progress (watch_epoch env info)
    unfolding watch_epoch
    watch_epoch-Progress = Progress-read _ λ w.
        From-then w.current_epoch _ _ (tracking-From w.current_epoch) (
          Progress-then _ _ (Progress-of_stays _ (λ e. emit_heights-StaysIn e info))
            advance-Progress)

  watch_answer-Progress :
      (answer : Result EpochInfo)
      → ((info : EpochInfo) → answer ≡ ok info → IsEpochNumber info.epoch)
      → Progress (watch_answer env answer)
  unfolding watch_answer
  watch_answer-Progress (err e) h = pure-Progress tt
  watch_answer-Progress (ok info) h = watch_epoch-Progress info (h info refl)

  module _ (reporting : IsReporting env) where
    watch_round-Progress : Progress (watch_round env)
    unfolding watch_round ask ◌>>=◌
    watch_round-Progress = record {
      at = λ s.
          let answer = env.client.get_epoch_info finalized s.world in
          (watch_answer-Progress answer.0 (λ info e. reporting.numbers s.world info e)).at
            (record s { world = answer.1 });
    }

    watch_rounds-Progress : (rounds : ℕ) → Progress (watch_rounds env rounds)
    unfolding watch_rounds
    watch_rounds-Progress zero = pure-Progress tt
    watch_rounds-Progress (suc rounds) =
        Progress-then _ _ watch_round-Progress (watch_rounds-Progress rounds)

after_cleaning :
    {F : Type 0} (e : ℤ) (xs ys : List (Call F))
    → IsOrdered (xs ++ go_clean_epoch e ∷ ys)
    → All (IsFrom (e +ℤ pos 1)) ys
after_cleaning e [] ys (h, hs) = h e refl
after_cleaning e (x ∷ xs) ys (h, hs) = after_cleaning e xs ys hs

module _ {W F : Type 0} (env : Env W F) (reporting : IsReporting env) where
  new_ticker-Progress : Progress (new_ticker env)
  unfolding new_ticker
  new_ticker-Progress =
      Holds-if _ _ _ (pure-Progress env tt) (Holds-stop Progress-logic Progress-may_stop panic)

  watch_slots-Progress : (rounds : ℕ) → Progress (watch_slots env rounds)
  unfolding watch_slots
  watch_slots-Progress rounds =
      Progress-then _ _ new_ticker-Progress (watch_rounds-Progress env reporting rounds)

  watch_slots-InOrder :
      (rounds : ℕ) (s : System W)
      → IsEpochNumber s.watcher.current_epoch
      → InOrder s.watcher.current_epoch (watch_slots env rounds s).events
  watch_slots-InOrder rounds s number =
      let run = watch_slots env rounds s in
      Post-either ProgressesSoFar s run.state run.events run.result
        ((Holds-map {R = ProgressesSoFar} {X = ProgressesSoFar} (watch_slots env rounds)
            (λ s t es f h. (f h).0) (λ s t es f. f) (watch_slots-Progress rounds)).at
          s)
        number

  -- On a node whose answers to `getEpochInfo` have nonnegative 64-bit epochs, over any number of rounds
  -- of `WatchSlots` from a watcher whose epoch is such a number, and whether they return or stop: once
  -- the cleaning of an epoch was started, no later call adds to a series of this epoch, and none starts
  -- its cleaning again.
  pub watch_slots-cleaned_last :
      (rounds : ℕ) (s : System W)
      → IsEpochNumber s.watcher.current_epoch
      → (e : ℤ) (xs ys : List (Call F)) → IsInt64 e
      → (watch_slots env rounds s).events ≡ xs ++ go_clean_epoch e ∷ ys
      → (c : Call F) → In c ys
      → ¬ Concerns e c
  watch_slots-cleaned_last rounds s number e xs ys fits split c found concerns =
      let ordered = rw split at (watch_slots-InOrder rounds s number).1 in
      let next = +ℤ_parts e (pos 1) in
      let later =
        All-In (IsFrom (e +ℤ pos 1)) ys c (after_cleaning e xs ys ordered) found e fits concerns in
      omega arith
