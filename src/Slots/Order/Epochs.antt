-- ===== src/Slots/Order/Epochs.antt =====
-- The beginning of an epoch, `trackEpoch`, and its end, `closeCurrentEpoch`, with the
-- cleaning that it starts.
use solana_exporter.Base.{
  ℤ, pos, ◌+ℤ◌, ◌≤ℤ◌, +ℤ_parts, Bool, true, false, All, All-append, List, [], ◌∷◌, ◌≡◌, refl, sym,
  arith, inl, inr, some_injective, if◌then◌else◌,
}
use solana_exporter.Exec.{emit, gets, assertf, ◌>>=◌, ◌>>◌}
use solana_exporter.Exec.Logic.{Holds, Holds-compose, Holds-map, Holds-bind}
use solana_exporter.Rpc.Types.{EpochInfo}
use solana_exporter.Slots.State.{Call, go_clean_epoch, Watcher, System, Env, Action, update}
use solana_exporter.Slots.Watching.{
  start_tracking, follow_epoch, emit_epoch_bounds, update_leader_schedule, track_epoch,
  close_current_epoch,
}
use solana_exporter.Slots.Series.Labels.{AddsTo, IsOn, StaysIn, Within-logic, addition_rules}
use solana_exporter.Slots.Series.Additions.{move_slot_watermark-StaysIn, close_rewards-StaysIn}
use solana_exporter.Slots.Order.{
  IsEpochNumber, Concerns, additions-IsFrom, additions-IsBefore, additions-IsOrdered, IsFrom-mono,
}
use solana_exporter.Slots.Order.Rules.{
  InOrder, InOrder-of_eq, ProgressFrom, From-read, From-stays_then,
}

cleaning_lem : (F : Type 0) (e d : ℤ) → Concerns {F = F} d (go_clean_epoch e) → e ≤ℤ d
cleaning_lem F e d (inl labelled) = absurd cc
cleaning_lem F e d (inr cleaned) = rw (some_injective cleaned) (omega arith)

module _ {F : Type 0} (k : ℤ) where
  closing_lem :
      (e : ℤ) (es : List (Call F))
      → IsEpochNumber k
      → e +ℤ pos 1 ≤ℤ k
      → All (AddsTo k) es
      → InOrder e (go_clean_epoch e ∷ es)
  closing_lem e es number next added =
      let later = +ℤ_parts e (pos 1) in
      let from = additions-IsFrom k es number.0 added in
      (
        ((λ d fits concerns. cleaning_lem F e d concerns), IsFrom-mono e k es (omega arith) from),
        (
          (λ d cleaned.
              rw (sym (some_injective cleaned)) (IsFrom-mono (e +ℤ pos 1) k es next from)),
          additions-IsOrdered k es added,
        ),
      )

emit_cleaning :
    {W F : Type 0} (e : ℤ)
    → Holds {S = System W} {E = Call F}
        (λ s es t. es ≡ go_clean_epoch e ∷ [])
        (λ s es t. es ≡ go_clean_epoch e ∷ [])
        (emit (go_clean_epoch e))
unfolding ◌>>=◌
emit_cleaning e = record { at = λ s. refl }

module _ {W F : Type 0} (k : ℤ) where
  -- Runs that make `k` the epoch watched, and add to its series only.
  abbrev pub Tracks : System W → List (Call F) → System W → Type 0
  Tracks s es t = All (AddsTo k) es × IsOn k t

  abbrev pub TracksSoFar : System W → List (Call F) → System W → Type 0
  TracksSoFar s es t = All (AddsTo k) es

  abbrev pub Tracking : {A : Type 0} → Action W F A → Type 0
  Tracking m = Holds Tracks TracksSoFar m

  Tracking-update :
      (f : Watcher → Watcher) → ((w : Watcher) → (f w).current_epoch ≡ k) → Tracking (update f)
  unfolding update
  Tracking-update f h = record { at = λ s. (tt, h s.watcher) }

  Tracking-read :
      {A : Type 0} (m : Watcher → Action W F A)
      → ((w : Watcher) → Tracking (m w))
      → Tracking (gets (λ s. s.watcher) >>= m)
  unfolding ◌>>=◌
  Tracking-read m h = record { at = λ s. (h s.watcher).at s }

  Tracking-assertf :
      {A : Type 0} (c : Bool) (m : Action W F A) → Tracking m → Tracking (assertf c >> m)
  unfolding ◌>>=◌
  Tracking-assertf true m h = record { at = λ s. h.at s }
  Tracking-assertf false m h = record { at = λ s. tt }

  Tracking-if :
      {A : Type 0} (c : Bool) (m n : Action W F A)
      → Tracking m
      → Tracking n
      → Tracking (if c then m else n)
  Tracking-if true m n p q = p
  Tracking-if false m n p q = q

  Tracking-then :
      {A B : Type 0} (m : Action W F A) (n : Action W F B)
      → Tracking m
      → StaysIn k n
      → Tracking (m >> n)
  Tracking-then m n p q =
      Holds-compose m (λ _. n)
        (λ s t u es fs f g. (All-append (AddsTo k) es fs f.0 (g f.1).0, (g f.1).1))
        (λ s t u es fs f g. All-append (AddsTo k) es fs f.0 (g f.1)) (λ s t es f. f) p (λ _. q)

  tracked_lem :
      (e : ℤ) (s : System W) (es : List (Call F))
      → IsEpochNumber k
      → e ≤ℤ k
      → IsOn e s
      → All (AddsTo k) es
      → InOrder s.watcher.current_epoch es
  tracked_lem e s es number le here added =
      rw here (
        IsFrom-mono e k es le (additions-IsFrom k es number.0 added),
        additions-IsOrdered k es added,
      )

  -- An epoch that is tracked is not before the one that was watched.
  pub From-of_Tracking :
      {A : Type 0} (e : ℤ) (m : Action W F A)
      → IsEpochNumber k
      → e ≤ℤ k
      → Tracking m
      → ProgressFrom e m
  From-of_Tracking e m number le =
      Holds-map m
        (λ s t es f here old. (
          tracked_lem e s es number le here f.0,
          rw f.1 number,
          rw (f.1, here) le,
          additions-IsBefore t.watcher.current_epoch k es f.0,
        ))
        (λ s t es f here old. tracked_lem e s es number le here f)

  -- The epoch that was watched is before the one that is tracked: after its cleaning is started, nothing
  -- concerns it.
  closed_lem :
      (e : ℤ) (s : System W) (es : List (Call F))
      → IsEpochNumber k
      → e +ℤ pos 1 ≤ℤ k
      → IsOn e s
      → All (AddsTo k) es
      → InOrder s.watcher.current_epoch (go_clean_epoch e ∷ es)
  closed_lem e s es number next here added =
      InOrder-of_eq s.watcher.current_epoch e (go_clean_epoch e ∷ es) here
        (closing_lem k e es number next added)

  pub From-close :
      {A : Type 0} (e : ℤ) (m : Action W F A)
      → IsEpochNumber k
      → e +ℤ pos 1 ≤ℤ k
      → Tracking m
      → ProgressFrom e (emit (go_clean_epoch e) >> m)
  From-close e m number next tracking =
      Holds-compose {R₁ = λ s es t. es ≡ go_clean_epoch e ∷ []}
        {X₁ = λ s es t. es ≡ go_clean_epoch e ∷ []} (emit (go_clean_epoch e)) (λ _. m)
        (λ s t u es fs f g here old. rw f (
          closed_lem e s fs number next here g.0,
          rw g.1 number,
          rw (g.1, here) (let later = +ℤ_parts e (pos 1) in omega arith),
          (
            (λ d cleaned. rw (g.1, sym (some_injective cleaned)) next),
            additions-IsBefore u.watcher.current_epoch k fs g.0,
          ),
        ))
        (λ s t u es fs f g here old. rw f (closed_lem e s fs number next here g))
        (λ s t es f here old. rw f (closed_lem e s [] number next here tt)) (emit_cleaning e)
        (λ _. tracking)

module _ {W F : Type 0} (env : Env W F) where
  follow_epoch-Tracking : (info : EpochInfo) → Tracking info.epoch (follow_epoch env info)
  unfolding follow_epoch
  follow_epoch-Tracking info = Tracking-read info.epoch _ λ w. Tracking-assertf info.epoch _ _ (
      Tracking-assertf info.epoch _ _
        (Tracking-assertf info.epoch _ _ (Tracking-update info.epoch _ (λ v. refl))))

  emit_epoch_bounds-StaysIn : (k : ℤ) → StaysIn k (emit_epoch_bounds env)
  unfolding emit_epoch_bounds
  emit_epoch_bounds-StaysIn k = search addition_rules

  update_leader_schedule-StaysIn :
      (k : ℤ) (info : EpochInfo) → StaysIn k (update_leader_schedule env info)
  unfolding update_leader_schedule
  update_leader_schedule-StaysIn k info = search addition_rules depth 12

  pub track_epoch-Tracking : (info : EpochInfo) → Tracking info.epoch (track_epoch env info)
  unfolding track_epoch start_tracking
  track_epoch-Tracking info =
      let k = info.epoch in
      let stays =
        Holds-bind (Within-logic k) _ _ (emit_epoch_bounds-StaysIn k)
          (λ _. update_leader_schedule-StaysIn k info) in
      Tracking-read k _ λ w.
        Tracking-then k _ _
          (Tracking-if k _ _ _ (Tracking-update k _ (λ v. refl)) (follow_epoch-Tracking info)) stays

  -- The epoch `e` is closed for a later one.
  pub close_current_epoch-From :
      (e : ℤ) (info : EpochInfo)
      → IsEpochNumber info.epoch
      → e +ℤ pos 1 ≤ℤ info.epoch
      → ProgressFrom e (close_current_epoch env info)
  unfolding close_current_epoch
  close_current_epoch-From e info number next = From-read e _ λ w here. rw here (
      From-stays_then e _ _ (close_rewards-StaysIn env e) (
        From-stays_then e _ _ (move_slot_watermark-StaysIn env e w.last_slot)
          (From-close info.epoch e _ number next (track_epoch-Tracking info))))
