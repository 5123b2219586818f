-- ===== src/Slots/Order/Rules.antt =====
-- A logic of runs that never go back: the epoch watched does not fall, and no call concerns an epoch
-- whose cleaning was started.
use solana_exporter.Base.{ℤ, ◌≤ℤ◌, arith, All, All-append, List, ◌++◌, refl, sym, ◌∙◌, ◌≡◌}
use solana_exporter.Exec.{gets, ◌>>=◌, ◌>>◌}
use solana_exporter.Exec.Logic.{
  Logic, MayStop, Given, Post-at, Post-assuming, Holds, Holds-map, Holds-bind, Holds-compose,
}
use solana_exporter.Slots.State.{Call, Watcher, System, Action}
use solana_exporter.Slots.Series.Labels.{AddsTo, IsOn, Within, StaysIn}
use solana_exporter.Slots.Order.{
  IsEpochNumber, IsFrom, IsBefore, IsOrdered, IsFrom-mono, IsBefore-mono, IsOrdered-append,
  additions-IsFrom, additions-IsBefore, additions-IsOrdered,
}

module _ {F : Type 0} where
  abbrev pub InOrder : ℤ → List (Call F) → Type 0
  InOrder k es = All (IsFrom k) es × IsOrdered es

  pub InOrder-of_eq : (j k : ℤ) (es : List (Call F)) → j ≡ k → InOrder k es → InOrder j es
  InOrder-of_eq j k es h p = rw h p

  InOrder-then :
      (j k : ℤ) (es fs : List (Call F))
      → j ≤ℤ k
      → InOrder j es
      → All (IsBefore k) es
      → InOrder k fs
      → InOrder j (es ++ fs)
  InOrder-then j k es fs le (from, ordered) before (later, then_ordered) = (
    All-append (IsFrom j) es fs from (IsFrom-mono j k fs le later),
    IsOrdered-append k es fs before ordered later then_ordered,
  )

module _ {W F : Type 0} where
  abbrev pub Progresses : System W → List (Call F) → System W → Type 0
  Progresses s es t =
      IsEpochNumber s.watcher.current_epoch
      → InOrder s.watcher.current_epoch es
        × IsEpochNumber t.watcher.current_epoch
        × (s.watcher.current_epoch ≤ℤ t.watcher.current_epoch)
        × All (IsBefore t.watcher.current_epoch) es

  abbrev pub ProgressesSoFar : System W → List (Call F) → System W → Type 0
  ProgressesSoFar s es t =
      IsEpochNumber s.watcher.current_epoch → InOrder s.watcher.current_epoch es

  Progresses-then :
      (s t u : System W) (es fs : List (Call F))
      → Progresses s es t
      → Progresses t fs u
      → Progresses s (es ++ fs) u
  Progresses-then s t u es fs f g number =
      let (first, at_t, le, before) = f number in
      let (second, at_u, then_le, then_before) = g at_t in
      let k = u.watcher.current_epoch in
      (
        InOrder-then s.watcher.current_epoch t.watcher.current_epoch es fs le first before second,
        at_u,
        omega arith,
        All-append (IsBefore k) es fs (IsBefore-mono t.watcher.current_epoch k es then_le before)
            then_before,
      )

  pub Progress-logic : Logic Progresses ProgressesSoFar
  Progress-logic = record {
    here = λ s number. ((tt, tt), number, omega arith, tt);
    then_return = Progresses-then;
    then_stop = λ s t u es fs f g number.
        let (first, at_t, le, before) = f number in
        InOrder-then s.watcher.current_epoch t.watcher.current_epoch es fs le first before (g at_t);
  }

  pub Progress-may_stop : MayStop ProgressesSoFar
  Progress-may_stop = record { halt = λ s number. (tt, tt) }

  abbrev pub Progress : {A : Type 0} → Action W F A → Type 0
  Progress m = Holds Progresses ProgressesSoFar m

  abbrev pub ProgressFrom : {A : Type 0} → ℤ → Action W F A → Type 0
  ProgressFrom e m = Holds (Given (IsOn e) Progresses) (Given (IsOn e) ProgressesSoFar) m

  pub Progress-then :
      {A B : Type 0} (m : Action W F A) (k : Action W F B)
      → Progress m
      → Progress k
      → Progress (m >> k)
  Progress-then m k p q = Holds-bind Progress-logic m (λ _. k) p (λ _. q)

  pub From-then :
      {A B : Type 0} (e : ℤ) (m : Action W F A) (k : Action W F B)
      → ProgressFrom e m
      → Progress k
      → ProgressFrom e (m >> k)
  From-then e m k p q =
      Holds-compose m (λ _. k) (λ s t u es fs f g here. Progresses-then s t u es fs (f here) g)
        (λ s t u es fs f g here. Progress-logic.then_stop s t u es fs (f here) g) (λ s t es f. f) p
        (λ _. q)

  pub Progress-read :
      {A : Type 0} (k : Watcher → Action W F A)
      → ((w : Watcher) → ProgressFrom w.current_epoch (k w))
      → Progress (gets (λ s. s.watcher) >>= k)
  unfolding ◌>>=◌
  Progress-read k h = record {
    at = λ s.
        Post-at (IsOn s.watcher.current_epoch) Progresses ProgressesSoFar s _ _ _
          ((h s.watcher).at s) refl;
  }

  pub From-read :
      {A : Type 0} (e : ℤ) (k : Watcher → Action W F A)
      → ((w : Watcher) → w.current_epoch ≡ e → ProgressFrom e (k w))
      → ProgressFrom e (gets (λ s. s.watcher) >>= k)
  unfolding ◌>>=◌
  From-read e k h = record {
    at = λ s.
        Post-assuming (IsOn e) Progresses ProgressesSoFar s _ _ _ (λ here. (h s.watcher here).at s);
  }

  pub From-of_Progress : {A : Type 0} (e : ℤ) (m : Action W F A) → Progress m → ProgressFrom e m
  From-of_Progress e m = Holds-map m (λ s t es f here. f) (λ s t es f here. f)

  -- Calls that add to series of the epoch watched only.
  additions_lem :
      (e : ℤ) (s t : System W) (es : List (Call F))
      → IsOn e s
      → All (AddsTo e) es
      → ProgressesSoFar s es t
  additions_lem e s t es here added number =
      rw here (additions-IsFrom e es (rw here at number.0) added, additions-IsOrdered e es added)

  stays_lem :
      (e : ℤ) (s t : System W) (es : List (Call F)) → Within e s es t → IsOn e s → Progresses s es t
  stays_lem e s t es stays here number =
      let (added, still) = stays here in
      (
        additions_lem e s t es here added number,
        rw (still ∙ sym here) number,
        rw (still ∙ sym here) (omega arith),
        additions-IsBefore t.watcher.current_epoch e es added,
      )

  pub From-of_stays : {A : Type 0} (e : ℤ) (m : Action W F A) → StaysIn e m → ProgressFrom e m
  From-of_stays e m =
      Holds-map m (stays_lem e) (λ s t es f here. additions_lem e s t es here (f here))

  pub Progress-of_stays : {A : Type 0} (m : Action W F A) → ((e : ℤ) → StaysIn e m) → Progress m
  Progress-of_stays m h = record {
    at = λ s.
        Post-at (IsOn s.watcher.current_epoch) Progresses ProgressesSoFar s _ _ _
          ((From-of_stays s.watcher.current_epoch m (h s.watcher.current_epoch)).at s) refl;
  }

  pub From-stays_then :
      {A B : Type 0} (e : ℤ) (m : Action W F A) (k : Action W F B)
      → StaysIn e m
      → ProgressFrom e k
      → ProgressFrom e (m >> k)
  From-stays_then e m k p q =
      Holds-compose m (λ _. k)
        (λ s t u es fs f g here.
          Progresses-then s t u es fs (stays_lem e s t es f here) (g (f here).1))
        (λ s t u es fs f g here.
          Progress-logic.then_stop s t u es fs (stays_lem e s t es f here) (g (f here).1))
        (λ s t es f here. additions_lem e s t es here (f here)) p (λ _. q)
