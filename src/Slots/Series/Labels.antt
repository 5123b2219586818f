-- ===== src/Slots/Series/Labels.antt =====
-- Which epoch the series of a counter is of, and runs whose calls are all of one epoch.
use solana_exporter.Base.{
  Float64, ℤ, Text, format_int, Bool, All, All-append, List, [], ◌∷◌, ◌++◌, Option, none, some, ◌≡◌,
  refl, ◌∙◌, ◌⊎◌, inl, inr, if◌then◌else◌, true, false,
}
use solana_exporter.Exec.{emit, gets, ◌>>=◌}
use solana_exporter.Exec.Logic.{Logic, MayStop, Given, Post-assuming, Holds, run_rules}
use solana_exporter.Slots.State.{
  Counter, leader_slots_by_epoch, cluster_slots_by_epoch, inflation_rewards, fee_rewards, Call,
  add_counter, delete_counter, go_clean_epoch, Watcher, System, Action, ask, update, add_to_counter,
}

-- The value of the label `epoch`.
abbrev pub epoch_label : Counter → List Text → Option Text
epoch_label leader_slots_by_epoch (address ∷ epoch ∷ rest) = some epoch
epoch_label cluster_slots_by_epoch (epoch ∷ rest) = some epoch
epoch_label inflation_rewards (address ∷ epoch ∷ rest) = some epoch
epoch_label fee_rewards (address ∷ epoch ∷ rest) = some epoch
epoch_label _ _ = none

abbrev pub added_epoch : {F : Type 0} → Call F → Option Text
added_epoch (add_counter counter labels x) = epoch_label counter labels
added_epoch _ = none

abbrev pub deleted_epoch : {F : Type 0} → Call F → Option Text
deleted_epoch (delete_counter counter labels) = epoch_label counter labels
deleted_epoch _ = none

-- The epoch of which a call starts the cleaning.
abbrev pub cleaned_epoch : {F : Type 0} → Call F → Option ℤ
cleaned_epoch (go_clean_epoch epoch) = some epoch
cleaned_epoch _ = none

-- A call starts no cleaning, and adds to no series of an epoch or to one of the epoch `e`.
abbrev pub AddsTo : {F : Type 0} → ℤ → Call F → Type 0
AddsTo e c =
    (cleaned_epoch c ≡ none) × ((added_epoch c ≡ none) ⊎ (added_epoch c ≡ some (format_int e)))

-- A call deletes a series of the epoch `e`.
abbrev pub DeletesOf : {F : Type 0} → ℤ → Call F → Type 0
DeletesOf e c = deleted_epoch c ≡ some (format_int e)

-- The epoch is watched.
abbrev pub IsOn : {W : Type 0} → ℤ → System W → Type 0
IsOn e s = s.watcher.current_epoch ≡ e

module _ {W F : Type 0} (e : ℤ) where
  abbrev AddsAndStays : System W → List (Call F) → System W → Type 0
  AddsAndStays s es t = All (AddsTo e) es × IsOn e t

  abbrev pub Adds : System W → List (Call F) → System W → Type 0
  Adds s es t = All (AddsTo e) es

  -- A run that begins in the epoch stays in it, and adds to its series only.
  abbrev pub Within : System W → List (Call F) → System W → Type 0
  Within = Given (IsOn e) AddsAndStays

  abbrev pub WithinSoFar : System W → List (Call F) → System W → Type 0
  WithinSoFar = Given (IsOn e) Adds

  pub Within-logic : Logic Within WithinSoFar
  Within-logic = record {
    here = λ s p. (tt, p);
    then_return =
        λ s t u es fs f g p. (All-append (AddsTo e) es fs (f p).0 (g (f p).1).0, (g (f p).1).1);
    then_stop = λ s t u es fs f g p. All-append (AddsTo e) es fs (f p).0 (g (f p).1);
  }

  pub Within-may_stop : MayStop WithinSoFar
  Within-may_stop = record { halt = λ s p. tt }

  abbrev pub StaysIn : {A : Type 0} → Action W F A → Type 0
  StaysIn m = Holds Within WithinSoFar m

  pub emit_other-StaysIn :
      (c : Call F) → cleaned_epoch c ≡ none → added_epoch c ≡ none → StaysIn (emit c)
  unfolding ◌>>=◌
  emit_other-StaysIn c k h = record { at = λ s p. (((k, inl h), tt), p) }

  pub emit_added-StaysIn :
      (c : Call F) → cleaned_epoch c ≡ none → added_epoch c ≡ some (format_int e) → StaysIn (emit c)
  unfolding ◌>>=◌
  emit_added-StaysIn c k h = record { at = λ s p. (((k, inr h), tt), p) }

  pub ask-StaysIn : {A : Type 0} (call : W → A × W) → StaysIn (ask call)
  unfolding ask
  ask-StaysIn call = record { at = λ s p. (tt, p) }

  pub update-StaysIn :
      (f : Watcher → Watcher)
      → ((w : Watcher) → (f w).current_epoch ≡ w.current_epoch)
      → StaysIn (update f)
  unfolding update
  update-StaysIn f h = record { at = λ s p. (tt, h s.watcher ∙ p) }

  pub read-StaysIn :
      {A : Type 0} (k : Watcher → Action W F A)
      → ((w : Watcher) → w.current_epoch ≡ e → StaysIn (k w))
      → StaysIn (gets (λ s. s.watcher) >>= k)
  unfolding ◌>>=◌
  read-StaysIn k h = record {
    at = λ s. Post-assuming (IsOn e) AddsAndStays Adds s _ _ _ (λ p. (h s.watcher p).at s);
  }

pub ruleset within_rules = (
  run_rules, Within-logic, Within-may_stop, emit_other-StaysIn, emit_added-StaysIn, ask-StaysIn,
  update-StaysIn, refl,
)

module _ {W F : Type 0} (e : ℤ) where
  pub add_to_counter-StaysIn :
      (float : Float64 F) (counter : Counter) (labels : List Text) (x : F)
      → epoch_label counter labels ≡ some (format_int e)
      → StaysIn e (add_to_counter {W = W} float counter labels x)
  unfolding add_to_counter
  add_to_counter-StaysIn float counter labels x h = search (within_rules, h)

  pub add_to_total-StaysIn :
      (float : Float64 F) (counter : Counter) (labels : List Text) (x : F)
      → epoch_label counter labels ≡ none
      → StaysIn e (add_to_counter {W = W} float counter labels x)
  unfolding add_to_counter
  add_to_total-StaysIn float counter labels x h = search (within_rules, h)

pub ruleset addition_rules = (within_rules, add_to_counter-StaysIn, add_to_total-StaysIn)
