-- ===== src/Slots/Order.antt =====
-- The order of what `WatchSlots` does to the epochs: which calls concern an epoch, and lists of
-- calls in which nothing concerns an epoch after its cleaning was started.
pub mod Rules
pub mod Epochs
pub mod Rounds
use solana_exporter.Base.{
  arith, ℤ, pos, ◌+ℤ◌, ◌≤ℤ◌, IsInt64, format_int, All, All-append, List, [], ◌∷◌, ◌++◌, some, none,
  ◌≡◌, sym, ◌∙◌, some_injective, format_int_injective, ◌⊎◌, inl, inr,
}
use solana_exporter.Slots.State.{Call}
use solana_exporter.Slots.Series.Labels.{added_epoch, cleaned_epoch, AddsTo}

-- The number of an epoch, or 0 when none is watched.
abbrev pub IsEpochNumber : ℤ → Type 0
IsEpochNumber e = IsInt64 e × (pos 0 ≤ℤ e)

module _ {F : Type 0} where
  -- A call adds to a series of the epoch, or starts its cleaning.
  abbrev pub Concerns : ℤ → Call F → Type 0
  Concerns e c = (added_epoch c ≡ some (format_int e)) ⊎ (cleaned_epoch c ≡ some e)

  -- The epochs that a call concerns are not before `k`.
  abbrev pub IsFrom : ℤ → Call F → Type 0
  IsFrom k c = (e : ℤ) → IsInt64 e → Concerns e c → k ≤ℤ e

  -- The cleanings that a call starts are of epochs before `k`.
  abbrev pub IsBefore : ℤ → Call F → Type 0
  IsBefore k c = (e : ℤ) → cleaned_epoch c ≡ some e → e +ℤ pos 1 ≤ℤ k

  -- After the cleaning of an epoch was started, calls concern later epochs only.
  abbrev pub IsOrdered : List (Call F) → Type 0
  IsOrdered [] = Unit
  IsOrdered (c ∷ cs) =
      ((e : ℤ) → cleaned_epoch c ≡ some e → All (IsFrom (e +ℤ pos 1)) cs) × IsOrdered cs

  pub IsFrom-mono : (j k : ℤ) (cs : List (Call F)) → j ≤ℤ k → All (IsFrom k) cs → All (IsFrom j) cs
  IsFrom-mono j k [] le h = tt
  IsFrom-mono j k (c ∷ cs) le (h, hs) =
      ((λ e fits concerns. let p = h e fits concerns in omega arith), IsFrom-mono j k cs le hs)

  pub IsBefore-mono :
      (j k : ℤ) (cs : List (Call F)) → j ≤ℤ k → All (IsBefore j) cs → All (IsBefore k) cs
  IsBefore-mono j k [] le h = tt
  IsBefore-mono j k (c ∷ cs) le (h, hs) =
      ((λ e cleaned. let p = h e cleaned in omega arith), IsBefore-mono j k cs le hs)

  pub IsOrdered-append :
      (k : ℤ) (cs ds : List (Call F))
      → All (IsBefore k) cs
      → IsOrdered cs
      → All (IsFrom k) ds
      → IsOrdered ds
      → IsOrdered (cs ++ ds)
  IsOrdered-append k [] ds before h from i = i
  IsOrdered-append k (c ∷ cs) ds (first, before) (h, hs) from i = (
    (λ e cleaned.
        All-append (IsFrom (e +ℤ pos 1)) cs ds (h e cleaned)
          (IsFrom-mono (e +ℤ pos 1) k ds (first e cleaned) from)),
    IsOrdered-append k cs ds before hs from i,
  )

  addition_lem :
      (k e : ℤ) (c : Call F)
      → IsInt64 k
      → IsInt64 e
      → cleaned_epoch c ≡ none
      → (added_epoch c ≡ none) ⊎ (added_epoch c ≡ some (format_int k))
      → Concerns e c
      → k ≤ℤ e
  addition_lem k e c fits e_fits none_cleaned added (inr cleaned) = absurd cc
  addition_lem k e c fits e_fits none_cleaned (inl other) (inl labelled) = absurd cc
  addition_lem k e c fits e_fits none_cleaned (inr added) (inl labelled) =
      let same = format_int_injective k e fits e_fits (some_injective (sym added ∙ labelled)) in
      rw same (omega arith)

  -- Calls that add to the series of the epoch `k` only.
  pub additions-IsFrom :
      (k : ℤ) (cs : List (Call F)) → IsInt64 k → All (AddsTo k) cs → All (IsFrom k) cs
  additions-IsFrom k [] fits h = tt
  additions-IsFrom k (c ∷ cs) fits ((none_cleaned, added), hs) = (
    (λ e e_fits concerns. addition_lem k e c fits e_fits none_cleaned added concerns),
    additions-IsFrom k cs fits hs,
  )

  pub additions-IsBefore : (j k : ℤ) (cs : List (Call F)) → All (AddsTo k) cs → All (IsBefore j) cs
  additions-IsBefore j k [] h = tt
  additions-IsBefore j k (c ∷ cs) ((none_cleaned, added), hs) =
      ((λ e cleaned. absurd cc), additions-IsBefore j k cs hs)

  pub additions-IsOrdered : (k : ℤ) (cs : List (Call F)) → All (AddsTo k) cs → IsOrdered cs
  additions-IsOrdered k [] h = tt
  additions-IsOrdered k (c ∷ cs) ((none_cleaned, added), hs) =
      ((λ e cleaned. absurd cc), additions-IsOrdered k cs hs)
