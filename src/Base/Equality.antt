-- ===== src/Base/Equality.antt =====
-- Decidable equality as an interface: the key types of the program's maps and sets.
use mathlib.Core.Path.{◌≡◌, sym}
use mathlib.Core.Logic.{◌⊎◌, inl, inr}
use mathlib.Core.Bool.{Bool, true, false, ◌||◌}
use mathlib.Core.List.{List, [], ◌∷◌}
use native.Mathlib.Omega.{arith}
use solana_exporter.Base.Tests.{Bool-cases}
use solana_exporter.Base.Lists.{In}

-- `same` decides equality.
pub record Eq {ℓ} (T : Type ℓ) : Type ℓ where
  pub same : T → T → Bool
  pub same_sound : (x y : T) → same x y ≡ true → x ≡ y
  pub same_self : (x : T) → same x x ≡ true

infix 50 ◌==◌
abbrev pub ◌==◌ {ℓ} : {T : Type ℓ} ⦃eq : Eq T⦄ → T → T → Bool
◌==◌ ⦃eq⦄ x y = eq.same x y

module _ {ℓ} {T : Type ℓ} ⦃eq : Eq T⦄ where
  pub ==-refl : (x : T) → (x == x) ≡ true
  ==-refl x = eq.same_self x

  pub ==-eq : (x y : T) → (x == y) ≡ true → x ≡ y
  ==-eq x y = eq.same_sound x y

  pub ==-of_eq : (x y : T) → x ≡ y → (x == y) ≡ true
  ==-of_eq x y p = rw p (eq.same_self y)

  -- Two cases for a test of equality, the equation kept.
  pub ==-cases : (x y : T) → ((x == y) ≡ true) × (x ≡ y) ⊎ ((x == y) ≡ false) × ¬ (x ≡ y)
  ==-cases x y = elim (Bool-cases (x == y)) [
    | inl h ↦ inl (h, ==-eq x y h)
    | inr h ↦ inr (h, λ p. cc (h, ==-of_eq x y p))
  ]

  -- `slices.Contains`
  abbrev pub contains : List T → T → Bool
  contains [] item = false
  contains (first ∷ items) item = first == item || contains items item

  pub contains-In : (items : List T) (item : T) → contains items item ≡ true → In item items
  contains-In [] item h = absurd (cc)
  contains-In (first ∷ items) item h = elim (==-cases first item) [
    | inl (t, p) ↦ inl (sym p)
    | inr (t, p) ↦ inr (contains-In items item (ground arith))
  ]

  pub In-contains : (items : List T) (item : T) → In item items → contains items item ≡ true
  In-contains [] item h = absurd (h tt)
  In-contains (first ∷ items) item (inl p) = ground (arith, ==-of_eq first item (sym p))
  In-contains (first ∷ items) item (inr h) = ground (arith, In-contains items item h)
