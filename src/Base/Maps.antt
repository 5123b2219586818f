-- ===== src/Base/Maps.antt =====
-- Go maps as association lists: the order of the entries is the order of one `range` over the map.
use mathlib.Core.Path.{◌≡◌, refl, sym}
use mathlib.Core.List.{List, [], ◌∷◌, map}
use mathlib.Core.Logic.{inl, inr, ◌≢◌}
use mathlib.Core.Option.{Option, none, some}
use native.Mathlib.Omega.{arith}
use solana_exporter.Base.Tests.{if◌then◌else◌}
use solana_exporter.Base.Lists.{In}
use solana_exporter.Base.Equality.{Eq, ◌==◌, ==-cases, ==-refl, ==-of_eq}

abbrev pub Map {ℓ κ} : Type ℓ → Type κ → Type (ℓ ⊔ κ)
Map K V = List (K × V)

module _ {ℓ κ} {K : Type ℓ} {V : Type κ} ⦃e : Eq K⦄ where
  -- `v, ok := entries[key]`
  abbrev pub lookup : K → Map K V → Option V
  lookup key [] = none
  lookup key ((found, value) ∷ entries) =
      let later = lookup key entries in if found == key then some value else later

  -- `entries[key] = value`
  abbrev pub insert : K → V → Map K V → Map K V
  insert key value [] = (key, value) ∷ []
  insert key value ((found, old) ∷ entries) =
      let later = insert key value entries in
      if found == key then (key, value) ∷ entries else (found, old) ∷ later

  -- `delete(entries, key)`
  abbrev pub erase : K → Map K V → Map K V
  erase key [] = []
  erase key ((found, value) ∷ entries) =
      let later = erase key entries in if found == key then later else (found, value) ∷ later

module _ {ℓ κ} {K : Type ℓ} {V : Type κ} where
  abbrev pub keys : Map K V → List K
  keys m = map (λ p. p.0) m

module _ {ℓ κ} {K : Type ℓ} {V : Type κ} ⦃e : Eq K⦄ where
  pub lookup-insert :
      (key other : K) (value : V) (entries : Map K V)
      → lookup other (insert key value entries)
        ≡ (if key == other then some value else lookup other entries)
  lookup-insert key other value [] = refl
  lookup-insert key other value ((found, old) ∷ entries) = ground (
    arith,
    lookup-insert key other value entries,
    ==-cases found other,
    ==-cases found key,
    ==-cases key other,
  )

  pub lookup-insert_self :
      (key : K) (value : V) (entries : Map K V) → lookup key (insert key value entries) ≡ some value
  lookup-insert_self key value entries =
      ground (arith, ==-refl key, lookup-insert key key value entries)

  pub lookup-erase_self : (k : K) (m : Map K V) → lookup k (erase k m) ≡ none
  lookup-erase_self k [] = refl
  lookup-erase_self k ((j, v) ∷ m) = ground (arith, lookup-erase_self k m)

  pub lookup-erase_ne : (k j : K) (m : Map K V) → k ≢ j → lookup j (erase k m) ≡ lookup j m
  lookup-erase_ne k j [] h = refl
  lookup-erase_ne k j ((i, v) ∷ m) h =
      ground (arith, ==-cases i k, ==-cases i j, lookup-erase_ne k j m h)

  pub In-keys : (k : K) {v : V} (m : Map K V) → lookup k m ≡ some v → In k (keys m)
  In-keys k [] h = cc
  In-keys k {v} ((j, w) ∷ m) h = elim (==-cases j k) [
    | inl (t, p) ↦ inl (sym p)
    | inr (t, p) ↦ inr (In-keys k {v = v} m (ground arith))
  ]

  pub lookup-In-keys : (k : K) (m : Map K V) → In k (keys m) → lookup k m ≢ none
  lookup-In-keys k [] h = absurd (h tt)
  lookup-In-keys k ((j, w) ∷ m) (inl p) = ground (arith, ==-of_eq j k (sym p))
  lookup-In-keys k ((j, w) ∷ m) (inr h) = ground (arith, lookup-In-keys k m h)
