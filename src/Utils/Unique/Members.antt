-- ===== src/Utils/Unique/Members.antt =====
-- What `CombineUnique` returns.
use solana_exporter.Base.{
  List, [], ◌∷◌, ◌++◌, Eq, contains, contains-In, In-contains, In, In-append, In-append_left,
  In-append_right, Bool-cases, ◌≡◌, refl, sym, ◌⊎◌, inl, inr, ◌↔◌, if◌then◌else◌,
}
use solana_exporter.Utils.Unique.{add_unique, combine_into, combine_unique}

module _ {ℓ} {T : Type ℓ} where
  -- No item stands twice.
  abbrev pub IsUnique : List T → Type ℓ
  IsUnique [] = Unit
  IsUnique (x ∷ xs) = (¬ In x xs) × IsUnique xs

  -- An item of one of the arrays.
  abbrev pub InAny : T → List (List T) → Type ℓ
  InAny x [] = Unit {ℓ} → ⊥
  InAny x (arg ∷ args) = In x arg ⊎ InAny x args

  not-In-snoc : (x y : T) (xs : List T) → ¬ In x xs → ¬ (x ≡ y) → ¬ In x (xs ++ y ∷ [])
  not-In-snoc x y xs h ne m = elim (In-append x xs (y ∷ []) m) [
    | inl p ↦ h p
    | inr (inl e) ↦ ne e
    | inr (inr none_left) ↦ none_left tt
  ]

  IsUnique-snoc : (xs : List T) (y : T) → IsUnique xs → ¬ In y xs → IsUnique (xs ++ y ∷ [])
  IsUnique-snoc [] y u h = ((λ m. m tt), tt)
  IsUnique-snoc (x ∷ xs) y (hx, u) h =
      (not-In-snoc x y xs hx (λ e. h (inl (sym e))), IsUnique-snoc xs y u (λ m. h (inr m)))

module _ {ℓ} {T : Type ℓ} ⦃e : Eq T⦄ where
  -- One round of the inner loop.
  abbrev add_item : T → List T → List T
  add_item item items = if contains items item then items else items ++ item ∷ []

  add_item-IsUnique : (item : T) (items : List T) → IsUnique items → IsUnique (add_item item items)
  add_item-IsUnique item items u = elim (Bool-cases (contains items item)) [
    | inl old ↦ rw old u
    | inr new ↦ rw new (IsUnique-snoc items item u (λ m. cc (new, In-contains items item m)))
  ]

  add_item_self : (item : T) (items : List T) → In item (add_item item items)
  add_item_self item items = elim (Bool-cases (contains items item)) [
    | inl old ↦ rw old (contains-In items item old)
    | inr new ↦ rw new (In-append_right item items (item ∷ []) (inl refl))
  ]

  add_item-keeps : (x item : T) (items : List T) → In x items → In x (add_item item items)
  add_item-keeps x item items m = elim (Bool-cases (contains items item)) [
    | inl old ↦ rw old m
    | inr new ↦ rw new (In-append_left x items (item ∷ []) m)
  ]

  add_item-only :
      (x item : T) (items : List T) → In x (add_item item items) → In x items ⊎ (x ≡ item)
  add_item-only x item items m = elim (Bool-cases (contains items item)) [
    | inl old ↦ inl (rw old at m)
    | inr new ↦ elim (In-append x items (item ∷ []) (rw new at m)) [
      | inl p ↦ inl p
      | inr (inl p) ↦ inr p
      | inr (inr none_left) ↦ absurd (none_left tt)
    ]
  ]

  add_unique-IsUnique : (arg items : List T) → IsUnique items → IsUnique (add_unique arg items)
  unfolding add_unique
  add_unique-IsUnique [] items u = u
  add_unique-IsUnique (item ∷ arg) items u =
      add_unique-IsUnique arg (add_item item items) (add_item-IsUnique item items u)

  pub add_unique-keeps : (x : T) (arg items : List T) → In x items → In x (add_unique arg items)
  unfolding add_unique
  add_unique-keeps x [] items m = m
  add_unique-keeps x (item ∷ arg) items m =
      add_unique-keeps x arg (add_item item items) (add_item-keeps x item items m)

  pub add_unique-has : (x : T) (arg items : List T) → In x arg → In x (add_unique arg items)
  unfolding add_unique
  add_unique-has x [] items m = absurd (m tt)
  add_unique-has x (item ∷ arg) items (inl p) =
      add_unique-keeps x arg (add_item item items) (rw p (add_item_self item items))
  add_unique-has x (item ∷ arg) items (inr m) = add_unique-has x arg (add_item item items) m

  pub add_unique-only :
      (x : T) (arg items : List T) → In x (add_unique arg items) → In x items ⊎ In x arg
  unfolding add_unique
  add_unique-only x [] items m = inl m
  add_unique-only x (item ∷ arg) items m = elim (add_unique-only x arg (add_item item items) m) [
    | inl p ↦ elim (add_item-only x item items p) [ inl q ↦ inl q | inr q ↦ inr (inl q) ]
    | inr p ↦ inr (inr p)
  ]

  combine_into-IsUnique :
      (args : List (List T)) (items : List T) → IsUnique items → IsUnique (combine_into args items)
  unfolding combine_into
  combine_into-IsUnique [] items u = u
  combine_into-IsUnique (arg ∷ args) items u =
      combine_into-IsUnique args (add_unique arg items) (add_unique-IsUnique arg items u)

  combine_into-keeps :
      (x : T) (args : List (List T)) (items : List T) → In x items → In x (combine_into args items)
  unfolding combine_into
  combine_into-keeps x [] items m = m
  combine_into-keeps x (arg ∷ args) items m =
      combine_into-keeps x args (add_unique arg items) (add_unique-keeps x arg items m)

  combine_into-has :
      (x : T) (args : List (List T)) (items : List T)
      → InAny x args
      → In x (combine_into args items)
  unfolding combine_into
  combine_into-has x [] items m = absurd (m tt)
  combine_into-has x (arg ∷ args) items (inl m) =
      combine_into-keeps x args (add_unique arg items) (add_unique-has x arg items m)
  combine_into-has x (arg ∷ args) items (inr m) = combine_into-has x args (add_unique arg items) m

  combine_into-only :
      (x : T) (args : List (List T)) (items : List T)
      → In x (combine_into args items)
      → In x items ⊎ InAny x args
  unfolding combine_into
  combine_into-only x [] items m = inl m
  combine_into-only x (arg ∷ args) items m =
      elim (combine_into-only x args (add_unique arg items) m) [
        | inl p ↦ elim (add_unique-only x arg items p) [ inl q ↦ inl q | inr q ↦ inr (inl q) ]
        | inr p ↦ inr (inr p)
      ]

-- `CombineUnique` returns each item of the arrays and no other, and none of them twice.
pub combine_unique-IsUnique {ℓ} :
    {T : Type ℓ} ⦃e : Eq T⦄ (args : List (List T))
    → IsUnique (combine_unique args) × ((x : T) → In x (combine_unique args) ↔ InAny x args)
unfolding combine_unique
combine_unique-IsUnique args = (
  combine_into-IsUnique args [] tt,
  (λ x. (
    (λ m. elim (combine_into-only x args [] m) [
      | inl none_left ↦ absurd (none_left tt)
      | inr p ↦ p
    ]),
    combine_into-has x args [],
  )),
)
