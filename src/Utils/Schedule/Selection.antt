-- ===== src/Utils/Schedule/Selection.antt =====
-- What `SelectFromSchedule` selects.
use solana_exporter.Base.{
  ℤ, ◌≤ℤ◌, leb_ℤ, Text, text_eq, List, [], ◌∷◌, In, In-append, In-append_left, In-append_right,
  lookup, insert, lookup-insert, ==-cases, Option, none, some, true, Bool-cases, ◌&&◌, ◌≡◌, refl,
  sym, ◌∙◌, arith, ◌⊎◌, inl, inr, ◌↔◌,
}
use solana_exporter.Utils.Schedule.{Schedule, select_slots, select_into, select_from_schedule}

-- The validator leads the slot.
abbrev pub Leads : Schedule → Text → ℤ → Type 0
Leads schedule key slot = (slots : List ℤ) × (lookup key schedule ≡ some slots) × In slot slots

-- A map holds each key once.
abbrev pub IsMap : Schedule → Type 0
IsMap [] = Unit
IsMap ((key, slots) ∷ schedule) = (lookup key schedule ≡ none) × IsMap schedule

select_slots_sound :
    (a b x : ℤ) (values selected : List ℤ)
    → In x (select_slots a b values selected)
    → In x selected ⊎ In x values × (a ≤ℤ x) × (x ≤ℤ b)
unfolding select_slots
select_slots_sound a b x [] selected m = inl m
select_slots_sound a b x (v ∷ values) selected m = elim (Bool-cases (leb_ℤ a v && leb_ℤ v b)) [
  | inl inside ↦ elim (select_slots_sound a b x values _ (rw inside at m)) [
    | inl p ↦ elim (In-append x selected (v ∷ []) p) [
      | inl q ↦ inl q
      | inr (inl e) ↦ inr (inl e, ground arith, ground arith)
      | inr (inr none_left) ↦ absurd (none_left tt)
    ]
    | inr (p, q, r) ↦ inr (inr p, q, r)
  ]
  | inr outside ↦ elim (select_slots_sound a b x values _ (rw outside at m)) [
    | inl p ↦ inl p
    | inr (p, q, r) ↦ inr (inr p, q, r)
  ]
]

select_slots-keeps :
    (a b x : ℤ) (values selected : List ℤ) → In x selected → In x (select_slots a b values selected)
unfolding select_slots
select_slots-keeps a b x [] selected m = m
select_slots-keeps a b x (v ∷ values) selected m = elim (Bool-cases (leb_ℤ a v && leb_ℤ v b)) [
  | inl inside ↦
      rw inside (select_slots-keeps a b x values _ (In-append_left x selected (v ∷ []) m))
  | inr outside ↦ rw outside (select_slots-keeps a b x values selected m)
]

select_slots_complete :
    (a b x : ℤ) (values selected : List ℤ)
    → In x values
    → a ≤ℤ x
    → x ≤ℤ b
    → In x (select_slots a b values selected)
unfolding select_slots
select_slots_complete a b x [] selected m p q = absurd (m tt)
select_slots_complete a b x (v ∷ values) selected (inl e) p q =
    let inside : (leb_ℤ a v && leb_ℤ v b) ≡ true = ground arith in
    rw inside (select_slots-keeps a b x values _ (In-append_right x selected (v ∷ []) (inl e)))
select_slots_complete a b x (v ∷ values) selected (inr m) p q =
    select_slots_complete a b x values _ m p q

-- The entry of a key after the selection.
abbrev selected_of : ℤ → ℤ → Option (List ℤ) → Option (List ℤ) → Option (List ℤ)
selected_of a b none before = before
selected_of a b (some values) before = some (select_slots a b values [])

lookup-select_into :
    (a b : ℤ) (key : Text) (schedule selected : Schedule)
    → IsMap schedule
    → lookup key (select_into a b schedule selected)
      ≡ selected_of a b (lookup key schedule) (lookup key selected)
unfolding select_into
lookup-select_into a b key [] selected m = refl
lookup-select_into a b key ((k, values) ∷ schedule) selected (fresh, m) =
    let ih =
      lookup-select_into a b key schedule (insert k (select_slots a b values []) selected) m in
    let inserted = lookup-insert k key (select_slots a b values []) selected in
    elim (==-cases k key) [
      | inl (t, p) ↦ let absent : lookup key schedule ≡ none = rw p at fresh in ground arith
      | inr (t, p) ↦ ground arith
    ]

selection_entry :
    (a b : ℤ) (key : Text) (schedule : Schedule)
    → IsMap schedule
    → lookup key (select_from_schedule schedule a b) ≡ selected_of a b (lookup key schedule) none
unfolding select_from_schedule
selection_entry a b key schedule m = lookup-select_into a b key schedule [] m

Leads-sound :
    (a b : ℤ) (key : Text) (slot : ℤ) (schedule : Schedule) (slots : List ℤ) (o : Option (List ℤ))
    → lookup key schedule ≡ o
    → selected_of a b o none ≡ some slots
    → In slot slots
    → Leads schedule key slot × (a ≤ℤ slot) × (slot ≤ℤ b)
Leads-sound a b key slot schedule slots none e f m = absurd (cc)
Leads-sound a b key slot schedule slots (some values) e f m =
    let g : select_slots a b values [] ≡ slots = cc in
    elim (select_slots_sound a b slot values [] (rw g m)) [
      | inl none_left ↦ absurd (none_left tt)
      | inr (p, q, r) ↦ ((values, e, p), q, r)
    ]

-- In a schedule that holds each key once, `SelectFromSchedule` gives a validator exactly the slots of
-- its own that lie between the first and the last slot, both inclusive.
pub select_from_schedule-Leads :
    (schedule : Schedule) (start_slot end_slot : ℤ)
    → IsMap schedule
    → (key : Text) (slot : ℤ)
    → Leads (select_from_schedule schedule start_slot end_slot) key slot
      ↔ (Leads schedule key slot × (start_slot ≤ℤ slot) × (slot ≤ℤ end_slot))
select_from_schedule-Leads schedule a b m key slot =
    let entry = selection_entry a b key schedule m in
    (
      (λ (slots, e, p).
          Leads-sound a b key slot schedule slots (lookup key schedule) refl (sym entry ∙ e) p),
      (λ (leads, q, r).
          let (values, e, p) = leads in
          (
            select_slots a b values [],
            ground arith,
            select_slots_complete a b slot values [] p q r,
          )),
    )
