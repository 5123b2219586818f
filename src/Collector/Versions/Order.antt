-- ===== src/Collector/Versions/Order.antt =====
-- `compareVersions` is the order of versions by their first difference.
use solana_exporter.Base.{
  ℕ, zero, suc, ◌+◌, ◌<◌, ◌≤◌, ltb, ℤ, pos, negsuc, pos_part, neg_part, ltb_ℤ, eq_of_parts, Text,
  split, length, get_elem?, List, [], ◌∷◌, none, Bool-cases, ◌≡◌, refl, sym, arith, ◌⊎◌, inl, inr,
  if◌then◌else◌,
}
use solana_exporter.Collector.Versions.{part_value, compare_from, max_len, compare_versions}

abbrev ◌<ℤ◌ : ℤ → ℤ → Type 0
◌<ℤ◌ a b = pos_part a + neg_part b < pos_part b + neg_part a

-- At the first index where they differ, `a` is smaller.
abbrev pub IsLess : (ℕ → ℤ) → (ℕ → ℤ) → Type 0
IsLess a b = (i : ℕ) × ((j : ℕ) → j < i → a j ≡ b j) × (◌<ℤ◌ (a i) (b i))

abbrev pub AgreesBelow : ℕ → (ℕ → ℤ) → (ℕ → ℤ) → Type 0
AgreesBelow n a b = (j : ℕ) → j < n → a j ≡ b j

abbrev Verdict : ℤ → ℕ → (ℕ → ℤ) → (ℕ → ℤ) → Type 0
Verdict r n a b =
    (r ≡ negsuc 0) × IsLess a b ⊎ (r ≡ pos 1) × IsLess b a ⊎ (r ≡ pos 0) × AgreesBelow n a b

agrees_next : (i : ℕ) (a b : ℕ → ℤ) → AgreesBelow i a b → a i ≡ b i → AgreesBelow (suc i) a b
agrees_next i a b h e j lt = elim (Bool-cases (ltb j i)) [
  | inl below ↦ h j (ground arith)
  | inr here ↦ let same : j ≡ i = ground arith in rw same e
]

compare_from-Verdict :
    (rounds i : ℕ) (a b : ℕ → ℤ)
    → AgreesBelow i a b
    → Verdict (compare_from rounds i a b) (i + rounds) a b
unfolding compare_from
compare_from-Verdict zero i a b h = inr (inr (refl, λ j lt. h j (omega arith)))
compare_from-Verdict (suc rounds) i a b h = elim (Bool-cases (ltb_ℤ (a i) (b i))) [
  | inl less ↦ rw less (inl (refl, (i, h, ground arith)))
  | inr not_less ↦ elim (Bool-cases (ltb_ℤ (b i) (a i))) [
    | inl greater ↦
        rw (not_less, greater) (inr (inl (refl, (i, λ j lt. sym (h j lt), ground arith))))
    | inr not_greater ↦
        let rest =
          compare_from-Verdict rounds (suc i) a b
            (agrees_next i a b h (eq_of_parts (a i) (b i) (ground arith))) in
        let e : suc i + rounds ≡ i + suc rounds = omega arith in
        rw (not_less, not_greater, ← e) rest
  ]
]

-- Past the end of both lists the values are 0.
get_elem?-past : (xs : List Text) (i : ℕ) → length xs ≤ i → get_elem? xs i ≡ none
get_elem?-past [] i h = refl
get_elem?-past (x ∷ xs) zero h = absurd (omega arith)
get_elem?-past (x ∷ xs) (suc i) h = get_elem?-past xs i (omega arith)

part_value-past : (xs : List Text) (i : ℕ) → length xs ≤ i → part_value xs i ≡ pos 0
unfolding part_value
part_value-past xs i h = rw (get_elem?-past xs i h, part_value)

agrees_everywhere :
    (xs ys : List Text)
    → AgreesBelow (max_len xs ys) (part_value xs) (part_value ys)
    → (i : ℕ) → part_value xs i ≡ part_value ys i
unfolding max_len
agrees_everywhere xs ys h i =
    elim (Bool-cases (ltb i (if ltb (length xs) (length ys) then length ys else length xs))) [
      | inl below ↦ h i (ground arith)
      | inr past ↦ rw (part_value-past xs i (ground arith), part_value-past ys i (ground arith))
    ]

-- The numbers of a version: the parts between its dots, and 0 past them.
abbrev pub numbers : Text → ℕ → ℤ
numbers version = part_value (split version b'.')

-- For any two versions the result is -1 and the first has the smaller number at the first index where
-- the two differ, or it is 1 and the second has it, or it is 0 and they differ nowhere.
pub compare_versions_lem :
    (a b : Text)
    → (compare_versions a b ≡ negsuc 0) × IsLess (numbers a) (numbers b)
      ⊎ (compare_versions a b ≡ pos 1) × IsLess (numbers b) (numbers a)
      ⊎ (compare_versions a b ≡ pos 0) × ((i : ℕ) → numbers a i ≡ numbers b i)
unfolding compare_versions
compare_versions_lem a b =
    let a_parts = split a b'.' in
    let b_parts = split b b'.' in
    elim (compare_from-Verdict (max_len a_parts b_parts) 0 (part_value a_parts) (part_value b_parts)
      (λ j lt. absurd (omega arith))) [
        | inl less ↦ inl less
        | inr (inl greater) ↦ inr (inl greater)
        | inr (inr (e, same)) ↦
            inr (inr (e, agrees_everywhere a_parts b_parts (λ j lt. same j (omega arith))))
      ]
