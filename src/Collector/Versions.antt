-- ===== src/Collector/Versions.antt =====
-- `compareVersions` of cmd/solana-exporter/collector.go.
pub mod Order
use solana_exporter.Base.{
  ℕ, zero, suc, ◌+◌, ltb, ℤ, pos, negsuc, ltb_ℤ, Text, split, atoi, length, get_elem?, List, Option,
  none, some, if◌then◌else◌,
}

-- The number at index `i`: 0 past the end, and where the part is no number.
unfoldable pub part_value : List Text → ℕ → ℤ
part_value parts i = elim (get_elem? parts i) [ none ↦ pos 0 | some part ↦ atoi part ]

-- The loop from index `i` on, for the rounds that are left.
unfoldable pub compare_from : ℕ → ℕ → (ℕ → ℤ) → (ℕ → ℤ) → ℤ
compare_from zero i a b = pos 0
compare_from (suc rounds) i a b =
    let rest = compare_from rounds (suc i) a b in
    if ltb_ℤ (a i) (b i) then negsuc 0 else if ltb_ℤ (b i) (a i) then pos 1 else rest

unfoldable pub max_len : List Text → List Text → ℕ
max_len a_parts b_parts =
    if ltb (length a_parts) (length b_parts) then length b_parts else length a_parts

unfoldable pub compare_versions : Text → Text → ℤ
unfolding part_value compare_from max_len
compare_versions a b =
    let a_parts = split a b'.' in
    let b_parts = split b b'.' in
    compare_from (max_len a_parts b_parts) 0 (part_value a_parts) (part_value b_parts)
