-- ===== src/Base/Decimals.antt =====
-- Decimal digits: what is printed reads back.
use Prim.Native.Nat.{ℕ, zero, suc, ◌+◌, ◌*◌, ◌/◌, ◌%◌, ◌^◌, ◌≤◌, ◌<◌}
use mathlib.Core.Path.{◌≡◌, ap, sym, ◌∙◌}
use mathlib.Core.Bool.{false}
use mathlib.Core.List.{[], ◌∷◌}
use mathlib.Core.Logic.{inl, inr}
use native.Mathlib.Omega.{arith}
use solana_exporter.Base.Tests.{ltb, nat_eqb, Bool-cases}
use solana_exporter.Base.Integers.{ℤ, pos, negsuc, IsInt64}
use solana_exporter.Base.Texts.{Text, digits, format_int, scanned, scan_digits, scan_uint, atoi}

-- A text that begins with a digit.
abbrev IsNumeral : Text → Type 0
IsNumeral [] = ⊥
IsNumeral (c ∷ s) = (b'0' ≤ c) × (c ≤ b'9')

digits-IsNumeral : (fuel n : ℕ) (out : Text) → IsNumeral out → IsNumeral (digits fuel n out)
unfolding digits
digits-IsNumeral zero n out h = h
digits-IsNumeral (suc fuel) n out h = elim (Bool-cases (ltb n 10)) [
  | inl small ↦ rw small (omega arith)
  | inr large ↦ rw large (digits-IsNumeral fuel (n / 10) _ (omega arith))
]

digits-suc-IsNumeral : (fuel n : ℕ) (out : Text) → IsNumeral (digits (suc fuel) n out)
unfolding digits
digits-suc-IsNumeral fuel n out = elim (Bool-cases (ltb n 10)) [
  | inl small ↦ rw small (omega arith)
  | inr large ↦ rw large (digits-IsNumeral fuel (n / 10) _ (omega arith))
]

scan_digits-cons :
    (n m : ℕ) (out : Text)
    → n * 10 + m % 10 < 2 ^ 64
    → scan_digits ((b'0' + m % 10) ∷ out) n ≡ scan_digits out (n * 10 + m % 10)
unfolding scan_digits
scan_digits-cons n m out h = ground arith

scan_digits-digits :
    (fuel n : ℕ) (out : Text)
    → n < fuel
    → n < 2 ^ 64
    → scan_digits (digits fuel n out) 0 ≡ scan_digits out n
unfolding digits
scan_digits-digits zero n out h k = absurd (omega arith)
scan_digits-digits (suc fuel) n out h k = elim (Bool-cases (ltb n 10)) [
  | inl small ↦
      let below : n < 10 = ground arith in
      rw small (scan_digits-cons 0 n out (omega arith) ∙ ap (scan_digits out) (omega arith))
  | inr large ↦
      let above : 10 ≤ n = ground arith in
      rw large (
        scan_digits-digits fuel (n / 10) _ (omega arith) (omega arith)
        ∙ scan_digits-cons (n / 10) n out (omega arith)
        ∙ ap (scan_digits out) (omega arith))
]

atoi_numeral :
    (t : Text) (n : ℕ) → IsNumeral t → scan_digits t 0 ≡ scanned n → n < 2 ^ 63 → atoi t ≡ pos n
unfolding atoi scan_uint
atoi_numeral [] n h e k = absurd h
atoi_numeral (c ∷ s) n (low, high) e k =
    let no_minus : nat_eqb c b'-' ≡ false = ground arith in
    let no_plus : nat_eqb c b'+' ≡ false = ground arith in rw (no_minus, no_plus, e) (ground arith)

atoi_negated :
    (t : Text) (n : ℕ)
    → IsNumeral t
    → scan_digits t 0 ≡ scanned (suc n)
    → n < 2 ^ 63
    → atoi (b'-' ∷ t) ≡ negsuc n
unfolding atoi scan_uint
atoi_negated [] n h e k = absurd h
atoi_negated (c ∷ s) n h e k = rw e (ground arith)

-- An `int64` that is printed reads back.
atoi-format_int : (z : ℤ) → IsInt64 z → atoi (format_int z) ≡ z
unfolding format_int scan_digits
atoi-format_int (pos n) h =
    atoi_numeral (digits (suc n) n []) n (digits-suc-IsNumeral n n [])
      (scan_digits-digits (suc n) n [] (omega arith) (omega arith)) (omega arith)
atoi-format_int (negsuc n) h =
    atoi_negated (digits (suc (suc n)) (suc n) []) n (digits-suc-IsNumeral (suc n) (suc n) [])
      (scan_digits-digits (suc (suc n)) (suc n) [] (omega arith) (omega arith)) (omega arith)

-- Two numbers that are printed the same are the same.
pub format_int_injective : (a b : ℤ) → IsInt64 a → IsInt64 b → format_int a ≡ format_int b → a ≡ b
format_int_injective a b h k e = sym (atoi-format_int a h) ∙ ap atoi e ∙ atoi-format_int b k
