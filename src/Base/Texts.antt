-- ===== src/Base/Texts.antt =====
-- Text as the list of its bytes, and what the program uses of `strings`, `strconv` and `fmt`.
use Prim.Native.Nat.{ℕ, zero, suc, ◌+◌, ◌-◌, ◌*◌, ◌/◌, ◌%◌, ◌^◌}
use Prim.Native.Char.{code}
use Prim.Native.String.{String}
use mathlib.Core.Path.{◌≡◌, refl}
use mathlib.Core.Logic.{◌↔◌}
use mathlib.Core.Bool.{Bool, true, false, ◌&&◌, ◌||◌}
use mathlib.Core.List.{List, [], ◌∷◌, map}
use native.Mathlib.Omega.{arith}
use solana_exporter.Base.Tests.{ltb, leb, nat_eqb, if◌then◌else◌}
use solana_exporter.Base.Equality.{Eq}
use solana_exporter.Base.Integers.{ℤ, pos, negsuc}

abbrev pub Text : Type 0
Text = List ℕ

-- The bytes of an ASCII literal.
abbrev pub codes : String → Text
codes String.[] = []
codes (String.◌∷◌ c s) = code c ∷ codes s

abbrev pub text_eqb : Text → Text → Bool
text_eqb [] [] = true
text_eqb [] (d ∷ t) = false
text_eqb (c ∷ s) [] = false
text_eqb (c ∷ s) (d ∷ t) = nat_eqb c d && text_eqb s t

pub text_eqb-eq : (s t : Text) → text_eqb s t ≡ true → s ≡ t
text_eqb-eq [] [] h = refl
text_eqb-eq [] (d ∷ t) h = cc
text_eqb-eq (c ∷ s) [] h = cc
text_eqb-eq (c ∷ s) (d ∷ t) h = ground (arith, text_eqb-eq s t)

pub text_eqb_refl : (s : Text) → text_eqb s s ≡ true
text_eqb_refl [] = refl
text_eqb_refl (c ∷ s) = ground (arith, text_eqb_refl s)

pub text_eqb_iff : (s t : Text) → (text_eqb s t ≡ true) ↔ (s ≡ t)
text_eqb_iff s t = (text_eqb-eq s t, λ e. rw e (text_eqb_refl t))

instance abbrev pub text_eq : Eq Text
text_eq = record { same = text_eqb; same_sound = text_eqb-eq; same_self = text_eqb_refl }

-- `strings.ToLower` on ASCII letters; other bytes are left as they are.
abbrev lower_byte : ℕ → ℕ
lower_byte c = if leb b'A' c && leb c b'Z' then c + 32 else c

unfoldable pub to_lower : Text → Text
to_lower s = map lower_byte s

-- `strings.HasPrefix` and `strings.Contains`.
unfoldable pub has_prefix : Text → Text → Bool
has_prefix s [] = true
has_prefix [] (d ∷ t) = false
has_prefix (c ∷ s) (d ∷ t) = nat_eqb c d && has_prefix s t

unfoldable pub contains_text : Text → Text → Bool
unfolding has_prefix
contains_text [] t = has_prefix [] t
contains_text (c ∷ s) t = has_prefix (c ∷ s) t || contains_text s t

-- `strings.Split` at one byte.
extend_first : ℕ → List Text → List Text
extend_first c [] = (c ∷ []) ∷ []
extend_first c (p ∷ ps) = (c ∷ p) ∷ ps

unfoldable pub split : Text → ℕ → List Text
unfolding extend_first
split [] sep = [] ∷ []
split (c ∷ s) sep =
    let rest = split s sep in if nat_eqb c sep then [] ∷ rest else extend_first c rest

-- The decimal digits of a number before `out`; more fuel than the number has digits is enough.
unfoldable pub digits : ℕ → ℕ → Text → Text
digits zero n out = out
digits (suc fuel) n out =
    let last = (b'0' + n % 10) ∷ out in
    let rest = digits fuel (n / 10) last in if ltb n 10 then last else rest

-- `fmt.Sprintf("%v", i)` of an `int64`.
unfoldable pub format_int : ℤ → Text
unfolding digits
format_int (pos n) = digits (suc n) n []
format_int (negsuc n) = b'-' ∷ digits (suc (suc n)) (suc n) []

-- `strconv.ParseUint` of digits: a byte that is no digit is a syntax error, and a value past 64 bits
-- is a range error where it is met.
pub data Scan : Type 0 where
  syntax_error range_error : Scan
  scanned : ℕ → Scan

unfoldable pub scan_digits : Text → ℕ → Scan
scan_digits [] n = scanned n
scan_digits (c ∷ s) n =
    let m = n * 10 + (c - b'0') in
    let rest = scan_digits s m in
    if ltb c b'0' || ltb b'9' c then syntax_error else if leb (2 ^ 64) m then range_error else rest

abbrev pub positive : Scan → ℤ
positive syntax_error = pos 0
positive range_error = pos (2 ^ 63 - 1)
positive (scanned n) = if leb (2 ^ 63) n then pos (2 ^ 63 - 1) else pos n

abbrev pub negative : Scan → ℤ
negative syntax_error = pos 0
negative range_error = negsuc (2 ^ 63 - 1)
negative (scanned n) =
    if ltb (2 ^ 63) n then negsuc (2 ^ 63 - 1) else if nat_eqb n 0 then pos 0 else negsuc (n - 1)

unfoldable pub scan_uint : Text → Scan
unfolding scan_digits
scan_uint [] = syntax_error
scan_uint (c ∷ s) = scan_digits (c ∷ s) 0

-- The value of `strconv.Atoi` with its error dropped: 0 for a syntax error, the nearest `int` for a
-- value out of range.
unfoldable pub atoi : Text → ℤ
unfolding scan_uint
atoi [] = pos 0
atoi (c ∷ s) =
    if nat_eqb c b'-'
    then negative (scan_uint s)
    else if nat_eqb c b'+'
    then positive (scan_uint s)
    else positive (scan_uint (c ∷ s))
