-- ===== src/Metrics/New.antt =====
-- Names that are not taken.
use solana_exporter.Base.{
  Text, text_eq, contains, has_prefix, not, ◌||◌, Bool, true, false, List, [], ◌∷◌, ◌++◌, ◌≡◌, refl,
  arith, ==-cases,
}
use solana_exporter.Base.{every}
use solana_exporter.Metrics.{are_new, with_names}

contains-append :
    (xs ys : List Text) (n : Text) → contains (xs ++ ys) n ≡ (contains xs n || contains ys n)
contains-append [] ys n = refl
contains-append (x ∷ xs) ys n = ground (arith, contains-append xs ys n)

-- Names of which none stands in `old`.
abbrev pub are_foreign : List Text → List Text → Bool
are_foreign old names = every (λ name. not (contains old name)) names

are_new-append_old :
    (xs old names : List Text)
    → are_new xs names ≡ true
    → are_foreign old names ≡ true
    → are_new (xs ++ old) names ≡ true
are_new-append_old xs old [] h k = refl
are_new-append_old xs old (n ∷ names) h k =
    let split = contains-append xs old n in
    let later = are_new-append_old (n ∷ xs) old names in ground (arith, split, later)

-- Names with a prefix that none of the old ones has.
prefix_of :
    (prefix : Text) (old : List Text) (n : Text)
    → every (λ m. not (has_prefix m prefix)) old ≡ true
    → contains old n ≡ true
    → has_prefix n prefix ≡ false
prefix_of prefix [] n h c = absurd cc
prefix_of prefix (m ∷ old) n h c =
    let later = prefix_of prefix old n in ground (arith, ==-cases m n, later)

are_foreign-prefix :
    (prefix : Text) (old names : List Text)
    → every (λ m. not (has_prefix m prefix)) old ≡ true
    → every (λ n. has_prefix n prefix) names ≡ true
    → are_foreign old names ≡ true
are_foreign-prefix prefix old [] h k = refl
are_foreign-prefix prefix old (n ∷ names) h k =
    let later = are_foreign-prefix prefix old names h in
    let apart = prefix_of prefix old n h in ground (arith, later, apart)

-- Names that stand once, all with a prefix that none of the old ones has.
pub are_new-prefix :
    (prefix : Text) (old names : List Text)
    → every (λ m. not (has_prefix m prefix)) old ≡ true
    → every (λ n. has_prefix n prefix) names ≡ true
    → are_new [] names ≡ true
    → are_new old names ≡ true
are_new-prefix prefix old names h k once =
    are_new-append_old [] old names once (are_foreign-prefix prefix old names h k)

pub are_new-append :
    (old names more : List Text)
    → are_new old (names ++ more) ≡ true
    → (are_new old names ≡ true) × (are_new (with_names names old) more ≡ true)
are_new-append old [] more h = (refl, h)
are_new-append old (n ∷ names) more h =
    let later = are_new-append (n ∷ old) names more in ground (arith, later)
