-- ===== src/Metrics.antt =====
-- The descriptors of the metrics, and the Prometheus registry at which the collectors register them.
pub mod New
use solana_exporter.Base.{
  ℕ, leb, nat_eqb, ◌&&◌, ◌||◌, not, Text, text_eq, codes, contains, every, has_prefix, Bool, true,
  false, Option, none, List, [], ◌∷◌, map, ◌≡◌,
}

-- The name of a metric and its labels. The help text is left out.
pub record Description : Type 0 where
  pub name : Text
  pub labels : List Text

abbrev is_letter : ℕ → Bool
is_letter c = leb b'a' c && leb c b'z' || leb b'A' c && leb c b'Z' || nat_eqb c b'_'

abbrev is_letter_or_digit : ℕ → Bool
is_letter_or_digit c = is_letter c || leb b'0' c && leb c b'9'

-- Names that Prometheus accepts for a metric or a label.
abbrev is_name : Text → Bool
is_name [] = false
is_name (c ∷ s) = is_letter c && every is_letter_or_digit s

abbrev is_label : Text → Bool
is_label s = is_name s && not (has_prefix s (codes "__"))

-- No name stands in `old` or twice.
abbrev pub are_new : List Text → List Text → Bool
are_new old [] = true
are_new old (name ∷ names) = not (contains old name) && are_new (name ∷ old) names

abbrev pub is_valid : Description → Bool
is_valid d = is_name d.name && every is_label d.labels && are_new [] d.labels

abbrev pub are_valid : List Description → Bool
are_valid ds = every is_valid ds

abbrev pub names : List Description → List Text
names ds = map (λ d. d.name) ds

abbrev pub with_names : List Text → List Text → List Text
with_names [] old = old
with_names (name ∷ more) old = with_names more (name ∷ old)

-- `as_already_registered` is what `errors.As` says of the error for the target `**AlreadyRegisteredError`.
pub record RegisterError : Type 0 where
  pub as_already_registered : Bool
  pub message : Text

-- `prometheus.Register` of a collector that describes these metrics; `R` is the state of the registry.
pub record Registry (R : Type 0) : Type 0 where
  pub register : List Description → R → Option RegisterError × R

-- What the registry documents: a collector is registered unless a descriptor is invalid or its name is
-- taken. `registered` are the names that were registered.
pub record IsRegistry {R : Type 0} (registry : Registry R) : Type 0 where
  pub registered : R → List Text
  pub registers :
      (ds : List Description) (r : R)
      → are_valid ds ≡ true
      → are_new (registered r) (names ds) ≡ true
      → ((registry.register ds r).0 ≡ none)
        × (registered (registry.register ds r).1 ≡ with_names (names ds) (registered r))
