-- ===== src/Utils/Tracker.antt =====
-- `EpochTrackedValidators` of cmd/solana-exporter/utils.go: the nodekeys that have series for an epoch.
-- The mutex makes each method one step. An inner `map[string]struct{}` is a list without repetition.
pub mod Taken
use solana_exporter.Base.{
  ℤ, Text, List, [], ◌∷◌, ◌++◌, Option, none, some, Map, lookup, insert, erase, contains, int_eq,
  text_eq, if◌then◌else◌,
}

abbrev pub Tracker : Type 0
Tracker = Map ℤ (List Text)

abbrev pub new_epoch_tracked_validators : Tracker
new_epoch_tracked_validators = []

-- `none` is the error "epoch not tracked"; the keys of the inner map are handed out.
unfoldable pub get_tracked_validators : ℤ → Tracker → Option (List Text) × Tracker
get_tracked_validators epoch t = elim (lookup epoch t) [
  | none ↦ (none, t)
  | some nodekeys ↦ (some nodekeys, erase epoch t)
]

-- `epochNodekeys[nodekey] = struct{}{}` for each of the nodekeys.
unfoldable pub add_nodekeys : List Text → List Text → List Text
add_nodekeys [] known = known
add_nodekeys (nodekey ∷ nodekeys) known =
    add_nodekeys nodekeys (if contains known nodekey then known else known ++ nodekey ∷ [])

abbrev pub known_nodekeys : Option (List Text) → List Text
known_nodekeys none = []
known_nodekeys (some known) = known

unfoldable pub add_tracked_nodekeys : ℤ → List Text → Tracker → Tracker
add_tracked_nodekeys epoch nodekeys t =
    insert epoch (add_nodekeys nodekeys (known_nodekeys (lookup epoch t))) t
