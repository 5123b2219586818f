-- ===== src/Utils/Unique.antt =====
-- `CombineUnique` of cmd/solana-exporter/utils.go.
pub mod Members
use solana_exporter.Base.{List, [], ◌∷◌, ◌++◌, Eq, contains, if◌then◌else◌}

module _ {ℓ} {T : Type ℓ} ⦃e : Eq T⦄ where
  unfoldable pub add_unique : List T → List T → List T
  add_unique [] unique_items = unique_items
  add_unique (item ∷ arg) unique_items =
      add_unique arg
        (if contains unique_items item then unique_items else unique_items ++ item ∷ [])

  unfoldable pub combine_into : List (List T) → List T → List T
  unfolding add_unique
  combine_into [] unique_items = unique_items
  combine_into (arg ∷ args) unique_items = combine_into args (add_unique arg unique_items)

  unfoldable pub combine_unique : List (List T) → List T
  unfolding combine_into
  combine_unique args = combine_into args []
