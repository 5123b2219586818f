-- ===== src/Slots/Vectors.antt =====
-- The labels of the counters of `NewSlotWatcher`: `WithLabelValues` panics unless it is given one value for
-- each label.
pub mod Labelled
use solana_exporter.Base.{Float64, Text, codes, length, List, [], ◌∷◌, ◌≡◌, refl}
use solana_exporter.Slots.State.{
  Counter, leader_slots, leader_slots_by_epoch, cluster_slots_by_epoch, inflation_rewards,
  fee_rewards, Call, set_block_size, add_counter, delete_counter, Action, add_to_counter,
}
use solana_exporter.Slots.Each.{Each, each_rules}

abbrev pub counter_labels : Counter → List Text
counter_labels leader_slots = codes "nodekey" ∷ codes "status" ∷ []
counter_labels leader_slots_by_epoch = codes "nodekey" ∷ codes "epoch" ∷ codes "status" ∷ []
counter_labels cluster_slots_by_epoch = codes "epoch" ∷ codes "status" ∷ []
counter_labels inflation_rewards = codes "votekey" ∷ codes "epoch" ∷ []
counter_labels fee_rewards = codes "nodekey" ∷ codes "epoch" ∷ []

abbrev pub block_size_labels : List Text
block_size_labels = codes "nodekey" ∷ codes "transaction_type" ∷ []

module _ {F : Type 0} where
  -- The label values of a call, and the labels of what it is made on.
  abbrev values_in : Call F → List Text
  values_in (add_counter counter labels x) = labels
  values_in (delete_counter counter labels) = labels
  values_in (set_block_size labels x) = labels
  values_in _ = []

  abbrev labels_of : Call F → List Text
  labels_of (add_counter counter labels x) = counter_labels counter
  labels_of (delete_counter counter labels) = counter_labels counter
  labels_of (set_block_size labels x) = block_size_labels
  labels_of _ = []

  abbrev pub IsLabelled : Call F → Type 0
  IsLabelled c = length (values_in c) ≡ length (labels_of c)

-- Runs whose calls are all labelled.
abbrev pub Labels : {W F A : Type 0} → Action W F A → Type 0
Labels m = Each IsLabelled m

pub add_to_counter-Labels :
    {W F : Type 0} (float : Float64 F) (counter : Counter) (labels : List Text) (x : F)
    → length labels ≡ length (counter_labels counter)
    → Labels (add_to_counter {W = W} float counter labels x)
unfolding add_to_counter
add_to_counter-Labels float counter labels x h = search (each_rules, h)

pub ruleset label_rules = (each_rules, add_to_counter-Labels, refl)
