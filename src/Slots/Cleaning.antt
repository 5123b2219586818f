-- ===== src/Slots/Cleaning.antt =====
-- `cleanEpoch` and `deleteMetricLabelValues`: the series of a past epoch are deleted.
use solana_exporter.Base.{ℕ, suc, ℤ, Text, format_int, Bool, true, false, List, [], ◌∷◌, none, some}
use solana_exporter.Exec.{pure, gets, emit, ◌>>=◌, ◌>>◌}
use solana_exporter.Utils.Tracker.{get_tracked_validators}
use solana_exporter.Slots.State.{
  Counter, leader_slots_by_epoch, cluster_slots_by_epoch, inflation_rewards, fee_rewards,
  delete_counter, Env, Action, update,
}
use solana_exporter.Slots.Production.{status_valid, status_skipped}
use solana_exporter.Slots.Rewards.{votekey_at}

module _ {W F : Type 0} (env : Env W F) where
  -- Whether a series was there decides over a log line only.
  abbrev delete_metric_label_values : Counter → List Text → Action W F (Unit {0})
  delete_metric_label_values counter labels = emit (delete_counter counter labels)

  -- The loop over `NodeKeys`, from index `i` on.
  unfoldable pub clean_rewards : Text → ℕ → List Text → Action W F (Unit {0})
  unfolding votekey_at
  clean_rewards epoch_str i [] = pure tt
  clean_rewards epoch_str i (nodekey ∷ nodekeys) = do
    delete_metric_label_values fee_rewards (nodekey ∷ epoch_str ∷ [])
    votekey ← votekey_at env i
    delete_metric_label_values inflation_rewards (votekey ∷ epoch_str ∷ [])
    clean_rewards epoch_str (suc i) nodekeys

  unfoldable pub clean_leader_slots : Text → Text → List Text → Action W F (Unit {0})
  clean_leader_slots epoch_str status [] = pure tt
  clean_leader_slots epoch_str status (nodekey ∷ nodekeys) = do
    delete_metric_label_values leader_slots_by_epoch (nodekey ∷ epoch_str ∷ status ∷ [])
    clean_leader_slots epoch_str status nodekeys

  unfoldable pub clean_status : Text → List Text → Text → Action W F (Unit {0})
  unfolding clean_leader_slots
  clean_status epoch_str nodekeys status = do
    delete_metric_label_values cluster_slots_by_epoch (epoch_str ∷ status ∷ [])
    clean_leader_slots epoch_str status nodekeys

  -- An epoch that is not tracked is logged, and has no nodekeys.
  unfoldable pub take_tracked : ℤ → Action W F (List Text)
  take_tracked epoch = do
    w ← gets (λ s. s.watcher)
    let taken = get_tracked_validators epoch w.nodekey_tracker
    update (λ w. record w { nodekey_tracker = taken.1 })
    pure (elim taken.0 [ none ↦ [] | some nodekeys ↦ nodekeys ])

  -- After the wait: `cancelled` says that the context was done before it ended.
  unfoldable pub clean_epoch : Bool → ℤ → Action W F (Unit {0})
  unfolding clean_rewards clean_status take_tracked
  clean_epoch true epoch = pure tt
  clean_epoch false epoch = do
    clean_rewards (format_int epoch) 0 env.config.node_keys
    tracked_nodekeys ← take_tracked epoch
    clean_status (format_int epoch) tracked_nodekeys status_valid
    clean_status (format_int epoch) tracked_nodekeys status_skipped
