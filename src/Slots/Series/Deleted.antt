-- ===== src/Slots/Series/Deleted.antt =====
-- What `cleanEpoch` deletes, and what it leaves in the tracker.
use solana_exporter.Base.{
  ℤ, Text, text_eq, int_eq, false, ◌≡◌, refl, ap, ◌∙◌, arith, List, [], ◌∷◌, ◌++◌, In,
  In-append_left, In-append_right, length, get_elem?, ◌+◌, none, lookup, format_int, inl, inr,
}
use solana_exporter.Exec.{returned}
use solana_exporter.Utils.Tracker.Taken.{tracked}
use solana_exporter.Slots.State.{
  leader_slots_by_epoch, cluster_slots_by_epoch, inflation_rewards, fee_rewards, Call,
  delete_counter, System, Env,
}
use solana_exporter.Slots.Production.{status_valid, status_skipped}
use solana_exporter.Slots.Cleaning.{clean_rewards, clean_epoch}
use solana_exporter.Slots.Series.{
  In-get_elem?, clean_rewards-fee, clean_rewards-returns, clean_rewards-inflation,
  clean_leader_slots-deletes,
}
use solana_exporter.Slots.Series.Cleaned.{lookup-without, taken_from, deleted, clean_epoch-done}

module _ {F : Type 0} where
  -- Among the calls, the series of a status are deleted: the cluster's slots and each nodekey's.
  abbrev pub DeletesStatus : List Text → Text → Text → List (Call F) → Type 0
  DeletesStatus nodekeys epoch_str status es =
      In (delete_counter cluster_slots_by_epoch (epoch_str ∷ status ∷ [])) es
      × ((nodekey : Text)
          → In nodekey nodekeys
          → In (delete_counter leader_slots_by_epoch (nodekey ∷ epoch_str ∷ status ∷ [])) es)

  -- Every series that carries the epoch is deleted: the fee rewards of each nodekey, the inflation rewards
  -- of each votekey, and the slots of both statuses.
  abbrev pub DeletesSeries : List Text → List Text → List Text → Text → List (Call F) → Type 0
  DeletesSeries node_keys vote_keys tracked_keys epoch_str es =
      ((nodekey : Text)
        → In nodekey node_keys
        → In (delete_counter fee_rewards (nodekey ∷ epoch_str ∷ [])) es)
      × ((votekey : Text)
          → In votekey vote_keys
          → In (delete_counter inflation_rewards (votekey ∷ epoch_str ∷ [])) es)
      × DeletesStatus tracked_keys epoch_str status_valid es
      × DeletesStatus tracked_keys epoch_str status_skipped es

  DeletesStatus-append_left :
      (nodekeys : List Text) (epoch_str status : Text) (es fs : List (Call F))
      → DeletesStatus nodekeys epoch_str status es
      → DeletesStatus nodekeys epoch_str status (es ++ fs)
  DeletesStatus-append_left nodekeys epoch_str status es fs (cluster, leaders) = (
    In-append_left (delete_counter cluster_slots_by_epoch (epoch_str ∷ status ∷ [])) es fs cluster,
    (λ nodekey m.
        In-append_left (delete_counter leader_slots_by_epoch (nodekey ∷ epoch_str ∷ status ∷ [])) es
          fs (leaders nodekey m)),
  )

  DeletesStatus-append_right :
      (nodekeys : List Text) (epoch_str status : Text) (es fs : List (Call F))
      → DeletesStatus nodekeys epoch_str status fs
      → DeletesStatus nodekeys epoch_str status (es ++ fs)
  DeletesStatus-append_right nodekeys epoch_str status es fs (cluster, leaders) = (
    In-append_right (delete_counter cluster_slots_by_epoch (epoch_str ∷ status ∷ [])) es fs cluster,
    (λ nodekey m.
        In-append_right (delete_counter leader_slots_by_epoch (nodekey ∷ epoch_str ∷ status ∷ []))
          es fs (leaders nodekey m)),
  )

module _ {W F : Type 0} (env : Env W F) where
  deleted-DeletesStatus :
      (epoch_str : Text) (nodekeys : List Text) (s : System W) (status : Text)
      → DeletesStatus nodekeys epoch_str status (deleted env epoch_str nodekeys s status)
  deleted-DeletesStatus epoch_str nodekeys s status = (
    inl refl,
    λ nodekey m. inr (clean_leader_slots-deletes env epoch_str status nodekeys nodekey s m),
  )

  -- With a votekey for each nodekey, a cleaning of an epoch that was not cancelled returns; it deletes
  -- the epoch's fee rewards of each nodekey, its inflation rewards of each votekey and, for both
  -- statuses, its slots of the cluster and of each nodekey that is tracked for it; and the epoch is not
  -- tracked any more.
  pub clean_epoch-DeletesSeries :
      (epoch : ℤ) (s : System W)
      → length env.config.vote_keys ≡ length env.config.node_keys
      → let r = clean_epoch env false epoch s in
        (r.result ≡ returned tt)
        × DeletesSeries env.config.node_keys env.config.vote_keys
            (tracked epoch s.watcher.nodekey_tracker)
            (format_int epoch)
            r.events
        × (lookup epoch r.state.watcher.nodekey_tracker ≡ none)
  clean_epoch-DeletesSeries epoch s h =
      let epoch_str = format_int epoch in
      let rewards = clean_rewards env epoch_str 0 env.config.node_keys s in
      let returns =
        (clean_rewards-returns env epoch_str 0 env.config.node_keys s (omega arith)).0 in
      let nodekeys = tracked epoch s.watcher.nodekey_tracker in
      let valid = deleted env epoch_str nodekeys (taken_from env epoch s) status_valid in
      let skipped = deleted env epoch_str nodekeys (taken_from env epoch s) status_skipped in
      rw (clean_epoch-done env epoch s h) (
        refl,
        (
          (λ nodekey m.
              In-append_left (delete_counter fee_rewards (nodekey ∷ epoch_str ∷ [])) rewards.events
                (valid ++ skipped)
                (clean_rewards-fee env epoch_str 0 env.config.node_keys nodekey s returns m)),
          (λ votekey m.
              let (j, lt, found) = In-get_elem? env.config.vote_keys votekey m in
              let at_index : 0 + j ≡ j = omega arith in
              In-append_left (delete_counter inflation_rewards (votekey ∷ epoch_str ∷ []))
                rewards.events (valid ++ skipped)
                (clean_rewards-inflation env epoch_str 0 j env.config.node_keys votekey s returns
                  (omega arith) (ap (get_elem? env.config.vote_keys) at_index ∙ found))),
          DeletesStatus-append_right nodekeys epoch_str status_valid rewards.events
              (valid ++ skipped)
              (DeletesStatus-append_left nodekeys epoch_str status_valid valid skipped
                (deleted-DeletesStatus epoch_str nodekeys (taken_from env epoch s) status_valid)),
          DeletesStatus-append_right nodekeys epoch_str status_skipped rewards.events
              (valid ++ skipped)
              (DeletesStatus-append_right nodekeys epoch_str status_skipped valid skipped
                (deleted-DeletesStatus epoch_str nodekeys (taken_from env epoch s) status_skipped)),
        ),
        lookup-without epoch s.watcher.nodekey_tracker,
      )
