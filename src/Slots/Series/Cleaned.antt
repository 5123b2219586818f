-- ===== src/Slots/Series/Cleaned.antt =====
-- A cleaning that runs to its end: its calls in their order, and the tracker after it.
use solana_exporter.Base.{
  ℤ, Text, text_eq, int_eq, false, ◌≡◌, refl, ap, ◌∙◌, arith, List, [], ◌∷◌, ◌++◌, length, none,
  some, Option-cases, lookup, lookup-erase_self, format_int, inl, inr,
}
use solana_exporter.Exec.{◌>>=◌, ◌>>◌}
use solana_exporter.Exec.Done.{done, then-done}
use solana_exporter.Utils.Tracker.{Tracker, get_tracked_validators}
use solana_exporter.Utils.Tracker.Taken.{tracked, not_taken, taken_of}
use solana_exporter.Slots.State.{
  cluster_slots_by_epoch, Call, delete_counter, System, Env, Action, update,
}
use solana_exporter.Slots.Production.{status_valid, status_skipped}
use solana_exporter.Slots.Cleaning.{
  clean_rewards, clean_leader_slots, clean_status, take_tracked, clean_epoch,
}
use solana_exporter.Slots.Series.{clean_rewards-returns, clean_leader_slots-returns}

-- The tracker once an epoch was taken out of it.
abbrev without : ℤ → Tracker → Tracker
without epoch t = (get_tracked_validators epoch t).1

pub lookup-without : (epoch : ℤ) (t : Tracker) → lookup epoch (without epoch t) ≡ none
lookup-without epoch t = elim (Option-cases (lookup epoch t)) [
  | inl absent ↦ ap (λ p. lookup epoch p.1) (not_taken epoch t absent) ∙ absent
  | inr (nodekeys, present) ↦
      ap (λ p. lookup epoch p.1) (taken_of epoch t nodekeys present) ∙ lookup-erase_self epoch t
]

taken_nodekeys :
    (epoch : ℤ) (t : Tracker)
    → elim (get_tracked_validators epoch t).0 [ none ↦ [] | some nodekeys ↦ nodekeys ]
      ≡ tracked epoch t
unfolding get_tracked_validators
taken_nodekeys epoch t = elim (Option-cases (lookup epoch t)) [
  | inl absent ↦ rw (get_tracked_validators, absent) refl
  | inr (nodekeys, present) ↦ rw (get_tracked_validators, present) refl
]

module _ {W F : Type 0} (env : Env W F) where
  abbrev pub taken_from : ℤ → System W → System W
  taken_from epoch s = record s {
    watcher = record s.watcher { nodekey_tracker = without epoch s.watcher.nodekey_tracker };
  }

  take_tracked-done :
      (epoch : ℤ) (s : System W)
      → take_tracked env epoch s
        ≡ done (tracked epoch s.watcher.nodekey_tracker) [] (taken_from epoch s)
  unfolding take_tracked ◌>>=◌ update
  take_tracked-done epoch s =
      ap (λ nodekeys. done nodekeys [] (taken_from epoch s))
        (taken_nodekeys epoch s.watcher.nodekey_tracker)

  -- What is deleted for a status.
  abbrev pub deleted : Text → List Text → System W → Text → List (Call F)
  deleted epoch_str nodekeys s status =
      delete_counter cluster_slots_by_epoch (epoch_str ∷ status ∷ [])
      ∷ (clean_leader_slots env epoch_str status nodekeys s).events

  clean_status-done :
      (epoch_str : Text) (nodekeys : List Text) (status : Text) (s : System W)
      → clean_status env epoch_str nodekeys status s
        ≡ done tt (deleted epoch_str nodekeys s status) s
  unfolding clean_status ◌>>=◌
  clean_status-done epoch_str nodekeys status s =
      let (returns, same) = clean_leader_slots-returns env epoch_str status nodekeys s in
      λ i. record {
        result = returns i;
        events = deleted epoch_str nodekeys s status;
        state = same i;
      }

  clean_rewards-done :
      (epoch_str : Text) (s : System W)
      → length env.config.vote_keys ≡ length env.config.node_keys
      → clean_rewards env epoch_str 0 env.config.node_keys s
        ≡ done tt (clean_rewards env epoch_str 0 env.config.node_keys s).events s
  clean_rewards-done epoch_str s h =
      let (returns, same) =
        clean_rewards-returns env epoch_str 0 env.config.node_keys s (omega arith) in
      λ i. record {
        result = returns i;
        events = (clean_rewards env epoch_str 0 env.config.node_keys s).events;
        state = same i;
      }

  abbrev clean_statuses : Text → List Text → Action W F (Unit {0})
  clean_statuses epoch_str nodekeys =
      clean_status env epoch_str nodekeys status_valid
      >> clean_status env epoch_str nodekeys status_skipped

  statuses-done :
      (epoch_str : Text) (nodekeys : List Text) (s : System W)
      → clean_statuses epoch_str nodekeys s
        ≡ done tt
            (deleted epoch_str nodekeys s status_valid
              ++ deleted epoch_str nodekeys s status_skipped)
            s
  statuses-done epoch_str nodekeys s =
      then-done (clean_status env epoch_str nodekeys status_valid)
        (λ _. clean_status env epoch_str nodekeys status_skipped) s s s tt tt _ _
        (clean_status-done epoch_str nodekeys status_valid s)
        (clean_status-done epoch_str nodekeys status_skipped s)

  -- All that is deleted for an epoch, in order.
  abbrev pub all_deleted : ℤ → System W → List (Call F)
  all_deleted epoch s =
      let nodekeys = tracked epoch s.watcher.nodekey_tracker in
      (clean_rewards env (format_int epoch) 0 env.config.node_keys s).events
      ++ (deleted (format_int epoch) nodekeys (taken_from epoch s) status_valid
          ++ deleted (format_int epoch) nodekeys (taken_from epoch s) status_skipped)

  pub clean_epoch-done :
      (epoch : ℤ) (s : System W)
      → length env.config.vote_keys ≡ length env.config.node_keys
      → clean_epoch env false epoch s ≡ done tt (all_deleted epoch s) (taken_from epoch s)
  unfolding clean_epoch
  clean_epoch-done epoch s h =
      let epoch_str = format_int epoch in
      let nodekeys = tracked epoch s.watcher.nodekey_tracker in
      let t = taken_from epoch s in
      then-done (clean_rewards env epoch_str 0 env.config.node_keys)
        (λ _. take_tracked env epoch >>= clean_statuses epoch_str) s s t tt tt _ _
        (clean_rewards-done epoch_str s h)
        (then-done (take_tracked env epoch) (clean_statuses epoch_str) s t t nodekeys tt [] _
          (take_tracked-done epoch s) (statuses-done epoch_str nodekeys t))
