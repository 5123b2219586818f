-- ===== src/Slots/Series/Apart.antt =====
-- A cleaning and the watching of another epoch: no series is touched by both.
use solana_exporter.Base.{
  ℕ, suc, ℤ, Text, format_int, format_int_injective, IsInt64, Bool, true, false, All-In, In, List,
  [], ◌∷◌, some, some_injective, get_elem?, Option-cases, ◌≡◌, ◌≢◌, refl, sym, ◌∙◌, inl, inr,
  text_eq,
}
use solana_exporter.Exec.Logic.{Given, Post-at, Post-either, Holds, Holds-map}
use solana_exporter.Slots.Each.{Each, Each-events, each_rules}
use solana_exporter.Slots.State.{Counter, Call, add_counter, delete_counter, System, Env, Action}
use solana_exporter.Slots.Rewards.{votekey_at}
use solana_exporter.Slots.Cleaning.{
  clean_rewards, clean_leader_slots, clean_status, take_tracked, clean_epoch,
}
use solana_exporter.Slots.Watching.{move_slot_watermark, close_rewards}
use solana_exporter.Slots.Series.Labels.{
  epoch_label, AddsTo, DeletesOf, IsOn, Adds, WithinSoFar, StaysIn,
}
use solana_exporter.Slots.Series.Additions.{move_slot_watermark-StaysIn, close_rewards-StaysIn}

-- Every call of a run deletes a series of the epoch.
abbrev IsDeletion : {W F A : Type 0} → ℤ → Action W F A → Type 0
IsDeletion e m = Each (DeletesOf e) m

ruleset deletion_rules = (each_rules, refl)

module _ {W F : Type 0} (env : Env W F) (e : ℤ) where
  votekey_at-IsDeletion : (i : ℕ) → IsDeletion e (votekey_at env i)
  unfolding votekey_at
  votekey_at-IsDeletion i = elim (Option-cases (get_elem? env.config.vote_keys i)) [
    | inl h ↦ rw (h, votekey_at) (search deletion_rules)
    | inr (k, h) ↦ rw (h, votekey_at) (search deletion_rules)
  ]

  clean_rewards-IsDeletion :
      (i : ℕ) (nodekeys : List Text) → IsDeletion e (clean_rewards env (format_int e) i nodekeys)
  unfolding clean_rewards
  clean_rewards-IsDeletion i [] = search deletion_rules
  clean_rewards-IsDeletion i (nodekey ∷ nodekeys) =
      let ih = clean_rewards-IsDeletion (suc i) nodekeys in
      search (deletion_rules, votekey_at-IsDeletion) depth 12

  clean_leader_slots-IsDeletion :
      (status : Text) (nodekeys : List Text)
      → IsDeletion e (clean_leader_slots env (format_int e) status nodekeys)
  unfolding clean_leader_slots
  clean_leader_slots-IsDeletion status [] = search deletion_rules
  clean_leader_slots-IsDeletion status (nodekey ∷ nodekeys) =
      let ih = clean_leader_slots-IsDeletion status nodekeys in search deletion_rules

  clean_status-IsDeletion :
      (nodekeys : List Text) (status : Text)
      → IsDeletion e (clean_status env (format_int e) nodekeys status)
  unfolding clean_status
  clean_status-IsDeletion nodekeys status = search (deletion_rules, clean_leader_slots-IsDeletion)

  take_tracked-IsDeletion : IsDeletion e (take_tracked env e)
  unfolding take_tracked
  take_tracked-IsDeletion = search deletion_rules depth 12

  clean_epoch-IsDeletion : (cancelled : Bool) → IsDeletion e (clean_epoch env cancelled e)
  unfolding clean_epoch
  clean_epoch-IsDeletion true = search deletion_rules
  clean_epoch-IsDeletion false =
      search
        (deletion_rules, clean_rewards-IsDeletion, take_tracked-IsDeletion, clean_status-IsDeletion)
        depth 12

other_epoch :
    {F : Type 0} (d e : ℤ) (counter : Counter) (labels : List Text) (x : F)
    → IsInt64 d
    → IsInt64 e
    → d ≢ e
    → epoch_label counter labels ≡ some (format_int d)
    → ¬ AddsTo e (add_counter counter labels x)
other_epoch d e counter labels x h k differ deleted (_, inl not_labelled) = cc
other_epoch d e counter labels x h k differ deleted (_, inr added) =
    differ (format_int_injective d e h k (some_injective (sym deleted ∙ added)))

module _ {W F : Type 0} (env : Env W F) where
  deleted_label :
      (cancelled : Bool) (d : ℤ) (s : System W) (c : Call F)
      → In c (clean_epoch env cancelled d s).events
      → DeletesOf d c
  deleted_label cancelled d s c m =
      let r = clean_epoch env cancelled d s in
      All-In (DeletesOf d) r.events c
        (Each-events (DeletesOf d) (clean_epoch env cancelled d) s
          (clean_epoch-IsDeletion env d cancelled))
        m

  StaysIn-Adds :
      {A : Type 0} (e : ℤ) (m : Action W F A)
      → StaysIn e m
      → Holds (Given (IsOn e) (Adds e)) (WithinSoFar e) m
  StaysIn-Adds e m h = Holds-map m (λ s t es f here. (f here).0) (λ s t es f. f) h

  added_label :
      {A : Type 0} (e : ℤ) (m : Action W F A) (t : System W) (c : Call F)
      → StaysIn e m
      → t.watcher.current_epoch ≡ e
      → In c (m t).events
      → AddsTo e c
  added_label e m t c stays here found =
      All-In (AddsTo e) (m t).events c
        (Post-either (Adds e) t (m t).state (m t).events (m t).result (
          Post-at (IsOn e) (Adds e) (Adds e) t (m t).state (m t).events (m t).result
            ((StaysIn-Adds e m stays).at t) here))
        found

  -- Whatever the node answers and whether they return or stop: a cleaning of one epoch, from any state,
  -- deletes no series that, while another epoch is watched, `moveSlotWatermark` or the inflation rewards
  -- of that epoch add to.
  pub clean_epoch-apart :
      (cancelled : Bool) (d e to : ℤ) (s t : System W)
      → IsInt64 d
      → IsInt64 e
      → d ≢ e
      → t.watcher.current_epoch ≡ e
      → (counter : Counter) (labels : List Text) (x : F)
      → In (delete_counter counter labels) (clean_epoch env cancelled d s).events
      → (¬ In (add_counter counter labels x) (move_slot_watermark env to t).events)
        × (¬ In (add_counter counter labels x) (close_rewards env e t).events)
  clean_epoch-apart cancelled d e to s t h k differ here counter labels x found =
      let deleted = deleted_label cancelled d s (delete_counter counter labels) found in
      let apart = other_epoch d e counter labels x h k differ deleted in
      (
        (λ m. apart (
            added_label e (move_slot_watermark env to) t _ (move_slot_watermark-StaysIn env e to)
              here m)),
        (λ m. apart (added_label e (close_rewards env e) t _ (close_rewards-StaysIn env e) here m)),
      )
