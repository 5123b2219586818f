-- ===== src/Collector/Sent/Parts.antt =====
-- Every part of a scrape returns, with labels that fit; the metrics of validators, of the cluster and of
-- balances are sent out of light mode only.
use solana_exporter.Base.{
  length, ℤ, Text, Bool, List, [], ◌∷◌, Map, Option, ◌≡◌, refl, Bool-cases, true, false,
  Option-cases, inl, inr,
}
use solana_exporter.Exec.Logic.{Holds-gets, Holds-bind}
use solana_exporter.Rpc.Types.{Error, Result, ok, err, VoteAccount, VoteAccounts}
use solana_exporter.Api
use solana_exporter.Utils.Health.{Health}
use solana_exporter.Collector.Desc.{GaugeDesc, variable_labels, Env}
use solana_exporter.Collector.Sent.{
  is_own, IsComplete, Sends-logic, must_new_const_metric-IsComplete, complete_rules,
}
use solana_exporter.Collector.Votes.{
  Totals, report_accounts, report_delinquent, report_vote_accounts, collect_vote_accounts,
}
use solana_exporter.Collector.Node.{
  report_version, report_identity, collect_identity, report_slot, collect_minimum_ledger_slot,
  collect_first_available_block, emit_balances, report_balances, collect_balances,
  report_is_healthy, report_num_slots_behind, collect_health,
}
use solana_exporter.Collector.Required.{
  report_required, node_is_outdated_of, collect_node_is_outdated, node_needs_update_of,
  collect_node_needs_update,
}
use solana_exporter.Collector.Collecting.{
  detect_firedancer, report_min_required, collect_for_cluster, collect,
}

module _ {W F : Type 0} (env : Env W F) (allowed : GaugeDesc → Bool)
    (all : (desc : GaugeDesc) → allowed desc ≡ true) where
  report_accounts-IsComplete :
      (accounts : List VoteAccount) (totals : Totals F)
      → IsComplete allowed (report_accounts env accounts totals)
  unfolding report_accounts variable_labels
  report_accounts-IsComplete [] totals = search (complete_rules, all)
  report_accounts-IsComplete (account ∷ accounts) totals =
      search (complete_rules, all, report_accounts-IsComplete accounts) depth 12

  report_delinquent-IsComplete :
      (value : ℤ) (accounts : List VoteAccount)
      → IsComplete allowed (report_delinquent env value accounts)
  unfolding report_delinquent variable_labels
  report_delinquent-IsComplete value [] = search (complete_rules, all)
  report_delinquent-IsComplete value (account ∷ accounts) =
      let ih = report_delinquent-IsComplete value accounts in search (complete_rules, all) depth 12

  report_vote_accounts-IsComplete :
      (answer : Result VoteAccounts) → IsComplete allowed (report_vote_accounts env answer)
  unfolding report_vote_accounts variable_labels
  report_vote_accounts-IsComplete (err e) = search (complete_rules, all) depth 14
  report_vote_accounts-IsComplete (ok accounts) =
      search (complete_rules, all, report_accounts-IsComplete, report_delinquent-IsComplete) depth
        14

  emit_balances-IsComplete :
      (balances : Map Text F) → IsComplete allowed (emit_balances env balances)
  unfolding emit_balances variable_labels
  emit_balances-IsComplete [] = search (complete_rules, all)
  emit_balances-IsComplete ((address, balance) ∷ balances) =
      let ih = emit_balances-IsComplete balances in search (complete_rules, all) depth 8

  report_balances-IsComplete :
      (answer : Result (Map Text F)) → IsComplete allowed (report_balances env answer)
  unfolding report_balances
  report_balances-IsComplete (err e) = search (complete_rules, all)
  report_balances-IsComplete (ok balances) = emit_balances-IsComplete balances

module _ {W F : Type 0} (env : Env W F) (allowed : GaugeDesc → Bool)
    (own : (desc : GaugeDesc) → is_own desc ≡ true → allowed desc ≡ true) where
  report_version-IsComplete :
      (b : Bool) (answer : Result Text) → IsComplete allowed (report_version env b answer)
  unfolding report_version variable_labels
  report_version-IsComplete b (err e) = search (complete_rules, own)
  report_version-IsComplete b (ok version) = search (complete_rules, own)

  report_identity-IsComplete :
      (answer : Result Text) → IsComplete allowed (report_identity env answer)
  unfolding report_identity variable_labels
  report_identity-IsComplete (err e) = search (complete_rules, own)
  report_identity-IsComplete (ok identity) = search (complete_rules, own) depth 8

  report_slot-IsComplete :
      (desc : GaugeDesc) (answer : Result ℤ)
      → allowed desc ≡ true
      → variable_labels desc ≡ []
      → IsComplete allowed (report_slot env desc answer)
  unfolding report_slot
  report_slot-IsComplete desc (err e) a h = search (complete_rules, a)
  report_slot-IsComplete desc (ok slot) a h =
      must_new_const_metric-IsComplete allowed desc (env.float.of_int slot) [] a (rw h refl)

  report_is_healthy-IsComplete :
      (e : Option Error) (health : Health) → IsComplete allowed (report_is_healthy env e health)
  unfolding report_is_healthy variable_labels
  report_is_healthy-IsComplete e health = elim (Option-cases health.is_healthy_err) [
    | inl h ↦ rw (h, report_is_healthy) (search (complete_rules, own))
    | inr (reason, h) ↦ rw (h, report_is_healthy) (search (complete_rules, own))
  ]

  report_num_slots_behind-IsComplete :
      (health : Health) → IsComplete allowed (report_num_slots_behind env health)
  unfolding report_num_slots_behind variable_labels
  report_num_slots_behind-IsComplete health = elim (Option-cases health.num_slots_behind_err) [
    | inl h ↦ rw (h, report_num_slots_behind) (search (complete_rules, own))
    | inr (reason, h) ↦ rw (h, report_num_slots_behind) (search (complete_rules, own))
  ]

  collect_health-IsComplete : IsComplete allowed (collect_health env)
  unfolding collect_health
  collect_health-IsComplete =
      search (complete_rules, own, report_is_healthy-IsComplete, report_num_slots_behind-IsComplete)
        depth 8

  report_required-IsComplete :
      (desc : GaugeDesc) (version cluster : Text) (answer : Result Api.Required)
      → allowed desc ≡ true
      → length (variable_labels desc) ≡ 5
      → IsComplete allowed (report_required env desc version cluster answer)
  unfolding report_required
  report_required-IsComplete desc version cluster (err e) a h = search (complete_rules, a)
  report_required-IsComplete desc version cluster (ok r) a h =
      Holds-bind (Sends-logic allowed) _ _ (Holds-gets (Sends-logic allowed) _)
        (λ b. must_new_const_metric-IsComplete allowed desc _ _ a (rw h refl))

  node_is_outdated_of-IsComplete :
      (version : Result Text) → IsComplete allowed (node_is_outdated_of env version)
  unfolding node_is_outdated_of variable_labels
  node_is_outdated_of-IsComplete (err e) = search (complete_rules, own)
  node_is_outdated_of-IsComplete (ok version) =
      search (complete_rules, own, report_required-IsComplete) depth 8

  node_needs_update_of-IsComplete :
      (version : Result Text) → IsComplete allowed (node_needs_update_of env version)
  unfolding node_needs_update_of variable_labels
  node_needs_update_of-IsComplete (err e) = search (complete_rules, own)
  node_needs_update_of-IsComplete (ok version) =
      search (complete_rules, own, report_required-IsComplete) depth 8

  detect_firedancer-IsComplete :
      (version : Result Text) → IsComplete allowed (detect_firedancer env version)
  unfolding detect_firedancer
  detect_firedancer-IsComplete (err e) = search (complete_rules, own)
  detect_firedancer-IsComplete (ok version) = search (complete_rules, own) depth 8

  report_min_required-IsComplete :
      (answer : Result Api.Required) → IsComplete allowed (report_min_required env answer)
  unfolding report_min_required variable_labels
  report_min_required-IsComplete (err e) = search (complete_rules, own)
  report_min_required-IsComplete (ok r) = search (complete_rules, own)

  collect_for_cluster-IsComplete :
      (cluster : Result Text) → IsComplete allowed (collect_for_cluster env cluster)
  unfolding collect_for_cluster
  collect_for_cluster-IsComplete (err e) = report_min_required-IsComplete (err e)
  collect_for_cluster-IsComplete (ok cluster) =
      search (complete_rules, own, report_min_required-IsComplete) depth 8

  module _ (others : env.config.light_mode ≡ false → (desc : GaugeDesc) → allowed desc ≡ true) where
    collect_vote_accounts-IsComplete : IsComplete allowed (collect_vote_accounts env)
    unfolding collect_vote_accounts
    collect_vote_accounts-IsComplete = elim (Bool-cases env.config.light_mode) [
      | inl light ↦ rw light (search complete_rules)
      | inr full ↦ rw full (
          search (complete_rules, report_vote_accounts-IsComplete env allowed (others full)) depth
            8)
    ]

    collect_balances-IsComplete : IsComplete allowed (collect_balances env)
    unfolding collect_balances
    collect_balances-IsComplete = elim (Bool-cases env.config.light_mode) [
      | inl light ↦ rw light (search complete_rules)
      | inr full ↦
          rw full
            (search (complete_rules, report_balances-IsComplete env allowed (others full)) depth 8)
    ]

    pub collect-IsComplete : IsComplete allowed (collect env)
    unfolding collect collect_minimum_ledger_slot collect_first_available_block collect_identity
        collect_node_is_outdated collect_node_needs_update variable_labels
    collect-IsComplete =
        search
          (
            complete_rules, own, collect_health-IsComplete, report_slot-IsComplete,
            collect_vote_accounts-IsComplete, detect_firedancer-IsComplete,
            report_version-IsComplete, report_identity-IsComplete, collect_balances-IsComplete,
            collect_for_cluster-IsComplete, node_is_outdated_of-IsComplete,
            node_needs_update_of-IsComplete,
          )
          depth 24
