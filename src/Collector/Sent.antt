-- ===== src/Collector/Sent.antt =====
-- What a scrape sends: runs of the collector that return, and send metrics of some descriptors only, with
-- labels that fit them.
pub mod Parts
use solana_exporter.Base.{
  nat_eqb_iff, length, ℤ, Text, Bool, List, [], ◌∷◌, Map, Option, ◌≡◌, refl, All, All-append, true,
  false, Option-cases, inl, inr,
}
use solana_exporter.Exec.{Outcome, returned, stopped, ◌>>=◌}
use solana_exporter.Exec.Logic.{Logic, Post, Holds, Holds-pure, Holds-gets, Holds-bind, Holds-if}
use solana_exporter.Rpc.Types.{Error, Result, ok, err, VoteAccount, VoteAccounts}
use solana_exporter.Api
use solana_exporter.Utils.Health.{Health}
use solana_exporter.Collector.Desc.{
  node_version, node_is_healthy, node_num_slots_behind, node_minimum_ledger_slot,
  node_first_available_block, node_identity, node_is_active, foundation_min_required_version,
  node_is_outdated, node_needs_update, GaugeDesc, Metric, const_metric, invalid_metric,
  variable_labels, Scrape, Env, Collect, ask, ask_api, set_is_firedancer, must_new_const_metric,
  new_invalid_metric,
}
use solana_exporter.Collector.Votes.{
  Totals, report_accounts, report_delinquent, report_vote_accounts, collect_vote_accounts,
}
use solana_exporter.Collector.Node.{
  report_version, report_identity, collect_identity, report_slot, collect_minimum_ledger_slot,
  collect_first_available_block, emit_balances, report_balances, collect_balances,
  report_is_healthy, report_num_slots_behind, collect_health,
}
use solana_exporter.Collector.Required.{
  report_required, node_is_outdated_of, collect_node_is_outdated, node_needs_update_of,
  collect_node_needs_update,
}
use solana_exporter.Collector.Collecting.{
  detect_firedancer, report_min_required, collect_for_cluster, collect,
}

-- The metrics of the node itself, and the version that the foundation requires.
abbrev pub is_own : GaugeDesc → Bool
is_own node_version = true
is_own node_is_healthy = true
is_own node_num_slots_behind = true
is_own node_minimum_ledger_slot = true
is_own node_first_available_block = true
is_own node_identity = true
is_own node_is_active = true
is_own foundation_min_required_version = true
is_own node_is_outdated = true
is_own node_needs_update = true
is_own _ = false

abbrev pub desc_of : {F : Type 0} → Metric F → GaugeDesc
desc_of (const_metric desc value labels) = desc
desc_of (invalid_metric desc e) = desc

-- A constant metric has a value for each label of its descriptor.
abbrev pub IsLabelled : {F : Type 0} → Metric F → Type 0
IsLabelled (const_metric desc value labels) = length labels ≡ length (variable_labels desc)
IsLabelled (invalid_metric desc e) = Unit

module _ {F : Type 0} (allowed : GaugeDesc → Bool) where
  abbrev pub IsFitting : Metric F → Type 0
  IsFitting metric = (allowed (desc_of metric) ≡ true) × IsLabelled metric

module _ {W F : Type 0} (allowed : GaugeDesc → Bool) where
  abbrev Sends : Scrape W → List (Metric F) → Scrape W → Type 0
  Sends s es t = All (IsFitting allowed) es

  abbrev Never : Scrape W → List (Metric F) → Scrape W → Type 0
  Never s es t = ⊥

  pub Sends-logic : Logic Sends Never
  Sends-logic = record {
    here = λ s. tt;
    then_return = λ s t u es fs p q. All-append (IsFitting allowed) es fs p q;
    then_stop = λ s t u es fs p q. q;
  }

  abbrev pub IsComplete : {A : Type 0} → Collect W F A → Type 0
  IsComplete m = Holds Sends Never m

  pub ask-IsComplete : {A : Type 0} (call : W → A × W) → IsComplete (ask call)
  unfolding ask
  ask-IsComplete call = record { at = λ s. tt }

  pub ask_api-IsComplete :
      {A : Type 0} (call : Api.State W → A × Api.State W) → IsComplete (ask_api call)
  unfolding ask_api
  ask_api-IsComplete call = record { at = λ s. tt }

  pub set_is_firedancer-IsComplete : (b : Bool) → IsComplete (set_is_firedancer b)
  unfolding set_is_firedancer
  set_is_firedancer-IsComplete b = record { at = λ s. tt }

  pub new_invalid_metric-IsComplete :
      (desc : GaugeDesc) (e : Option Error)
      → allowed desc ≡ true
      → IsComplete (new_invalid_metric desc e)
  unfolding new_invalid_metric ◌>>=◌
  new_invalid_metric-IsComplete desc e h = record { at = λ s. ((h, tt), tt) }

  pub must_new_const_metric-IsComplete :
      (desc : GaugeDesc) (value : F) (labels : List Text)
      → allowed desc ≡ true
      → length labels ≡ length (variable_labels desc)
      → IsComplete (must_new_const_metric desc value labels)
  unfolding must_new_const_metric ◌>>=◌
  must_new_const_metric-IsComplete desc value labels a h =
      let fits = (nat_eqb_iff (length labels) (length (variable_labels desc))).1 h in
      record { at = λ s. rw fits ((a, h), tt) }

  Post-Fitting :
      {A : Type 0} (s t : Scrape W) (es : List (Metric F)) (o : Outcome A)
      → Post Sends Never s o es t
      → ((a : A) × (o ≡ returned a)) × All (IsFitting allowed) es
  Post-Fitting s t es (returned a) p = ((a, refl), p)
  Post-Fitting s t es (stopped why) p = absurd p

  -- What is known of a run.
  pub IsComplete-events :
      {A : Type 0} (m : Collect W F A) (s : Scrape W)
      → IsComplete m
      → ((a : A) × ((m s).result ≡ returned a)) × All (IsFitting allowed) (m s).events
  IsComplete-events m s h = Post-Fitting s (m s).state (m s).events (m s).result (h.at s)

pub ruleset complete_rules = (
  Sends-logic, Holds-pure, Holds-gets, Holds-bind, Holds-if, ask-IsComplete, ask_api-IsComplete,
  set_is_firedancer-IsComplete, new_invalid_metric-IsComplete, must_new_const_metric-IsComplete,
  refl,
)
