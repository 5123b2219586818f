-- ===== src/Collector/Accounts.antt =====
-- What a scrape sends of the vote accounts.
use solana_exporter.Base.{
  ℤ, pos, length, codes, Text, Bool-cases, false, List, [], ◌∷◌, ◌++◌, map, ◌≡◌, refl, ap, ◌∙◌, inl,
  inr, if◌then◌else◌,
}
use solana_exporter.Exec.{pure, ◌>>=◌, ◌>>◌}
use solana_exporter.Exec.Done.{done, then-done}
use solana_exporter.Rpc.Types.{VoteAccount, VoteAccounts, confirmed, ok}
use solana_exporter.Collector.Desc.{
  Metric, const_metric, validator_active_stake, cluster_active_stake, validator_last_vote,
  cluster_last_vote, validator_root_slot, cluster_root_slot, validator_delinquent,
  cluster_validator_count, variable_labels, Scrape, Env, Collect, ask, must_new_const_metric,
}
use solana_exporter.Collector.Votes.{
  is_reported, Totals, stake_of, add_account, report_account, report_accounts, report_delinquent,
  report_vote_accounts, collect_vote_accounts,
}

module _ {W F : Type 0} (env : Env W F) where
  abbrev float : ℤ → F
  float = env.float.of_int

  -- The accounts that are reported, in their order.
  abbrev reported : List VoteAccount → List VoteAccount
  reported [] = []
  reported (account ∷ accounts) =
      let rest = reported accounts in
      if is_reported env.config account then account ∷ rest else rest

  abbrev keys_of : VoteAccount → List Text
  keys_of account = account.vote_pubkey ∷ account.node_pubkey ∷ []

  abbrev account_metrics : VoteAccount → List (Metric F)
  account_metrics account =
      const_metric validator_active_stake (stake_of env account) (keys_of account)
      ∷ const_metric validator_last_vote (float account.last_vote) (keys_of account)
      ∷ const_metric validator_root_slot (float account.root_slot) (keys_of account)
      ∷ []

  abbrev metrics_of : List VoteAccount → List (Metric F)
  metrics_of [] = []
  metrics_of (account ∷ accounts) = account_metrics account ++ metrics_of accounts

  abbrev delinquency : ℤ → VoteAccount → Metric F
  delinquency value account = const_metric validator_delinquent (float value) (keys_of account)

  -- The left fold of the loop over all accounts.
  abbrev folded : (F → F → F) → (VoteAccount → F) → List VoteAccount → F → F
  folded f value [] x = x
  folded f value (account ∷ accounts) x = folded f value accounts (f x (value account))

  abbrev cluster_metrics : VoteAccounts → List (Metric F)
  cluster_metrics accounts =
      let all = accounts.current ++ accounts.delinquent in
      const_metric cluster_active_stake (folded env.float.add (stake_of env) all (float (pos 0))) []
      ∷ const_metric cluster_last_vote
          (folded env.float.max (λ a. float a.last_vote) all (float (pos 0))) []
      ∷ const_metric cluster_root_slot
          (folded env.float.max (λ a. float a.root_slot) all (float (pos 0))) []
      ∷ const_metric cluster_validator_count (float (pos (length accounts.current)))
          (codes "current" ∷ [])
      ∷ const_metric cluster_validator_count (float (pos (length accounts.delinquent)))
          (codes "delinquent" ∷ [])
      ∷ []

  -- The metrics of the vote accounts.
  abbrev pub vote_metrics : VoteAccounts → List (Metric F)
  vote_metrics accounts =
      metrics_of (reported (accounts.current ++ accounts.delinquent))
      ++ (map (delinquency (pos 0)) (reported accounts.current)
          ++ (map (delinquency (pos 1)) (reported accounts.delinquent) ++ cluster_metrics accounts))

  abbrev totals_after : List VoteAccount → Totals F → Totals F
  totals_after accounts t = record {
    total_stake = folded env.float.add (stake_of env) accounts t.total_stake;
    max_last_vote = folded env.float.max (λ a. float a.last_vote) accounts t.max_last_vote;
    max_root_slot = folded env.float.max (λ a. float a.root_slot) accounts t.max_root_slot;
  }

  abbrev report_first : VoteAccount → Collect W F (Unit {0})
  report_first account =
      if is_reported env.config account then report_account env account else pure tt

  report_first-done :
      (account : VoteAccount) (s : Scrape W)
      → report_first account s ≡ done tt (metrics_of (reported (account ∷ []))) s
  unfolding report_account must_new_const_metric variable_labels ◌>>=◌
  report_first-done account s = elim (Bool-cases (is_reported env.config account)) [
    | inl told ↦ rw told refl
    | inr untold ↦ rw untold refl
  ]

  metrics_of-cons :
      (account : VoteAccount) (accounts : List VoteAccount)
      → metrics_of (reported (account ∷ [])) ++ metrics_of (reported accounts)
        ≡ metrics_of (reported (account ∷ accounts))
  metrics_of-cons account accounts = elim (Bool-cases (is_reported env.config account)) [
    | inl told ↦ rw told refl
    | inr untold ↦ rw untold refl
  ]

  report_accounts-done :
      (accounts : List VoteAccount) (t : Totals F) (s : Scrape W)
      → report_accounts env accounts t s
        ≡ done (totals_after accounts t) (metrics_of (reported accounts)) s
  unfolding report_accounts add_account ◌>>=◌
  report_accounts-done [] t s = refl
  report_accounts-done (account ∷ accounts) t s =
      then-done (report_first account)
        (λ _. report_accounts env accounts (add_account env account t)) s s s tt _ _ _
        (report_first-done account s) (report_accounts-done accounts (add_account env account t) s)
      ∙ ap (λ es. done (totals_after (account ∷ accounts) t) es s)
          (metrics_of-cons account accounts)

  abbrev delinquent_first : ℤ → VoteAccount → Collect W F (Unit {0})
  delinquent_first value account =
      if is_reported env.config account
      then must_new_const_metric validator_delinquent (float value) (keys_of account)
      else pure tt

  delinquent_first-done :
      (value : ℤ) (account : VoteAccount) (s : Scrape W)
      → delinquent_first value account s
        ≡ done tt (map (delinquency value) (reported (account ∷ []))) s
  unfolding must_new_const_metric variable_labels ◌>>=◌
  delinquent_first-done value account s = elim (Bool-cases (is_reported env.config account)) [
    | inl told ↦ rw told refl
    | inr untold ↦ rw untold refl
  ]

  delinquency-cons :
      (value : ℤ) (account : VoteAccount) (accounts : List VoteAccount)
      → map (delinquency value) (reported (account ∷ []))
          ++ map (delinquency value) (reported accounts)
        ≡ map (delinquency value) (reported (account ∷ accounts))
  delinquency-cons value account accounts = elim (Bool-cases (is_reported env.config account)) [
    | inl told ↦ rw told refl
    | inr untold ↦ rw untold refl
  ]

  report_delinquent-done :
      (value : ℤ) (accounts : List VoteAccount) (s : Scrape W)
      → report_delinquent env value accounts s
        ≡ done tt (map (delinquency value) (reported accounts)) s
  unfolding report_delinquent ◌>>=◌
  report_delinquent-done value [] s = refl
  report_delinquent-done value (account ∷ accounts) s =
      then-done (delinquent_first value account) (λ _. report_delinquent env value accounts) s s s
        tt tt _ _ (delinquent_first-done value account s) (report_delinquent-done value accounts s)
      ∙ ap (λ es. done tt es s) (delinquency-cons value account accounts)

  abbrev sum_up : VoteAccounts → Totals F → Collect W F (Unit {0})
  sum_up accounts totals = do
    must_new_const_metric cluster_active_stake totals.total_stake []
    must_new_const_metric cluster_last_vote totals.max_last_vote []
    must_new_const_metric cluster_root_slot totals.max_root_slot []
    must_new_const_metric cluster_validator_count (float (pos (length accounts.current)))
        (codes "current" ∷ [])
    must_new_const_metric cluster_validator_count (float (pos (length accounts.delinquent)))
        (codes "delinquent" ∷ [])

  abbrev no_totals : Totals F
  no_totals = record {
    total_stake = float (pos 0);
    max_last_vote = float (pos 0);
    max_root_slot = float (pos 0);
  }

  sum_up-done :
      (accounts : VoteAccounts) (s : Scrape W)
      → sum_up accounts (totals_after (accounts.current ++ accounts.delinquent) no_totals) s
        ≡ done tt (cluster_metrics accounts) s
  unfolding must_new_const_metric variable_labels ◌>>=◌
  sum_up-done accounts s = refl

  report_vote_accounts-done :
      (accounts : VoteAccounts) (s : Scrape W)
      → report_vote_accounts env (ok accounts) s ≡ done tt (vote_metrics accounts) s
  unfolding report_vote_accounts
  report_vote_accounts-done accounts s =
      let all = accounts.current ++ accounts.delinquent in
      then-done (report_accounts env all no_totals)
        (λ totals.
          report_delinquent env (pos 0) accounts.current
          >> (report_delinquent env (pos 1) accounts.delinquent >> sum_up accounts totals))
        s s s (totals_after all no_totals) tt _ _ (report_accounts-done all no_totals s)
        (then-done (report_delinquent env (pos 0) accounts.current)
          (λ _.
            report_delinquent env (pos 1) accounts.delinquent
            >> sum_up accounts (totals_after all no_totals))
          s s s tt tt _ _ (report_delinquent-done (pos 0) accounts.current s)
          (then-done (report_delinquent env (pos 1) accounts.delinquent)
            (λ _. sum_up accounts (totals_after all no_totals)) s s s tt tt _ _
            (report_delinquent-done (pos 1) accounts.delinquent s) (sum_up-done accounts s)))

  -- Not in light mode, when the node answers with the vote accounts: the collection of the vote accounts
  -- returns and sends exactly these metrics. For each reported account, those with a configured nodekey
  -- or all of them if so configured, its stake, last vote and root slot, first of the current accounts and
  -- then of the delinquent ones; for each reported current account that it is not delinquent, and for each
  -- reported delinquent one that it is; and of the cluster the sum of the stakes, the greatest last vote
  -- and root slot over all accounts, reported or not, and the numbers of current and delinquent accounts.
  pub collect_vote_accounts-vote_metrics :
      (accounts : VoteAccounts) (s : Scrape W)
      → env.config.light_mode ≡ false
      → let answer = env.outside.rpc_client.get_vote_accounts confirmed s.world in
        answer.0 ≡ ok accounts
        → collect_vote_accounts env s
          ≡ done tt (vote_metrics accounts) (record s { world = answer.1 })
  unfolding collect_vote_accounts ask ◌>>=◌
  collect_vote_accounts-vote_metrics accounts s full answered =
      rw (full, answered)
        (report_vote_accounts-done accounts
          (record s { world = (env.outside.rpc_client.get_vote_accounts confirmed s.world).1 }))
