-- ===== src/Collector/Votes.antt =====
-- `collectVoteAccounts`.
use solana_exporter.Base.{
  ℤ, pos, length, codes, contains, text_eq, Bool, ◌||◌, List, [], ◌∷◌, ◌++◌, some, if◌then◌else◌,
}
use solana_exporter.Exec.{pure, ◌>>=◌, ◌>>◌}
use solana_exporter.Rpc.Types.{Error, Result, ok, err, confirmed, VoteAccount, VoteAccounts}
use solana_exporter.Config.{ExporterConfig}
use solana_exporter.Rpc.Types.{lamports_in_sol}
use solana_exporter.Collector.Desc.{
  validator_active_stake, cluster_active_stake, validator_last_vote, cluster_last_vote,
  validator_root_slot, cluster_root_slot, validator_delinquent, cluster_validator_count, Env,
  Collect, ask, must_new_const_metric, new_invalid_metric,
}

unfoldable pub is_reported : ExporterConfig → VoteAccount → Bool
is_reported config account =
    contains config.node_keys account.node_pubkey || config.comprehensive_vote_account_tracking

-- The sums of the loop over all accounts.
pub record Totals (F : Type 0) : Type 0 where
  pub total_stake : F
  pub max_last_vote : F
  pub max_root_slot : F

module _ {W F : Type 0} (env : Env W F) where
  abbrev float : ℤ → F
  float = env.float.of_int

  unfoldable pub stake_of : VoteAccount → F
  stake_of account = env.float.div (float account.activated_stake) (float lamports_in_sol)

  unfoldable pub add_account : VoteAccount → Totals F → Totals F
  unfolding stake_of
  add_account account totals = record {
    total_stake = env.float.add totals.total_stake (stake_of account);
    max_last_vote = env.float.max totals.max_last_vote (float account.last_vote);
    max_root_slot = env.float.max totals.max_root_slot (float account.root_slot);
  }

  unfoldable pub report_account : VoteAccount → Collect W F (Unit {0})
  unfolding stake_of
  report_account account = do
    must_new_const_metric validator_active_stake (stake_of account)
        (account.vote_pubkey ∷ account.node_pubkey ∷ [])
    must_new_const_metric validator_last_vote (float account.last_vote)
        (account.vote_pubkey ∷ account.node_pubkey ∷ [])
    must_new_const_metric validator_root_slot (float account.root_slot)
        (account.vote_pubkey ∷ account.node_pubkey ∷ [])

  unfoldable pub report_accounts : List VoteAccount → Totals F → Collect W F (Totals F)
  unfolding add_account report_account is_reported
  report_accounts [] totals = pure totals
  report_accounts (account ∷ accounts) totals = do
    if is_reported env.config account then report_account account else pure tt
    report_accounts accounts (add_account account totals)

  unfoldable pub report_delinquent : ℤ → List VoteAccount → Collect W F (Unit {0})
  unfolding is_reported
  report_delinquent value [] = pure tt
  report_delinquent value (account ∷ accounts) = do
    if is_reported env.config account
        then must_new_const_metric validator_delinquent (float value)
            (account.vote_pubkey ∷ account.node_pubkey ∷ [])
        else pure tt
    report_delinquent value accounts

  unfoldable pub report_vote_error : Error → Collect W F (Unit {0})
  report_vote_error e = do
    new_invalid_metric validator_active_stake (some e)
    new_invalid_metric cluster_active_stake (some e)
    new_invalid_metric validator_last_vote (some e)
    new_invalid_metric cluster_last_vote (some e)
    new_invalid_metric validator_root_slot (some e)
    new_invalid_metric cluster_root_slot (some e)
    new_invalid_metric validator_delinquent (some e)
    new_invalid_metric cluster_validator_count (some e)

  abbrev no_totals : Totals F
  no_totals = record {
    total_stake = float (pos 0);
    max_last_vote = float (pos 0);
    max_root_slot = float (pos 0);
  }

  unfoldable pub report_vote_accounts : Result VoteAccounts → Collect W F (Unit {0})
  unfolding report_accounts report_delinquent report_vote_error
  report_vote_accounts (err e) = report_vote_error e
  report_vote_accounts (ok accounts) = do
    totals ← report_accounts (accounts.current ++ accounts.delinquent) no_totals
    report_delinquent (pos 0) accounts.current
    report_delinquent (pos 1) accounts.delinquent
    must_new_const_metric cluster_active_stake totals.total_stake []
    must_new_const_metric cluster_last_vote totals.max_last_vote []
    must_new_const_metric cluster_root_slot totals.max_root_slot []
    must_new_const_metric cluster_validator_count (float (pos (length accounts.current)))
        (codes "current" ∷ [])
    must_new_const_metric cluster_validator_count (float (pos (length accounts.delinquent)))
        (codes "delinquent" ∷ [])

  unfoldable pub collect_vote_accounts : Collect W F (Unit {0})
  unfolding report_vote_accounts
  collect_vote_accounts = if env.config.light_mode then pure tt else do
    answer ← ask (env.outside.rpc_client.get_vote_accounts confirmed)
    report_vote_accounts answer
