-- ===== src/Slots/Rewards.antt =====
-- `fetchAndEmitInflationRewards`.
use solana_exporter.Base.{
  ℕ, suc, ℤ, Text, format_int, get_elem?, List, [], ◌∷◌, none, some, if◌then◌else◌,
}
use solana_exporter.Exec.{pure, emit, stop, panic, ◌>>=◌, ◌>>◌}
use solana_exporter.Rpc.Types.{Result, ok, err, wrap, confirmed, InflationReward}
use solana_exporter.Slots.State.{
  inflation_rewards, add_to_counter, get_inflation_reward, Env, Action, ask,
}
use solana_exporter.Rpc.Types.{lamports_in_sol}
use solana_exporter.Base.{codes}

module _ {W F : Type 0} (env : Env W F) where
  -- `c.config.VoteKeys[i]`: an index out of range panics.
  unfoldable pub votekey_at : ℕ → Action W F Text
  votekey_at i = elim (get_elem? env.config.vote_keys i) [ none ↦ stop panic | some k ↦ pure k ]

  -- The loop, from index `i` on.
  unfoldable pub emit_inflation_rewards : ℤ → ℕ → List InflationReward → Action W F (Unit {0})
  unfolding votekey_at
  emit_inflation_rewards epoch i [] = pure tt
  emit_inflation_rewards epoch i (reward_info ∷ reward_infos) = do
    address ← votekey_at i
    add_to_counter env.float inflation_rewards (address ∷ format_int epoch ∷ [])
        (env.float.div (env.float.of_int reward_info.amount) (env.float.of_int lamports_in_sol))
    emit_inflation_rewards epoch (suc i) reward_infos

  unfoldable pub emit_reward_answer :
      ℤ → Result (List InflationReward) → Action W F (Result (Unit {0}))
  unfolding emit_inflation_rewards
  emit_reward_answer epoch (err e) = pure (err (wrap (codes "error fetching inflation rewards") e))
  emit_reward_answer epoch (ok reward_infos) = do
    emit_inflation_rewards epoch 0 reward_infos
    pure (ok tt)

  unfoldable pub fetch_and_emit_inflation_rewards : ℤ → Action W F (Result (Unit {0}))
  unfolding emit_reward_answer
  fetch_and_emit_inflation_rewards epoch = if env.config.light_mode then pure (ok tt) else do
    emit (get_inflation_reward env.config.vote_keys epoch)
    answer ← ask (env.client.get_inflation_reward confirmed env.config.vote_keys epoch)
    emit_reward_answer epoch answer
