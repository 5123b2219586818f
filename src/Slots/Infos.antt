-- ===== src/Slots/Infos.antt =====
-- Fee rewards and block sizes: `fetchAndEmitSingleBlockInfo` and `fetchAndEmitBlockInfos`.
use solana_exporter.Base.{
  ℕ, ℤ, pos, ◌-64◌, int_eqb, Text, codes, format_int, to_lower, contains_text, text_eqb, length,
  Bool, false, ◌&&◌, List, [], ◌∷◌, Option, none, some, if◌then◌else◌,
}
use solana_exporter.Exec.{pure, emit, gets, assertf, ◌>>=◌, ◌>>◌}
use solana_exporter.Rpc.Types.{
  lamports_in_sol, Result, ok, err, RpcError, confirmed, BlockReward, Transaction, Block,
}
use solana_exporter.Rpc.Errors.{slot_skipped_code, as_rpc_error}
use solana_exporter.Utils.Schedule.{Schedule, select_from_schedule}
use solana_exporter.Utils.Blocks.{count_vote_transactions}
use solana_exporter.Slots.State.{
  fee_rewards, add_to_counter, set_block_size, get_block, Env, Action, ask,
}
use solana_exporter.Slots.Production.{check_valid_slot_range}

abbrev pub transaction_type_vote : Text
transaction_type_vote = codes "vote"

abbrev pub transaction_type_non_vote : Text
transaction_type_non_vote = codes "non_vote"

unfoldable pub is_skipped : Option RpcError → Bool
is_skipped none = false
is_skipped (some e) =
    int_eqb e.error_code slot_skipped_code && contains_text e.message (codes "skipped")

abbrev pub is_fee : BlockReward → Bool
is_fee reward = text_eqb (to_lower reward.reward_type) (codes "fee")

module _ {W F : Type 0} (env : Env W F) where
  emit_fee : Text → ℤ → BlockReward → Action W F (Unit {0})
  emit_fee nodekey epoch reward = do
    assertf (text_eqb reward.pubkey nodekey)
    add_to_counter env.float fee_rewards (nodekey ∷ format_int epoch ∷ [])
        (env.float.div (env.float.of_int reward.lamports) (env.float.of_int lamports_in_sol))

  -- The loop over `block.Rewards`; `foundFeeReward` decides over a log line only.
  unfoldable pub emit_fees : Text → ℤ → List BlockReward → Action W F (Unit {0})
  unfolding emit_fee
  emit_fees nodekey epoch [] = pure tt
  emit_fees nodekey epoch (reward ∷ rewards) = do
    if is_fee reward then emit_fee nodekey epoch reward else pure tt
    emit_fees nodekey epoch rewards

  unfoldable pub emit_counts : Text → List Transaction → Result ℕ → Action W F (Result (Unit {0}))
  emit_counts nodekey transactions (err e) = pure (err e)
  emit_counts nodekey transactions (ok vote_count) = do
    emit (set_block_size (nodekey ∷ transaction_type_vote ∷ []) (env.float.of_int (pos vote_count)))
    emit (
        set_block_size (nodekey ∷ transaction_type_non_vote ∷ [])
          (env.float.of_int (pos (length transactions) -64 pos vote_count)))
    pure (ok tt)

  unfoldable pub emit_block_size : Text → Block → Action W F (Result (Unit {0}))
  unfolding emit_counts
  emit_block_size nodekey block =
      if env.config.monitor_block_sizes
      then emit_counts nodekey block.transactions (count_vote_transactions block)
      else pure (ok tt)

  unfoldable pub emit_block : Text → ℤ → Result Block → Action W F (Result (Unit {0}))
  unfolding emit_fees emit_block_size is_skipped
  emit_block nodekey epoch (err e) = pure (if is_skipped (as_rpc_error e) then ok tt else err e)
  emit_block nodekey epoch (ok block) = do
    emit_fees nodekey epoch block.rewards
    emit_block_size nodekey block

  unfoldable pub transaction_details : Text
  transaction_details = if env.config.monitor_block_sizes then codes "full" else codes "none"

  unfoldable pub fetch_and_emit_single_block_info : Text → ℤ → ℤ → Action W F (Result (Unit {0}))
  unfolding emit_block transaction_details
  fetch_and_emit_single_block_info nodekey epoch slot = do
    emit (get_block slot transaction_details)
    answer ← ask (env.client.get_block confirmed slot transaction_details)
    emit_block nodekey epoch answer

  -- An error is logged, and the next slot is taken.
  unfoldable pub fetch_slots : Text → ℤ → List ℤ → Action W F (Unit {0})
  unfolding fetch_and_emit_single_block_info
  fetch_slots nodekey epoch [] = pure tt
  fetch_slots nodekey epoch (slot ∷ slots) = do
    fetch_and_emit_single_block_info nodekey epoch slot
    fetch_slots nodekey epoch slots

  unfoldable pub fetch_schedule : ℤ → Schedule → Action W F (Unit {0})
  unfolding fetch_slots
  fetch_schedule epoch [] = pure tt
  fetch_schedule epoch ((nodekey, slots) ∷ schedule) = do
    fetch_slots nodekey epoch slots
    fetch_schedule epoch schedule

  unfoldable pub fetch_and_emit_block_infos : ℤ → ℤ → Action W F (Unit {0})
  unfolding fetch_schedule
  fetch_and_emit_block_infos start_slot end_slot = if env.config.light_mode then pure tt else do
    w ← gets (λ s. s.watcher)
    assertf (check_valid_slot_range start_slot end_slot w)
    fetch_schedule w.current_epoch (select_from_schedule w.leader_schedule start_slot end_slot)
