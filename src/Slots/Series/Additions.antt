-- ===== src/Slots/Series/Additions.antt =====
-- The series that a move of the watermark and the inflation rewards add to are of the watched epoch.
use solana_exporter.Base.{
  ℕ, suc, ℤ, Text, format_int, List, [], ◌∷◌, Map, get_elem?, Option-cases, inl, inr,
}
use solana_exporter.Exec.Logic.{Holds-if, Holds-pure}
use solana_exporter.Rpc.Types.{
  Result, ok, err, HostProduction, BlockProduction, InflationReward, BlockReward, Block,
  Transaction,
}
use solana_exporter.Utils.Schedule.{Schedule}
use solana_exporter.Slots.State.{Env}
use solana_exporter.Slots.Production.{
  emit_hosts, emit_block_production, fetch_and_emit_block_production,
}
use solana_exporter.Slots.Infos.{
  emit_fees, emit_counts, emit_block, fetch_slots, fetch_schedule, fetch_and_emit_block_infos,
}
use solana_exporter.Slots.Rewards.{
  emit_inflation_rewards, emit_reward_answer, fetch_and_emit_inflation_rewards, votekey_at,
}
use solana_exporter.Slots.Watching.{move_slot_watermark, close_rewards}
use solana_exporter.Slots.Series.Labels.{StaysIn, Within-logic, read-StaysIn, addition_rules}

module _ {W F : Type 0} (env : Env W F) (e : ℤ) where
  emit_hosts-StaysIn :
      (hosts : Map Text HostProduction) (nodekeys : List Text)
      → StaysIn e (emit_hosts env (format_int e) hosts nodekeys)
  unfolding emit_hosts
  emit_hosts-StaysIn [] nodekeys = search addition_rules
  emit_hosts-StaysIn ((address, production) ∷ hosts) nodekeys =
      search (addition_rules, emit_hosts-StaysIn hosts) depth 12

  emit_block_production-StaysIn :
      (answer : Result BlockProduction) → StaysIn e (emit_block_production env e answer)
  unfolding emit_block_production
  emit_block_production-StaysIn (err why) = search addition_rules
  emit_block_production-StaysIn (ok production) =
      search (addition_rules, emit_hosts-StaysIn) depth 12

  emit_fees-StaysIn :
      (nodekey : Text) (rewards : List BlockReward) → StaysIn e (emit_fees env nodekey e rewards)
  unfolding emit_fees
  emit_fees-StaysIn nodekey [] = search addition_rules
  emit_fees-StaysIn nodekey (reward ∷ rewards) =
      let ih = emit_fees-StaysIn nodekey rewards in search addition_rules depth 12

  emit_counts-StaysIn :
      (nodekey : Text) (transactions : List Transaction) (counted : Result ℕ)
      → StaysIn e (emit_counts env nodekey transactions counted)
  unfolding emit_counts
  emit_counts-StaysIn nodekey transactions (err why) = search addition_rules
  emit_counts-StaysIn nodekey transactions (ok n) = search addition_rules depth 12

  emit_block-StaysIn :
      (nodekey : Text) (answer : Result Block) → StaysIn e (emit_block env nodekey e answer)
  unfolding emit_block
  emit_block-StaysIn nodekey (err why) = search addition_rules
  emit_block-StaysIn nodekey (ok block) =
      search (addition_rules, emit_fees-StaysIn, emit_counts-StaysIn) depth 12

  fetch_slots-StaysIn :
      (nodekey : Text) (slots : List ℤ) → StaysIn e (fetch_slots env nodekey e slots)
  unfolding fetch_slots
  fetch_slots-StaysIn nodekey [] = search addition_rules
  fetch_slots-StaysIn nodekey (slot ∷ slots) =
      let ih = fetch_slots-StaysIn nodekey slots in
      search (addition_rules, emit_block-StaysIn) depth 12

  fetch_schedule-StaysIn : (schedule : Schedule) → StaysIn e (fetch_schedule env e schedule)
  unfolding fetch_schedule
  fetch_schedule-StaysIn [] = search addition_rules
  fetch_schedule-StaysIn ((nodekey, slots) ∷ schedule) =
      let ih = fetch_schedule-StaysIn schedule in search (addition_rules, fetch_slots-StaysIn)

  production-StaysIn : (from to : ℤ) → StaysIn e (fetch_and_emit_block_production env from to)
  unfolding fetch_and_emit_block_production
  production-StaysIn from to = Holds-if env.config.light_mode _ _ (Holds-pure (Within-logic e) tt) (
      read-StaysIn e _
        λ w here. rw here (search (addition_rules, emit_block_production-StaysIn) depth 12))

  infos-StaysIn : (from to : ℤ) → StaysIn e (fetch_and_emit_block_infos env from to)
  unfolding fetch_and_emit_block_infos
  infos-StaysIn from to = Holds-if env.config.light_mode _ _ (Holds-pure (Within-logic e) tt) (
      read-StaysIn e _ λ w here. rw here (search (addition_rules, fetch_schedule-StaysIn) depth 12))

  pub move_slot_watermark-StaysIn : (to : ℤ) → StaysIn e (move_slot_watermark env to)
  unfolding move_slot_watermark
  move_slot_watermark-StaysIn to =
      search (addition_rules, production-StaysIn, infos-StaysIn) depth 12

  votekey_at-StaysIn : (i : ℕ) → StaysIn e (votekey_at env i)
  unfolding votekey_at
  votekey_at-StaysIn i = elim (Option-cases (get_elem? env.config.vote_keys i)) [
    | inl h ↦ rw (h, votekey_at) (search addition_rules)
    | inr (k, h) ↦ rw (h, votekey_at) (search addition_rules)
  ]

  emit_inflation_rewards-StaysIn :
      (i : ℕ) (rewards : List InflationReward) → StaysIn e (emit_inflation_rewards env e i rewards)
  unfolding emit_inflation_rewards
  emit_inflation_rewards-StaysIn i [] = search addition_rules
  emit_inflation_rewards-StaysIn i (reward ∷ rewards) =
      let ih = emit_inflation_rewards-StaysIn (suc i) rewards in
      search (addition_rules, votekey_at-StaysIn) depth 12

  emit_reward_answer-StaysIn :
      (answer : Result (List InflationReward)) → StaysIn e (emit_reward_answer env e answer)
  unfolding emit_reward_answer
  emit_reward_answer-StaysIn (err why) = search addition_rules
  emit_reward_answer-StaysIn (ok rewards) = search (addition_rules, emit_inflation_rewards-StaysIn)

  rewards-StaysIn : StaysIn e (fetch_and_emit_inflation_rewards env e)
  unfolding fetch_and_emit_inflation_rewards
  rewards-StaysIn = search (addition_rules, emit_reward_answer-StaysIn) depth 12

  pub close_rewards-StaysIn : StaysIn e (close_rewards env e)
  unfolding close_rewards
  close_rewards-StaysIn = search (addition_rules, rewards-StaysIn) depth 12
