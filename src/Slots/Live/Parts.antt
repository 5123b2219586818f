-- ===== src/Slots/Live/Parts.antt =====
-- The parts of a round that leave the position alone, on a node that follows the chain.
use solana_exporter.Base.{
  ℕ, zero, suc, ◌+◌, ◌≤◌, ◌<◌, ℤ, pos, ◌-64◌, -64_lem, -ℤ_parts, int_laws, ◌≤ℤ◌, Text, text_eq,
  text_eqb_iff, format_int, All, length, get_elem?, Map, Bool-cases, List, [], ◌∷◌, none,
  Option-cases, ◌≡◌, refl, ◌∙◌, arith, inl, inr,
}
use solana_exporter.Rpc.Types.{
  Result, ok, err, confirmed, HostProduction, BlockProduction, InflationReward, BlockReward, Block,
  Transaction,
}
use solana_exporter.Utils.Blocks.{count_vote_transactions}
use solana_exporter.Utils.Tracker.{add_tracked_nodekeys}
use solana_exporter.Slots.State.{Counter, Watcher, Env}
use solana_exporter.Slots.Production.{emit_hosts, emit_block_production}
use solana_exporter.Slots.Infos.{
  is_fee, emit_fees, emit_counts, emit_block_size, emit_block, transaction_details,
  fetch_and_emit_single_block_info, fetch_slots, fetch_schedule,
}
use solana_exporter.Slots.Rewards.{
  votekey_at, emit_inflation_rewards, emit_reward_answer, fetch_and_emit_inflation_rewards,
}
use solana_exporter.Utils.Schedule.{Schedule}
use solana_exporter.Slots.Live.{Chain, IsSound, IsHost, IsReward, IsLed}
use solana_exporter.Slots.Live.Rules.{
  Stays, Stays-emit, Stays-add, Stays-update, Stays-pure, Stays-bind, Stays-then, Stays-if,
  Stays-assertf, Stays-answer, stay_rules,
}

skipped_nonnegative :
    (host : HostProduction) → IsHost host → pos 0 ≤ℤ host.leader_slots -64 host.blocks_produced
skipped_nonnegative host (some_slots, not_more, fits) =
    let difference = -ℤ_parts host.leader_slots host.blocks_produced in
    let exact = -64_lem host.leader_slots host.blocks_produced (grind int_laws) in
    rw exact (grind int_laws)

get_elem?-none : {A : Type 0} (xs : List A) (i : ℕ) → get_elem? xs i ≡ none → ¬ (i < length xs)
get_elem?-none [] i e h = omega arith
get_elem?-none (x ∷ xs) zero e h = cc
get_elem?-none (x ∷ xs) (suc i) e h = get_elem?-none xs i e (omega arith)

module _ {W F : Type 0} (env : Env W F) (chain : Chain) (sound : IsSound env chain)
    (P : Watcher → Type 0) where
  emit_hosts-Stays :
      (epoch_str : Text) (hosts : Map Text HostProduction) (nodekeys : List Text)
      → All (λ p. IsHost p.1) hosts
      → Stays P (emit_hosts env epoch_str hosts nodekeys)
  unfolding emit_hosts
  emit_hosts-Stays epoch_str [] nodekeys h = Stays-pure nodekeys
  emit_hosts-Stays epoch_str ((address, host) ∷ hosts) nodekeys (fits, rest) =
      let valid = λ (counter : Counter) (labels : List Text).
        Stays-add {W = W} {P = P} env.float counter labels _
          (sound.float_int host.blocks_produced fits.0) in
      let skipped = λ (counter : Counter) (labels : List Text).
        Stays-add {W = W} {P = P} env.float counter labels _
          (sound.float_int _ (skipped_nonnegative host fits)) in
      let later = λ (keys : List Text). emit_hosts-Stays epoch_str hosts keys rest in
      search (stay_rules, valid, skipped, later) depth 12

  emit_fees-Stays :
      (nodekey : Text) (epoch slot : ℤ) (rewards : List BlockReward)
      → chain.leader slot ≡ nodekey
      → All (IsReward chain slot) rewards
      → Stays P (emit_fees env nodekey epoch rewards)
  unfolding emit_fees
  emit_fees-Stays nodekey epoch slot [] led h = Stays-pure tt
  emit_fees-Stays nodekey epoch slot (reward ∷ rewards) led (good, rest) =
      let later = emit_fees-Stays nodekey epoch slot rewards led rest in
      elim (Bool-cases (is_fee reward)) [
        | inl fee ↦
            let (to_leader, nonnegative) = good fee in
            let matches = (text_eqb_iff reward.pubkey nodekey).1 (to_leader ∙ led) in
            rw fee (
              Stays-then _ _
                (Stays-then _ _ (Stays-assertf _ matches)
                  (Stays-add env.float _ _ _ (sound.float_sol reward.lamports nonnegative)))
                later)
        | inr other ↦ rw other (Stays-then _ _ (Stays-pure tt) later)
      ]

  emit_counts-Stays :
      (nodekey : Text) (transactions : List Transaction) (counted : Result ℕ)
      → Stays P (emit_counts env nodekey transactions counted)
  unfolding emit_counts
  emit_counts-Stays nodekey transactions (err e) = Stays-pure (err e)
  emit_counts-Stays nodekey transactions (ok votes) = search (stay_rules) depth 12

  emit_block-Stays :
      (nodekey : Text) (epoch slot : ℤ) (answer : Result Block)
      → chain.leader slot ≡ nodekey
      → ((block : Block) → answer ≡ ok block → All (IsReward chain slot) block.rewards)
      → Stays P (emit_block env nodekey epoch answer)
  unfolding emit_block emit_block_size
  emit_block-Stays nodekey epoch slot (err e) led h = Stays-pure _
  emit_block-Stays nodekey epoch slot (ok block) led h =
      Stays-then _ _ (emit_fees-Stays nodekey epoch slot block.rewards led (h block refl)) (
        Stays-if env.config.monitor_block_sizes _ _
          (emit_counts-Stays nodekey block.transactions (count_vote_transactions block))
          (Stays-pure (ok tt)))

  fetch_slots-Stays :
      (nodekey : Text) (epoch : ℤ) (slots : List ℤ)
      → All (λ slot. chain.leader slot ≡ nodekey) slots
      → Stays P (fetch_slots env nodekey epoch slots)
  unfolding fetch_slots fetch_and_emit_single_block_info
  fetch_slots-Stays nodekey epoch [] h = Stays-pure tt
  fetch_slots-Stays nodekey epoch (slot ∷ slots) (led, rest) =
      let details = transaction_details env in
      Stays-then _ _
        (Stays-then _ _ (Stays-emit _) (
          Stays-answer (env.client.get_block confirmed slot details) (emit_block env nodekey epoch)
            λ w.
              emit_block-Stays nodekey epoch slot (env.client.get_block confirmed slot details w).0
                led (λ block e. sound.blocks slot details w block e)))
        (fetch_slots-Stays nodekey epoch slots rest)

  pub fetch_schedule-Stays :
      (epoch : ℤ) (schedule : Schedule)
      → IsLed chain schedule
      → Stays P (fetch_schedule env epoch schedule)
  unfolding fetch_schedule
  fetch_schedule-Stays epoch [] h = Stays-pure tt
  fetch_schedule-Stays epoch ((nodekey, slots) ∷ schedule) (led, rest) =
      Stays-then _ _ (fetch_slots-Stays nodekey epoch slots led)
        (fetch_schedule-Stays epoch schedule rest)

  votekey_at-Stays : (i : ℕ) → i < length env.config.vote_keys → Stays P (votekey_at env i)
  unfolding votekey_at
  votekey_at-Stays i h = elim (Option-cases (get_elem? env.config.vote_keys i)) [
    | inl missing ↦ absurd (get_elem?-none env.config.vote_keys i missing h)
    | inr (votekey, found) ↦ rw (votekey_at, found) (Stays-pure votekey)
  ]

  emit_inflation_rewards-Stays :
      (epoch : ℤ) (i : ℕ) (rewards : List InflationReward)
      → i + length rewards ≤ length env.config.vote_keys
      → All (λ reward. pos 0 ≤ℤ reward.amount) rewards
      → Stays P (emit_inflation_rewards env epoch i rewards)
  unfolding emit_inflation_rewards
  emit_inflation_rewards-Stays epoch i [] h all = Stays-pure tt
  emit_inflation_rewards-Stays epoch i (reward ∷ rewards) h (nonnegative, rest) =
      Stays-bind _ _ (votekey_at-Stays i (omega arith)) λ address.
        Stays-then _ _ (Stays-add env.float _ _ _ (sound.float_sol reward.amount nonnegative))
          (emit_inflation_rewards-Stays epoch (suc i) rewards (omega arith) rest)

  emit_reward_answer-Stays :
      (epoch : ℤ) (answer : Result (List InflationReward))
      → ((rewards : List InflationReward)
          → answer ≡ ok rewards
          → (length rewards ≤ length env.config.vote_keys)
            × All (λ reward. pos 0 ≤ℤ reward.amount) rewards)
      → Stays P (emit_reward_answer env epoch answer)
  unfolding emit_reward_answer
  emit_reward_answer-Stays epoch (err e) h = Stays-pure _
  emit_reward_answer-Stays epoch (ok rewards) h =
      let (few, nonnegative) = h rewards refl in
      Stays-then _ _ (emit_inflation_rewards-Stays epoch 0 rewards (omega arith) nonnegative)
        (Stays-pure (ok tt))

  pub fetch_and_emit_inflation_rewards-Stays :
      (epoch : ℤ) → Stays P (fetch_and_emit_inflation_rewards env epoch)
  unfolding fetch_and_emit_inflation_rewards
  fetch_and_emit_inflation_rewards-Stays epoch =
      let call = env.client.get_inflation_reward confirmed env.config.vote_keys epoch in
      Stays-if env.config.light_mode _ _ (Stays-pure (ok tt)) (
        Stays-then _ _ (Stays-emit _) (
          Stays-answer call (emit_reward_answer env epoch) λ w.
            emit_reward_answer-Stays epoch (call w).0
              (λ rewards e. sound.inflation epoch w rewards e)))

  pub emit_block_production-Stays :
      ((w : Watcher) (epoch : ℤ) (keys : List Text)
        → P w
        → P (record w { nodekey_tracker = add_tracked_nodekeys epoch keys w.nodekey_tracker }))
      → (epoch : ℤ) (answer : Result BlockProduction)
      → ((production : BlockProduction)
          → answer ≡ ok production
          → All (λ p. IsHost p.1) production.by_identity)
      → Stays P (emit_block_production env epoch answer)
  unfolding emit_block_production
  emit_block_production-Stays free epoch (err e) h = Stays-pure tt
  emit_block_production-Stays free epoch (ok production) h =
      Stays-bind _ _
        (emit_hosts-Stays (format_int epoch) production.by_identity [] (h production refl))
        λ keys. Stays-update _ (λ w p. free w epoch keys p)
