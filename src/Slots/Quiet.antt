-- ===== src/Slots/Quiet.antt =====
-- The parts of a round that leave the epoch, its bounds and the watermark alone, and ask for no block
-- production.
use solana_exporter.Base.{
  Float64, ℕ, suc, ℤ, Text, Bool, true, false, ◌≡◌, refl, arith, List, [], ◌∷◌, ◌++◌, Map, Option,
  none, some, append-nil, format_int, contains, text_eq, if◌then◌else◌, get_elem?, Option-cases,
  inl, inr,
}
use solana_exporter.Exec.{emit, ◌>>=◌}
use solana_exporter.Exec.Logic.{Logic, MayStop, Holds, run_rules}
use solana_exporter.Rpc.Types.{
  Result, ok, err, Transaction, Block, BlockReward, BlockProduction, HostProduction,
  InflationReward,
}
use solana_exporter.Utils.Schedule.{Schedule}
use solana_exporter.Slots.State.{
  add_to_counter, Counter, Call, Watcher, System, Env, Action, ask, update,
}
use solana_exporter.Slots.Requests.{requested_range, requests, requests-append}
use solana_exporter.Slots.Production.{emit_hosts, emit_block_production}
use solana_exporter.Slots.Infos.{
  emit_fees, emit_counts, emit_block, fetch_slots, fetch_schedule, fetch_and_emit_block_infos,
}
use solana_exporter.Slots.Rewards.{
  emit_inflation_rewards, emit_reward_answer, fetch_and_emit_inflation_rewards, votekey_at,
}

abbrev pub SamePosition : Watcher → Watcher → Type 0
SamePosition v w =
    (w.current_epoch ≡ v.current_epoch)
    × (w.first_slot ≡ v.first_slot)
    × (w.last_slot ≡ v.last_slot)
    × (w.slot_watermark ≡ v.slot_watermark)

module _ {W F : Type 0} where
  abbrev pub Quiet : System W → List (Call F) → System W → Type 0
  Quiet s es t = SamePosition s.watcher t.watcher × (requests es ≡ [])

  Quiet-then :
      (s t u : System W) (es fs : List (Call F))
      → Quiet s es t
      → Quiet t fs u
      → Quiet s (es ++ fs) u
  Quiet-then s t u es fs p q = ground (arith, requests-append es fs)

  pub Quiet-logic : Logic Quiet Quiet
  Quiet-logic = record {
    here = λ s. ((refl, refl, refl, refl), refl);
    then_return = Quiet-then;
    then_stop = Quiet-then;
  }

  pub Quiet-may_stop : MayStop Quiet
  Quiet-may_stop = record { halt = λ s. ((refl, refl, refl, refl), refl) }

  abbrev pub IsQuiet : {A : Type 0} → Action W F A → Type 0
  IsQuiet m = Holds Quiet Quiet m

  pub emit-IsQuiet : (c : Call F) → requested_range c ≡ none → IsQuiet (emit c)
  unfolding ◌>>=◌
  emit-IsQuiet c h = record { at = λ s. ((refl, refl, refl, refl), ground arith) }

  pub ask-IsQuiet : {A : Type 0} (call : W → A × W) → IsQuiet (ask call)
  unfolding ask
  ask-IsQuiet call = record { at = λ s. ((refl, refl, refl, refl), refl) }

  pub update-IsQuiet :
      (f : Watcher → Watcher) → ((w : Watcher) → SamePosition w (f w)) → IsQuiet (update f)
  unfolding update
  update-IsQuiet f h = record { at = λ s. (h s.watcher, refl) }

pub ruleset call_rules = (run_rules, Quiet-logic, Quiet-may_stop, emit-IsQuiet, ask-IsQuiet, refl)

pub add_to_counter-IsQuiet :
    {W F : Type 0} (float : Float64 F) (counter : Counter) (labels : List Text) (x : F)
    → IsQuiet (add_to_counter {W = W} float counter labels x)
unfolding add_to_counter
add_to_counter-IsQuiet float counter labels x = search call_rules

pub ruleset quiet_rules = (call_rules, add_to_counter-IsQuiet)

module _ {W F : Type 0} (env : Env W F) where
  emit_hosts-IsQuiet :
      (epoch_str : Text) (hosts : Map Text HostProduction) (nodekeys : List Text)
      → IsQuiet (emit_hosts env epoch_str hosts nodekeys)
  unfolding emit_hosts
  emit_hosts-IsQuiet epoch_str [] nodekeys = search quiet_rules
  emit_hosts-IsQuiet epoch_str ((address, production) ∷ hosts) nodekeys =
      search (quiet_rules, emit_hosts-IsQuiet epoch_str hosts) depth 12

  pub emit_block_production-IsQuiet :
      (epoch : ℤ) (answer : Result BlockProduction)
      → IsQuiet (emit_block_production env epoch answer)
  unfolding emit_block_production
  emit_block_production-IsQuiet epoch (err e) = search quiet_rules
  emit_block_production-IsQuiet epoch (ok production) =
      search (quiet_rules, emit_hosts-IsQuiet, update-IsQuiet)

  emit_fees-IsQuiet :
      (nodekey : Text) (epoch : ℤ) (rewards : List BlockReward)
      → IsQuiet (emit_fees env nodekey epoch rewards)
  unfolding emit_fees
  emit_fees-IsQuiet nodekey epoch [] = search quiet_rules
  emit_fees-IsQuiet nodekey epoch (reward ∷ rewards) =
      let ih = emit_fees-IsQuiet nodekey epoch rewards in search quiet_rules depth 12

  emit_counts-IsQuiet :
      (nodekey : Text) (transactions : List Transaction) (counted : Result ℕ)
      → IsQuiet (emit_counts env nodekey transactions counted)
  unfolding emit_counts
  emit_counts-IsQuiet nodekey transactions (err e) = search quiet_rules
  emit_counts-IsQuiet nodekey transactions (ok n) = search quiet_rules depth 12

  emit_block-IsQuiet :
      (nodekey : Text) (epoch : ℤ) (answer : Result Block)
      → IsQuiet (emit_block env nodekey epoch answer)
  unfolding emit_block
  emit_block-IsQuiet nodekey epoch (err e) = search quiet_rules
  emit_block-IsQuiet nodekey epoch (ok block) =
      search (quiet_rules, emit_fees-IsQuiet, emit_counts-IsQuiet) depth 12

  fetch_slots-IsQuiet :
      (nodekey : Text) (epoch : ℤ) (slots : List ℤ) → IsQuiet (fetch_slots env nodekey epoch slots)
  unfolding fetch_slots
  fetch_slots-IsQuiet nodekey epoch [] = search quiet_rules
  fetch_slots-IsQuiet nodekey epoch (slot ∷ slots) =
      let ih = fetch_slots-IsQuiet nodekey epoch slots in
      search (quiet_rules, emit_block-IsQuiet) depth 12

  fetch_schedule-IsQuiet :
      (epoch : ℤ) (schedule : Schedule) → IsQuiet (fetch_schedule env epoch schedule)
  unfolding fetch_schedule
  fetch_schedule-IsQuiet epoch [] = search quiet_rules
  fetch_schedule-IsQuiet epoch ((nodekey, slots) ∷ schedule) =
      let ih = fetch_schedule-IsQuiet epoch schedule in search (quiet_rules, fetch_slots-IsQuiet)

  pub fetch_and_emit_block_infos-IsQuiet :
      (start_slot end_slot : ℤ) → IsQuiet (fetch_and_emit_block_infos env start_slot end_slot)
  unfolding fetch_and_emit_block_infos
  fetch_and_emit_block_infos-IsQuiet start_slot end_slot =
      search (quiet_rules, fetch_schedule-IsQuiet) depth 12

  votekey_at-IsQuiet : (i : ℕ) → IsQuiet (votekey_at env i)
  unfolding votekey_at
  votekey_at-IsQuiet i = elim (Option-cases (get_elem? env.config.vote_keys i)) [
    | inl e ↦ rw (e, votekey_at) (search quiet_rules)
    | inr (k, e) ↦ rw (e, votekey_at) (search quiet_rules)
  ]

  emit_inflation_rewards-IsQuiet :
      (epoch : ℤ) (i : ℕ) (infos : List InflationReward)
      → IsQuiet (emit_inflation_rewards env epoch i infos)
  unfolding emit_inflation_rewards
  emit_inflation_rewards-IsQuiet epoch i [] = search quiet_rules
  emit_inflation_rewards-IsQuiet epoch i (info ∷ infos) =
      let ih = emit_inflation_rewards-IsQuiet epoch (suc i) infos in
      search (quiet_rules, votekey_at-IsQuiet) depth 12

  emit_reward_answer-IsQuiet :
      (epoch : ℤ) (answer : Result (List InflationReward))
      → IsQuiet (emit_reward_answer env epoch answer)
  unfolding emit_reward_answer
  emit_reward_answer-IsQuiet epoch (err e) = search quiet_rules
  emit_reward_answer-IsQuiet epoch (ok infos) = search (quiet_rules, emit_inflation_rewards-IsQuiet)

  pub fetch_and_emit_inflation_rewards-IsQuiet :
      (epoch : ℤ) → IsQuiet (fetch_and_emit_inflation_rewards env epoch)
  unfolding fetch_and_emit_inflation_rewards
  fetch_and_emit_inflation_rewards-IsQuiet epoch =
      search (quiet_rules, emit_reward_answer-IsQuiet) depth 12
