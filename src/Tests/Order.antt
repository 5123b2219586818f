-- ===== src/Tests/Order.antt =====
-- The order of the test node's epochs: in the third round epoch 1 is over, and its cleaning is started.
use mathlib.Core.List.Perm
use solana_exporter.Base.{
  Text, ℕ, zero, suc, sym, ℤ, pos, ◌+ℤ◌, ◌-ℤ◌, ◌+64◌, ◌-64◌, List, [], ◌∷◌, ◌++◌, ◌≡◌, refl, arith,
  inl,
}
use solana_exporter.Exec.{◌>>=◌}
use solana_exporter.Rpc.Types.{ok, HostProduction, BlockProduction}
use solana_exporter.Utils.Schedule.{
  select_from_schedule, get_epoch_bounds, get_trimmed_leader_schedule, select_slots,
}
use solana_exporter.Slots.State.{
  Call, set_gauge, epoch_number, go_clean_epoch, ask, update, add_to_counter,
}
use solana_exporter.Slots.Production.{emit_block_production, fetch_and_emit_block_production}
use solana_exporter.Slots.Orders.{IsReordered, emit_block_production-any_order}
use solana_exporter.Slots.Infos.{fetch_and_emit_block_infos}
use solana_exporter.Slots.Rewards.{fetch_and_emit_inflation_rewards}
use solana_exporter.Slots.Watching.{watch_slots}
use solana_exporter.Slots.Requests.{requests}
use solana_exporter.Slots.Rounds.{IsInsideNode, AsksOnce, watch_slots-IsChain}
use solana_exporter.Slots.Advances.Epochs.{IsInside}
use solana_exporter.Slots.Order.{IsEpochNumber, Concerns}
use solana_exporter.Slots.Order.Rounds.{IsReporting, watch_slots-cleaned_last}
use solana_exporter.Tests.{epoch_info_at, node_key, vote_key}
use solana_exporter.Tests.Watch.{env, watching}

ok_injective : {A : Type 0} {a b : A} → ok a ≡ ok b → a ≡ b
ok_injective h = cc

-- The calls before the first cleaning, and those after it.
abbrev calls_before : List (Call ℤ) → List (Call ℤ)
calls_before [] = []
calls_before (go_clean_epoch e ∷ calls) = []
calls_before (call ∷ calls) = call ∷ calls_before calls

abbrev calls_after : List (Call ℤ) → List (Call ℤ)
calls_after [] = []
calls_after (go_clean_epoch e ∷ calls) = calls
calls_after (call ∷ calls) = calls_after calls

abbrev calls : List (Call ℤ)
calls = (watch_slots env 3 watching).events

epoch_info_at-IsEpochNumber : (t : ℕ) → IsEpochNumber (epoch_info_at t).epoch
epoch_info_at-IsEpochNumber zero = ((omega arith, omega arith), omega arith)
epoch_info_at-IsEpochNumber (suc zero) = ((omega arith, omega arith), omega arith)
epoch_info_at-IsEpochNumber (suc (suc t)) = ((omega arith, omega arith), omega arith)

env-IsReporting : IsReporting env
env-IsReporting = record {
  numbers = λ t info answered. rw (sym (ok_injective answered)) (epoch_info_at-IsEpochNumber t);
}

-- Each answer is a slot of its epoch.
epoch_info_at-IsInside : (t : ℕ) → IsInside (epoch_info_at t)
unfolding ◌+ℤ◌ ◌-ℤ◌
epoch_info_at-IsInside zero = record {
  index_nonnegative = omega arith;
  index_below = omega arith;
  begins_nonnegative = omega arith;
  slot_fits = (omega arith, omega arith);
  end_fits = (omega arith, omega arith);
}
epoch_info_at-IsInside (suc zero) = record {
  index_nonnegative = omega arith;
  index_below = omega arith;
  begins_nonnegative = omega arith;
  slot_fits = (omega arith, omega arith);
  end_fits = (omega arith, omega arith);
}
epoch_info_at-IsInside (suc (suc t)) = record {
  index_nonnegative = omega arith;
  index_below = omega arith;
  begins_nonnegative = omega arith;
  slot_fits = (omega arith, omega arith);
  end_fits = (omega arith, omega arith);
}

env-IsInsideNode : IsInsideNode env
env-IsInsideNode = record {
  slots = λ t info answered. rw (sym (ok_injective answered)) (epoch_info_at-IsInside t);
}

watch_slots-IsChain_example :
    AsksOnce
      (pos 11)
      (requests (watch_slots env 3 watching).events)
      (watch_slots env 3 watching).result
      (watch_slots env 3 watching).state.watcher.slot_watermark
watch_slots-IsChain_example =
    watch_slots-IsChain env 3 watching refl env-IsInsideNode
      (omega arith, omega arith, omega arith, omega arith)

three_rounds_clean : calls ≡ calls_before calls ++ go_clean_epoch (pos 1) ∷ calls_after calls
unfolding watch_slots ◌>>=◌ ask update add_to_counter fetch_and_emit_block_production
    fetch_and_emit_block_infos ◌+64◌ ◌-64◌ select_from_schedule select_slots
    fetch_and_emit_inflation_rewards get_epoch_bounds get_trimmed_leader_schedule
three_rounds_clean = refl

watch_slots-cleaned_last_example : ¬ Concerns (pos 1) (set_gauge epoch_number (pos 2))
unfolding watch_slots ◌>>=◌ ask update add_to_counter fetch_and_emit_block_production
    fetch_and_emit_block_infos ◌+64◌ ◌-64◌ select_from_schedule select_slots
    fetch_and_emit_inflation_rewards get_epoch_bounds get_trimmed_leader_schedule
watch_slots-cleaned_last_example =
    watch_slots-cleaned_last env env-IsReporting 3 watching
      ((omega arith, omega arith), omega arith) (pos 1) (calls_before calls) (calls_after calls)
      (omega arith, omega arith) three_rounds_clean (set_gauge epoch_number (pos 2)) (inl refl)

abbrev first_host : Text × HostProduction
first_host = (node_key, record { leader_slots = pos 4; blocks_produced = pos 3 })

abbrev second_host : Text × HostProduction
second_host = (vote_key, record { leader_slots = pos 8; blocks_produced = pos 8 })

abbrev production : BlockProduction
production = record { by_identity = first_host ∷ second_host ∷ [] }

abbrev other_order : BlockProduction
other_order = record { by_identity = second_host ∷ first_host ∷ [] }

emit_block_production-any_order_example :
    IsReordered env
      (emit_block_production env (pos 1) (ok production) watching)
      (emit_block_production env (pos 1) (ok other_order) watching)
unfolding ◌-64◌
emit_block_production-any_order_example =
    emit_block_production-any_order env (pos 1) production other_order watching
      (Perm.swap second_host first_host []) refl
