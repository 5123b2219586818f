-- ===== src/Tests/Follow.antt =====
-- The slot watcher on the test node, whose answers agree with a chain of epochs of ten slots.
use solana_exporter.Base.{
  ℕ, zero, suc, text_eq, ==-cases, ◌+◌, ◌*◌, ℤ, pos, negsuc, ◌+ℤ◌, ◌+64◌, ◌-64◌, Text, List, [],
  ◌∷◌, lookup, All, ◌≡◌, refl, arith, inl, inr, some,
}
use solana_exporter.Exec.{◌>>=◌}
use solana_exporter.Rpc.Types.{ok}
use solana_exporter.Utils.Schedule.{
  Schedule, select_from_schedule, get_epoch_bounds, get_trimmed_leader_schedule, select_slots,
}
use solana_exporter.Slots.State.{Env, System, new_slot_watcher, ask, update, add_to_counter}
use solana_exporter.Slots.Production.{fetch_and_emit_block_production}
use solana_exporter.Slots.Infos.{fetch_and_emit_block_infos}
use solana_exporter.Slots.Rewards.{fetch_and_emit_inflation_rewards}
use solana_exporter.Slots.Watching.{watch_round, watch_slots}
use solana_exporter.Slots.Live.{Chain, IsAdjacent, IsEpoch, IsInfo, IsSound}
use solana_exporter.Slots.Live.Positions.{fresh, within, IsFollowing, IsPaced, position_after}
use solana_exporter.Slots.Live.Following.{IsDone, watch_slots-IsDone}
use solana_exporter.Tests.{ints, node, node_key, config, epoch_info_at}

abbrev env : Env ℕ ℤ
env = record { client = node; float = ints; config = config }

abbrev tenfold : ℤ → ℤ
tenfold (pos n) = pos (10 * n)
tenfold (negsuc n) = negsuc (10 * n + 9)

abbrev chain : Chain
chain = record { first = tenfold; last = λ e. tenfold e +ℤ pos 9; leader = λ slot. node_key }

chain-IsAdjacent : IsAdjacent chain
unfolding ◌+ℤ◌
chain-IsAdjacent (pos n) = ground arith
chain-IsAdjacent (negsuc zero) = refl
chain-IsAdjacent (negsuc (suc n)) = ground arith

led_by_key :
    (indexes : List ℤ) (key : Text) → node_key ≡ key → All (λ index. node_key ≡ key) indexes
led_by_key [] key e = tt
led_by_key (index ∷ indexes) key e = (e, led_by_key indexes key e)

scheduled_key :
    (schedule : Schedule) (key : Text) (indexes : List ℤ)
    → ok ((node_key, pos 2 ∷ pos 5 ∷ []) ∷ []) ≡ ok schedule
    → lookup key schedule ≡ some indexes
    → node_key ≡ key
scheduled_key schedule key indexes asked found = ground (arith, ==-cases node_key key)

env-IsSound : IsSound env chain
env-IsSound = record {
  float_int = λ z h. ground arith;
  float_sol = λ z h. ground arith;
  productions = λ from to w answer h. ground arith;
  inflation = λ epoch w rewards h. ground arith;
  schedules = λ e slot w schedule key indexes p q asked found.
      led_by_key indexes key (scheduled_key schedule key indexes asked found);
  blocks = λ slot details w block h. ground arith;
}

IsEpoch-one : IsEpoch chain (pos 1)
unfolding ◌+ℤ◌
IsEpoch-one = record {
  epoch_positive = omega arith;
  epoch_fits = (omega arith, omega arith);
  first_nonnegative = omega arith;
  last_fits = (omega arith, omega arith);
}

IsEpoch-two : IsEpoch chain (pos 2)
unfolding ◌+ℤ◌
IsEpoch-two = record {
  epoch_positive = omega arith;
  epoch_fits = (omega arith, omega arith);
  first_nonnegative = omega arith;
  last_fits = (omega arith, omega arith);
}

epoch_info_at-IsInfo : (t : ℕ) → IsInfo chain (epoch_info_at t)
unfolding ◌+ℤ◌ ◌+64◌ ◌-64◌ get_epoch_bounds
epoch_info_at-IsInfo zero = record {
  epoch = IsEpoch-one;
  bounds = refl;
  after_first = omega arith;
  before_last = omega arith;
}
epoch_info_at-IsInfo (suc zero) = record {
  epoch = IsEpoch-one;
  bounds = refl;
  after_first = omega arith;
  before_last = omega arith;
}
epoch_info_at-IsInfo (suc (suc t)) = record {
  epoch = IsEpoch-two;
  bounds = refl;
  after_first = omega arith;
  before_last = omega arith;
}

abbrev start : System ℕ
start = record { watcher = new_slot_watcher; world = 0 }

-- The first round begins epoch 1, the second goes on in it, the third closes it.
three_rounds-IsPaced : IsPaced env chain 3 fresh start
unfolding watch_round ◌>>=◌ ask update add_to_counter fetch_and_emit_block_production
    fetch_and_emit_block_infos ◌+64◌ ◌-64◌ ◌+ℤ◌ select_from_schedule select_slots
    fetch_and_emit_inflation_rewards get_epoch_bounds get_trimmed_leader_schedule
three_rounds-IsPaced = (
  epoch_info_at-IsInfo 0,
  ((epoch_info_at-IsInfo 1, inl refl), ((epoch_info_at-IsInfo 2, inr refl), tt)),
)

three_rounds_position : position_after env 3 fresh start ≡ within (pos 2) (pos 23)
unfolding watch_round ◌>>=◌ ask update add_to_counter fetch_and_emit_block_production
    fetch_and_emit_block_infos ◌+64◌ ◌-64◌ ◌+ℤ◌ select_from_schedule select_slots
    fetch_and_emit_inflation_rewards get_epoch_bounds get_trimmed_leader_schedule
three_rounds_position = refl

watch_slots-IsDone_example :
    IsDone
      (IsFollowing chain (position_after env 3 fresh start))
      (watch_slots env 3 start).result
      (watch_slots env 3 start).state
watch_slots-IsDone_example =
    watch_slots-IsDone env chain env-IsSound chain-IsAdjacent refl 3 fresh start tt (refl, tt)
      three_rounds-IsPaced
