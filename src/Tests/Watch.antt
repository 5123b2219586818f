-- ===== src/Tests/Watch.antt =====
-- The slot watcher on the test node.
use solana_exporter.Base.{
  All, false, format_int, In, inl, inr, codes, lookup, none, int_eq, ℕ, ℤ, pos, ◌+64◌, ◌-64◌, [],
  ◌∷◌, ◌≡◌, refl, arith,
}
use solana_exporter.Exec.{returned}
use solana_exporter.Exec.Logic.{Post}
use solana_exporter.Slots.State.{
  add_counter, cluster_slots_by_epoch, add_to_counter, Env, System, new_slot_watcher, ask, update,
}
use solana_exporter.Slots.Requests.{requests}
use solana_exporter.Slots.Watching.{close_rewards, watch_round, watch_slots, move_slot_watermark}
use solana_exporter.Slots.Watermark.{MovesTo, NotAsked, move_slot_watermark-MovesTo}
use solana_exporter.Rpc.Types.{EpochInfo, ok}
use solana_exporter.Slots.Cleaning.{clean_epoch}
use solana_exporter.Utils.Tracker.{get_tracked_validators}
use solana_exporter.Slots.Vectors.{IsLabelled}
use solana_exporter.Slots.Vectors.Labelled.{watch_slots-IsLabelled}
use solana_exporter.Slots.Series.Apart.{clean_epoch-apart}
use solana_exporter.Slots.Series.Deleted.{DeletesSeries, clean_epoch-DeletesSeries}
use solana_exporter.Utils.Tracker.Taken.{tracked}
use solana_exporter.Slots.FirstRound.{watch_round-first}
use solana_exporter.Exec.{◌>>=◌}
use solana_exporter.Utils.Schedule.{
  select_from_schedule, get_epoch_bounds, get_trimmed_leader_schedule, select_slots,
}
use solana_exporter.Slots.Production.{fetch_and_emit_block_production}
use solana_exporter.Slots.Infos.{fetch_and_emit_block_infos}
use solana_exporter.Slots.Rewards.{fetch_and_emit_inflation_rewards}
use solana_exporter.Tests.{ints, node, node_key, vote_key, config}

abbrev pub env : Env ℕ ℤ
env = record { client = node; float = ints; config = config }

-- Epoch 1 from its slot 12 on.
abbrev pub watching : System ℕ
watching = record {
  watcher = record new_slot_watcher {
    current_epoch = pos 1;
    first_slot = pos 10;
    last_slot = pos 19;
    slot_watermark = pos 11;
  };
  world = 0;
}

-- Three rounds: two in epoch 1, the third closes it.
three_rounds :
    requests (watch_slots env 3 watching).events
    ≡ (pos 12, pos 12) ∷ (pos 13, pos 16) ∷ (pos 17, pos 19) ∷ (pos 20, pos 23) ∷ []
unfolding watch_slots ◌>>=◌ ask update add_to_counter fetch_and_emit_block_production
    fetch_and_emit_block_infos ◌+64◌ ◌-64◌ select_from_schedule select_slots
    fetch_and_emit_inflation_rewards get_epoch_bounds get_trimmed_leader_schedule
three_rounds = refl

three_rounds_return : (watch_slots env 3 watching).result ≡ returned tt
unfolding watch_slots ◌>>=◌ ask update add_to_counter fetch_and_emit_block_production
    fetch_and_emit_block_infos ◌+64◌ ◌-64◌ select_from_schedule select_slots
    fetch_and_emit_inflation_rewards get_epoch_bounds get_trimmed_leader_schedule
three_rounds_return = refl

move_slot_watermark-MovesTo_example :
    Post
      (MovesTo (pos 16))
      (NotAsked (pos 12) (pos 16))
      watching
      (move_slot_watermark env (pos 16) watching).result
      (move_slot_watermark env (pos 16) watching).events
      (move_slot_watermark env (pos 16) watching).state
unfolding ◌+64◌
move_slot_watermark-MovesTo_example = move_slot_watermark-MovesTo env (pos 16) watching refl

-- A chain that is in epoch 0, at slot 9.
abbrev early_info : EpochInfo
early_info = record {
  absolute_slot = pos 9;
  block_height = pos 9;
  epoch = pos 0;
  slot_index = pos 9;
  slots_in_epoch = pos 10;
  transaction_count = pos 100;
}

abbrev early_env : Env ℕ ℤ
early_env = record {
  client = record node { get_epoch_info = λ commitment t. (ok early_info, t) };
  float = ints;
  config = config;
}

-- The slots up to 5 were watched.
abbrev early : System ℕ
early = record {
  watcher = record new_slot_watcher { last_slot = pos 9; slot_watermark = pos 5 };
  world = 0;
}

early_round : (watch_round early_env early).result ≡ returned tt
unfolding watch_round ◌>>=◌ ask update add_to_counter fetch_and_emit_block_production
    fetch_and_emit_block_infos ◌+64◌ ◌-64◌ select_from_schedule select_slots
    fetch_and_emit_inflation_rewards get_epoch_bounds get_trimmed_leader_schedule
early_round = refl

watch_round-first_example :
    (requests (watch_round early_env early).events ≡ (pos 9, pos 9) ∷ [])
    × ((watch_round early_env early).state.watcher.current_epoch ≡ pos 0)
    × ((watch_round early_env early).state.watcher.slot_watermark ≡ pos 9)
watch_round-first_example =
    watch_round-first early_env early_info early 0 refl refl refl (omega arith, omega arith)
      (omega arith) early_round

-- Epoch 0 is over and node 1 had slots in it.
abbrev cleaning : System ℕ
cleaning = record {
  watcher = record new_slot_watcher { nodekey_tracker = (pos 0, node_key ∷ []) ∷ [] };
  world = 0;
}

clean_epoch-DeletesSeries_example :
    let r = clean_epoch env false (pos 0) cleaning in
    (r.result ≡ returned tt)
    × DeletesSeries
        (node_key ∷ [])
        (vote_key ∷ [])
        (tracked (pos 0) cleaning.watcher.nodekey_tracker)
        (format_int (pos 0))
        r.events
    × (lookup (pos 0) r.state.watcher.nodekey_tracker ≡ none)
clean_epoch-DeletesSeries_example = clean_epoch-DeletesSeries env (pos 0) cleaning refl

-- Epoch 0 is cleaned while epoch 1 is watched.
clean_epoch-apart_example :
    (¬ In
      (add_counter cluster_slots_by_epoch (format_int (pos 0) ∷ codes "valid" ∷ []) (pos 3))
      (move_slot_watermark env (pos 16) watching).events)
    × (¬ In
        (add_counter cluster_slots_by_epoch (format_int (pos 0) ∷ codes "valid" ∷ []) (pos 3))
        (close_rewards env (pos 1) watching).events)
unfolding clean_epoch ◌>>=◌ update get_tracked_validators
clean_epoch-apart_example =
    clean_epoch-apart env false (pos 0) (pos 1) (pos 16) cleaning watching
      (omega arith, omega arith) (omega arith, omega arith) (λ e. cc) refl cluster_slots_by_epoch
      (format_int (pos 0) ∷ codes "valid" ∷ []) (pos 3) (inr (inr (inl refl)))

watch_slots-IsLabelled_example :
    All IsLabelled (watch_slots env 3 watching).events
    × All IsLabelled (clean_epoch env false (pos 0) cleaning).events
watch_slots-IsLabelled_example = watch_slots-IsLabelled env 3 false (pos 0) watching cleaning
