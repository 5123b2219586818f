-- ===== src/Slots/State.antt =====
-- The state of `SlotWatcher` and the calls that it makes on its metrics and on the node.
use solana_exporter.Base.{if◌then◌else◌, Float64, ℤ, pos, Text, List, []}
use solana_exporter.Exec.{Exec, returned, stop, panic, emit}
use solana_exporter.Config.{ExporterConfig}
use solana_exporter.Rpc.Client.{Client}
use solana_exporter.Utils.Schedule.{Schedule}
use solana_exporter.Utils.Tracker.{Tracker, new_epoch_tracked_validators}

pub data Gauge : Type 0 where
  total_transactions slot_height epoch_number epoch_first_slot epoch_last_slot block_height : Gauge

pub data Counter : Type 0 where
  leader_slots leader_slots_by_epoch cluster_slots_by_epoch inflation_rewards fee_rewards : Counter

-- A call that leaves the program: on a metric, to the node, or a goroutine that is started.
pub data Call (F : Type 0) : Type 0 where
  set_gauge : Gauge → F → Call F
  set_block_size : List Text → F → Call F
  add_counter : Counter → List Text → F → Call F
  delete_counter : Counter → List Text → Call F
  get_block_production : ℤ → ℤ → Call F
  get_block : ℤ → Text → Call F
  get_inflation_reward : List Text → ℤ → Call F
  go_clean_epoch : ℤ → Call F

pub record Watcher : Type 0 where
  pub current_epoch : ℤ
  pub first_slot : ℤ
  pub last_slot : ℤ
  pub slot_watermark : ℤ
  pub leader_schedule : Schedule
  pub nodekey_tracker : Tracker

-- `NewSlotWatcher`: the fields of a new watcher are zero.
abbrev pub new_slot_watcher : Watcher
new_slot_watcher = record {
  current_epoch = pos 0;
  first_slot = pos 0;
  last_slot = pos 0;
  slot_watermark = pos 0;
  leader_schedule = [];
  nodekey_tracker = new_epoch_tracked_validators;
}

-- The watcher and the world outside.
pub record System (W : Type 0) : Type 0 where
  pub watcher : Watcher
  pub world : W

pub record Env (W F : Type 0) : Type 0 where
  pub client : Client W F
  pub float : Float64 F
  pub config : ExporterConfig

abbrev pub Action : Type 0 → Type 0 → Type 0 → Type 0
Action W F A = Exec (System W) (Call F) A

-- A call to the node: its answer, and the world after it.
unfoldable pub ask : {W F A : Type 0} → (W → A × W) → Action W F A
ask call s =
    let answer = call s.world in
    record { result = returned answer.0; events = []; state = record s { world = answer.1 } }

unfoldable pub update : {W F : Type 0} → (Watcher → Watcher) → Action W F (Unit {0})
update f s = record {
  result = returned tt;
  events = [];
  state = record s { watcher = f s.watcher };
}

-- `WithLabelValues` and `Counter.Add`, which panics at a negative value.
unfoldable pub add_to_counter :
    {W F : Type 0} → Float64 F → Counter → List Text → F → Action W F (Unit {0})
add_to_counter float counter labels x =
    if float.is_negative x then stop panic else emit (add_counter counter labels x)
