-- ===== src/Tests/Cli.antt =====
-- Command lines of the exporter, and environments of its logger.
use solana_exporter.Base.{
  wrap64, ◌*◌, ℕ, ℤ, pos, negsuc, pos_part, neg_part, ◌≤ℤ◌, Text, codes, true, false, some, List,
  [], ◌∷◌, length, ◌≡◌, ◌≢◌, refl, arith,
}
use solana_exporter.Exec.{stopped, panic}
use solana_exporter.Utils.Accounts.{get_associated_vote_accounts}
use solana_exporter.Rpc.Types.{ok}
use solana_exporter.Rpc.Client.{Client}
use solana_exporter.Config.{ExporterConfig, new_exporter_config}
use solana_exporter.Config.Light.{IsBare}
use solana_exporter.Config.Cli.{
  Setting, set_slot_pace, add_nodekey, seconds, new_exporter_config_from_cli,
}
use solana_exporter.Config.Cli.Given.{
  nodekeys, addresses, last_light_mode, last_slot_pace, seconds_lem,
  new_exporter_config_from_cli-IsGiven,
}
use solana_exporter.Slots.State.{Env, System, new_slot_watcher}
use solana_exporter.Slots.Watching.{watch_rounds, watch_slots}
use solana_exporter.Slots.Pace.{watch_slots-pace}
use solana_exporter.Logging.{info, get_env_log_level}
use solana_exporter.Logging.Named.{Names, get_env_log_level-Names}
use solana_exporter.Tests.{ints, node, node_key, vote_key}

abbrev pub connect : Text → ℤ → ℤ → Client ℕ ℤ
connect url timeout port = node

-- `-nodekey N1 -slot-pace 5 -slot-pace 0`
abbrev pub settings : List Setting
settings = add_nodekey node_key ∷ set_slot_pace (pos 5) ∷ set_slot_pace (pos 0) ∷ []

abbrev given : ExporterConfig
given = record {
  http_timeout = pos 60000000000;
  rpc_url = codes "http://localhost:8899";
  listen_address = codes ":8080";
  node_keys = node_key ∷ [];
  vote_keys = vote_key ∷ [];
  balance_addresses = [];
  comprehensive_slot_tracking = false;
  comprehensive_vote_account_tracking = false;
  monitor_block_sizes = false;
  light_mode = false;
  slot_pace = pos 0;
  active_identity = [];
  epoch_cleanup_time = pos 60000000000;
  firedancer_metrics_port = pos 7999;
}

is_given : (new_exporter_config_from_cli connect settings 0).0 ≡ ok given
unfolding new_exporter_config_from_cli new_exporter_config get_associated_vote_accounts wrap64
is_given = refl

new_exporter_config_from_cli-IsGiven_example :
    (given.node_keys ≡ nodekeys settings)
    × (given.balance_addresses ≡ addresses settings)
    × (given.light_mode ≡ last_light_mode settings false)
    × (given.slot_pace ≡ seconds (last_slot_pace settings (pos 1)))
    × (length given.vote_keys ≡ length given.node_keys)
    × (given.light_mode ≡ true → IsBare given)
new_exporter_config_from_cli-IsGiven_example =
    new_exporter_config_from_cli-IsGiven connect settings 0 given is_given

seconds_lem_example :
    (pos_part (seconds (negsuc 2)) ≡ pos_part (negsuc 2) * 1000000000)
    × (neg_part (seconds (negsuc 2)) ≡ neg_part (negsuc 2) * 1000000000)
seconds_lem_example = seconds_lem (negsuc 2) (omega arith) (omega arith)

abbrev env : Env ℕ ℤ
env = record { client = node; float = ints; config = given }

abbrev start : System ℕ
start = record { watcher = new_slot_watcher; world = 0 }

watch_slots-pace_example :
    (pos 1 ≤ℤ pos 0 → watch_slots env 3 start ≡ watch_rounds env 3 start)
    × (pos 0 ≤ℤ pos 0 → (watch_slots env 3 start).result ≡ stopped panic)
watch_slots-pace_example =
    watch_slots-pace connect settings 0 env 3 start is_given (omega arith, omega arith)

get_env_log_level-Names_example :
    ((l : _) → Names (some (codes "WARN")) l → get_env_log_level (some (codes "WARN")) ≡ l)
    × (get_env_log_level (some (codes "WARN")) ≢ info
        → Names (some (codes "WARN")) (get_env_log_level (some (codes "WARN"))))
get_env_log_level-Names_example = get_env_log_level-Names (some (codes "WARN"))
