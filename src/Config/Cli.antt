-- ===== src/Config/Cli.antt =====
-- `NewExporterConfigFromCLI` of cmd/solana-exporter/config.go.
pub mod Given
use solana_exporter.Base.{
  ℕ, suc, ◌+◌, ◌*◌, ◌-◌, ℤ, pos, negsuc, wrap64, Text, codes, Bool, true, false, List, [], ◌∷◌,
  ◌++◌,
}
use solana_exporter.Rpc.Types.{Result}
use solana_exporter.Rpc.Client.{Client}
use solana_exporter.Config.{ExporterConfig, Arguments, new_exporter_config}

-- The variables of the flags. Timeouts and paces are in seconds.
pub record Flags : Type 0 where
  pub http_timeout : ℤ
  pub rpc_url : Text
  pub listen_address : Text
  pub node_keys : List Text
  pub balance_addresses : List Text
  pub comprehensive_slot_tracking : Bool
  pub comprehensive_vote_account_tracking : Bool
  pub monitor_block_sizes : Bool
  pub light_mode : Bool
  pub slot_pace : ℤ
  pub active_identity : Text
  pub epoch_cleanup_time : ℤ
  pub firedancer_metrics_port : ℤ

abbrev pub default_flags : Flags
default_flags = record {
  http_timeout = pos 60;
  rpc_url = codes "http://localhost:8899";
  listen_address = codes ":8080";
  node_keys = [];
  balance_addresses = [];
  comprehensive_slot_tracking = false;
  comprehensive_vote_account_tracking = false;
  monitor_block_sizes = false;
  light_mode = false;
  slot_pace = pos 1;
  active_identity = [];
  epoch_cleanup_time = pos 60;
  firedancer_metrics_port = pos 7999;
}

-- What the command line says of one flag. `flag.Parse` reads the command line into these, or exits.
pub data Setting : Type 0 where
  set_http_timeout set_slot_pace set_epoch_cleanup_time set_firedancer_metrics_port : ℤ → Setting
  set_rpc_url set_listen_address set_active_identity add_nodekey add_balance_address :
      Text → Setting
  set_comprehensive_slot_tracking set_comprehensive_vote_account_tracking : Bool → Setting
  set_monitor_block_sizes set_light_mode : Bool → Setting

-- `arrayFlags.Set`
unfoldable pub array_set : Text → List Text → List Text
array_set value i = i ++ value ∷ []

unfoldable pub set_flag : Setting → Flags → Flags
unfolding array_set
set_flag (set_http_timeout n) f = record f { http_timeout = n }
set_flag (set_slot_pace n) f = record f { slot_pace = n }
set_flag (set_epoch_cleanup_time n) f = record f { epoch_cleanup_time = n }
set_flag (set_firedancer_metrics_port n) f = record f { firedancer_metrics_port = n }
set_flag (set_rpc_url s) f = record f { rpc_url = s }
set_flag (set_listen_address s) f = record f { listen_address = s }
set_flag (set_active_identity s) f = record f { active_identity = s }
set_flag (add_nodekey s) f = record f { node_keys = array_set s f.node_keys }
set_flag (add_balance_address s) f = record f {
  balance_addresses = array_set s f.balance_addresses;
}
set_flag (set_comprehensive_slot_tracking b) f = record f { comprehensive_slot_tracking = b }
set_flag (set_comprehensive_vote_account_tracking b) f = record f {
  comprehensive_vote_account_tracking = b;
}
set_flag (set_monitor_block_sizes b) f = record f { monitor_block_sizes = b }
set_flag (set_light_mode b) f = record f { light_mode = b }

-- `flag.Parse` sets the flags in the order of the command line.
unfoldable pub parse_flags : List Setting → Flags → Flags
unfolding set_flag
parse_flags [] f = f
parse_flags (setting ∷ settings) f = parse_flags settings (set_flag setting f)

-- `time.Duration(n) * time.Second`, in nanoseconds
unfoldable pub seconds : ℤ → ℤ
seconds (pos n) = wrap64 (pos (n * 1000000000))
seconds (negsuc n) = wrap64 (negsuc (suc n * 1000000000 - 1))

unfoldable pub arguments_of : Flags → Arguments
unfolding seconds
arguments_of f = record {
  http_timeout = seconds f.http_timeout;
  rpc_url = f.rpc_url;
  listen_address = f.listen_address;
  node_keys = f.node_keys;
  balance_addresses = f.balance_addresses;
  comprehensive_slot_tracking = f.comprehensive_slot_tracking;
  comprehensive_vote_account_tracking = f.comprehensive_vote_account_tracking;
  monitor_block_sizes = f.monitor_block_sizes;
  light_mode = f.light_mode;
  slot_pace = seconds f.slot_pace;
  active_identity = f.active_identity;
  epoch_cleanup_time = seconds f.epoch_cleanup_time;
  firedancer_metrics_port = f.firedancer_metrics_port;
}

-- `connect` makes the client of a URL, a timeout and a port.
unfoldable pub new_exporter_config_from_cli :
    {W F : Type 0} → (Text → ℤ → ℤ → Client W F) → List Setting → W → Result ExporterConfig × W
unfolding parse_flags arguments_of
new_exporter_config_from_cli connect settings world =
    let a = arguments_of (parse_flags settings default_flags) in
    new_exporter_config (connect a.rpc_url a.http_timeout a.firedancer_metrics_port) a world
