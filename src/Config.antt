-- ===== src/Config.antt =====
-- cmd/solana-exporter/config.go: the exporter's configuration and how it is validated.
pub mod Light
pub mod Cli
use solana_exporter.Base.{
  ℕ, ◌<◌, ltb, ℤ, Text, codes, Bool, true, false, List, length, if◌then◌else◌, Option, none, some,
}
use solana_exporter.Rpc.Types.{Result, ok, err, errorf, wrap, finalized}
use solana_exporter.Rpc.Client.{Client}
use solana_exporter.Utils.Accounts.{get_associated_vote_accounts}

-- Durations are in nanoseconds.
pub record ExporterConfig : Type 0 where
  pub http_timeout : ℤ
  pub rpc_url : Text
  pub listen_address : Text
  pub node_keys : List Text
  pub vote_keys : List Text
  pub balance_addresses : List Text
  pub comprehensive_slot_tracking : Bool
  pub comprehensive_vote_account_tracking : Bool
  pub monitor_block_sizes : Bool
  pub light_mode : Bool
  pub slot_pace : ℤ
  pub active_identity : Text
  pub epoch_cleanup_time : ℤ
  pub firedancer_metrics_port : ℤ

-- The arguments of `NewExporterConfig` are its configuration but for the votekeys.
pub record Arguments : Type 0 where
  pub http_timeout : ℤ
  pub rpc_url : Text
  pub listen_address : Text
  pub node_keys : List Text
  pub balance_addresses : List Text
  pub comprehensive_slot_tracking : Bool
  pub comprehensive_vote_account_tracking : Bool
  pub monitor_block_sizes : Bool
  pub light_mode : Bool
  pub slot_pace : ℤ
  pub active_identity : Text
  pub epoch_cleanup_time : ℤ
  pub firedancer_metrics_port : ℤ

-- The options that `-light-mode` excludes, in the order in which they are tested.
light_mode_conflict : Arguments → Option Text
light_mode_conflict a =
    if a.comprehensive_slot_tracking
    then some (codes "'-light-mode' is incompatible with `-comprehensive-slot-tracking`")
    else if a.comprehensive_vote_account_tracking
    then some (codes "'-light-mode' is incompatible with '-comprehensive-vote-account-tracking'")
    else if a.monitor_block_sizes
    then some (codes "'-light-mode' is incompatible with `-monitor-block-sizes`")
    else if ltb 0 (length a.node_keys)
    then some (codes "'-light-mode' is incompatible with `-nodekey`")
    else if ltb 0 (length a.balance_addresses)
    then some (codes "'-light-mode' is incompatible with `-balance-addresses`")
    else none

-- What is returned once the votekeys are known.
with_votekeys : Arguments → Result (List Text) → Result ExporterConfig
with_votekeys a (err e) = err (wrap (codes "error getting vote accounts") e)
with_votekeys a (ok vote_keys) = ok (record {
  http_timeout = a.http_timeout;
  rpc_url = a.rpc_url;
  listen_address = a.listen_address;
  node_keys = a.node_keys;
  vote_keys = vote_keys;
  balance_addresses = a.balance_addresses;
  comprehensive_slot_tracking = a.comprehensive_slot_tracking;
  comprehensive_vote_account_tracking = a.comprehensive_vote_account_tracking;
  monitor_block_sizes = a.monitor_block_sizes;
  light_mode = a.light_mode;
  slot_pace = a.slot_pace;
  active_identity = a.active_identity;
  epoch_cleanup_time = a.epoch_cleanup_time;
  firedancer_metrics_port = a.firedancer_metrics_port;
})

pub conflict : Arguments → Option Text
unfolding light_mode_conflict
conflict a = if a.light_mode then light_mode_conflict a else none

-- The client for `rpc_url` is an argument.
unfoldable pub new_exporter_config :
    {W F : Type 0} → Client W F → Arguments → W → Result ExporterConfig × W
unfolding conflict with_votekeys
new_exporter_config client a world = elim (conflict a) [
  | some message ↦ (err (errorf message), world)
  | none ↦
      let (answer, world') = get_associated_vote_accounts client finalized a.node_keys world in
      (with_votekeys a answer, world')
]
