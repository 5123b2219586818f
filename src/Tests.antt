-- ===== src/Tests.antt =====
-- A concrete node, API and float type, on which the library's theorems and definitions are run.
pub mod Watch
pub mod Scrapes
pub mod Helpers
pub mod Remote
pub mod Cli
pub mod Follow
pub mod Order
pub mod Start
pub mod Sharing
pub mod Mocks
use solana_exporter.Base.{ltb_ℤ, Float64, ℕ, zero, suc, ℤ, pos, ◌+64◌, Text, codes, false, [], ◌∷◌}
use solana_exporter.Rpc.Types.{
  Result, ok, err, Error, errorf, EpochInfo, VoteAccount, VoteAccounts, HostProduction,
  BlockProduction, Block, InflationReward,
}
use solana_exporter.Rpc.Client.{Client}
use solana_exporter.Config.{ExporterConfig}
use solana_exporter.Api.{Entry, Outside, stats}

-- Floats are integers here.
abbrev pub ints : Float64 ℤ
ints = record {
  of_int = λ z. z;
  div = λ a b. a;
  add = λ a b. a +64 b;
  max = λ a b. b;
  is_negative = λ z. ltb_ℤ z (pos 0);
}

abbrev pub node_key : Text
node_key = codes "N1"

abbrev pub vote_key : Text
vote_key = codes "V1"

abbrev pub accounts : VoteAccounts
accounts = record {
  current =
      record {
        activated_stake = pos 5000000000;
        last_vote = pos 9;
        node_pubkey = node_key;
        root_slot = pos 8;
        vote_pubkey = vote_key;
      }
      ∷ [];
  delinquent = [];
}

-- At time `t` the current slot is `8 + 4 * t`; an epoch has 10 slots, and slot 10 begins epoch 1.
abbrev pub epoch_info_at : ℕ → EpochInfo
epoch_info_at zero = record {
  absolute_slot = pos 12;
  block_height = pos 12;
  epoch = pos 1;
  slot_index = pos 2;
  slots_in_epoch = pos 10;
  transaction_count = pos 100;
}
epoch_info_at (suc zero) = record {
  absolute_slot = pos 16;
  block_height = pos 16;
  epoch = pos 1;
  slot_index = pos 6;
  slots_in_epoch = pos 10;
  transaction_count = pos 100;
}
epoch_info_at (suc (suc t)) = record {
  absolute_slot = pos 23;
  block_height = pos 22;
  epoch = pos 2;
  slot_index = pos 3;
  slots_in_epoch = pos 10;
  transaction_count = pos 100;
}

-- Every call succeeds; asking for the epoch takes one unit of time, nothing else takes any.
abbrev pub node : Client ℕ ℤ
node = record {
  get_epoch_info = λ commitment t. (ok (epoch_info_at t), suc t);
  get_vote_accounts = λ commitment t. (ok accounts, t);
  get_version = λ t. (ok (codes "2.1.0"), t);
  get_identity = λ t. (ok node_key, t);
  get_block_production = λ commitment from to t. (
    ok (record {
      by_identity = (node_key, record { leader_slots = pos 4; blocks_produced = pos 3 }) ∷ [];
    }),
    t,
  );
  get_balance = λ commitment address t. (ok (pos 7), t);
  get_inflation_reward = λ commitment addresses epoch t.
      (ok (record { amount = pos 1000000000; reward_epoch = epoch } ∷ []), t);
  get_leader_schedule = λ commitment slot t. (ok ((node_key, pos 2 ∷ pos 5 ∷ []) ∷ []), t);
  get_block = λ commitment slot details t. (ok (record { rewards = []; transactions = [] }), t);
  get_health = λ t. (ok (codes "ok"), t);
  get_minimum_ledger_slot = λ t. (ok (pos 1), t);
  get_first_available_block = λ t. (ok (pos 1), t);
  get_genesis_hash = λ t. (ok (codes "5eykt4UsFv8P8NJdTREpY1vzqKqZKvdpKuc147dw2N9d"), t);
  get_firedancer_metrics = λ t. (err (errorf (codes "refused")), t);
}

abbrev pub first_entry : Entry
first_entry = record {
  entry_epoch = pos 1;
  agave_min_version = codes "2.0.1";
  firedancer_min_version = codes "0.1";
}

abbrev pub second_entry : Entry
second_entry = record {
  entry_epoch = pos 2;
  agave_min_version = codes "2.2.0";
  firedancer_min_version = codes "0.2";
}

abbrev pub outside : Outside ℕ ℤ
outside = record {
  rpc_client = node;
  fetch_stats = λ cluster t. (stats (first_entry ∷ second_entry ∷ []), t);
  now = λ t. (pos 5, t);
}

abbrev pub config : ExporterConfig
config = record {
  http_timeout = pos 60;
  rpc_url = codes "http://node";
  listen_address = codes ":8080";
  node_keys = node_key ∷ [];
  vote_keys = vote_key ∷ [];
  balance_addresses = codes "B1" ∷ [];
  comprehensive_slot_tracking = false;
  comprehensive_vote_account_tracking = false;
  monitor_block_sizes = false;
  light_mode = false;
  slot_pace = pos 1;
  active_identity = node_key;
  epoch_cleanup_time = pos 60;
  firedancer_metrics_port = pos 7999;
}
