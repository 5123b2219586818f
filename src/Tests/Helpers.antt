-- ===== src/Tests/Helpers.antt =====
-- The helpers and the configuration on the test node.
use solana_exporter.Base.{
  pos, ◌≤ℤ◌, Text, codes, length, In, List, [], ◌∷◌, ◌++◌, false, true, ◌≡◌, refl, ◌↔◌, text_eq,
  ◌+64◌, to_lower, int_eq, ℤ, none, some, lookup, ◌≢◌, ◌⊎◌,
}
use solana_exporter.Rpc.Types.{finalized, Error, rpc, number, ok, confirmed, VoteAccounts}
use solana_exporter.Utils.Accounts.{get_associated_vote_accounts}
use solana_exporter.Utils.Accounts.Votekeys.{Associated, get_associated_vote_accounts-Associated}
use solana_exporter.Utils.Unique.{combine_unique}
use solana_exporter.Utils.Unique.Members.{IsUnique, InAny, combine_unique-IsUnique}
use solana_exporter.Utils.Schedule.{get_trimmed_leader_schedule, Schedule, select_from_schedule}
use solana_exporter.Utils.Schedule.Selection.{Leads, select_from_schedule-Leads}
use solana_exporter.Utils.Tracker.{
  Tracker, get_tracked_validators, add_nodekeys, add_tracked_nodekeys,
}
use solana_exporter.Utils.Tracker.Taken.{tracked, get_tracked_validators-add_tracked_nodekeys}
use solana_exporter.Rpc.Errors.{
  node_unhealthy_code, as_rpc_error, unpack_rpc_error_data, decode_num_slots_behind,
}
use solana_exporter.Utils.Health.{extract_health_and_num_slots_behind}
use solana_exporter.Utils.Health.Verdict.{IsVerdict, extract_health_and_num_slots_behind-IsVerdict}
use solana_exporter.Utils.Schedule.Trimming.{trimmed_of, get_trimmed_leader_schedule-trimmed_of}
use solana_exporter.Config.{Arguments, new_exporter_config}
use solana_exporter.Config.Light.{IsBare, new_exporter_config-IsValid}
use solana_exporter.Tests.{node, accounts, node_key, vote_key, config}

associated : (get_associated_vote_accounts node confirmed (node_key ∷ []) 0).0 ≡ ok (vote_key ∷ [])
unfolding get_associated_vote_accounts
associated = refl

get_associated_vote_accounts-Associated_example :
    (found : VoteAccounts) × (ok accounts ≡ ok found)
    × Associated (found.current ++ found.delinquent) (node_key ∷ []) (vote_key ∷ [])
get_associated_vote_accounts-Associated_example =
    get_associated_vote_accounts-Associated node confirmed (node_key ∷ []) (vote_key ∷ []) 0
      associated

abbrev arguments : Arguments
arguments = record {
  http_timeout = config.http_timeout;
  rpc_url = config.rpc_url;
  listen_address = config.listen_address;
  node_keys = config.node_keys;
  balance_addresses = config.balance_addresses;
  comprehensive_slot_tracking = false;
  comprehensive_vote_account_tracking = false;
  monitor_block_sizes = false;
  light_mode = false;
  slot_pace = config.slot_pace;
  active_identity = config.active_identity;
  epoch_cleanup_time = config.epoch_cleanup_time;
  firedancer_metrics_port = config.firedancer_metrics_port;
}

configured : (new_exporter_config node arguments 0).0 ≡ ok config
unfolding new_exporter_config get_associated_vote_accounts
configured = refl

new_exporter_config-IsValid_example :
    ((found : VoteAccounts) × ((node.get_vote_accounts finalized 0).0 ≡ ok found)
      × Associated (found.current ++ found.delinquent) config.node_keys config.vote_keys)
    × (length config.vote_keys ≡ length config.node_keys)
    × (config.light_mode ≡ true → IsBare config)
new_exporter_config-IsValid_example = new_exporter_config-IsValid node arguments 0 config configured

abbrev lists : List (List Text)
lists = (codes "a" ∷ codes "b" ∷ []) ∷ (codes "b" ∷ codes "c" ∷ []) ∷ []

combined : combine_unique lists ≡ codes "a" ∷ codes "b" ∷ codes "c" ∷ []
unfolding combine_unique
combined = refl

combine_unique-IsUnique_example :
    IsUnique (combine_unique lists) × ((x : Text) → In x (combine_unique lists) ↔ InAny x lists)
combine_unique-IsUnique_example = combine_unique-IsUnique lists

abbrev schedule : Schedule
schedule = (node_key, pos 3 ∷ pos 5 ∷ pos 9 ∷ []) ∷ []

select_from_schedule-Leads_example :
    Leads (select_from_schedule schedule (pos 4) (pos 5)) node_key (pos 5)
    ↔ (Leads schedule node_key (pos 5) × (pos 4 ≤ℤ pos 5) × (pos 5 ≤ℤ pos 5))
select_from_schedule-Leads_example =
    select_from_schedule-Leads schedule (pos 4) (pos 5) (refl, tt) node_key (pos 5)

-- Epoch 1 has one nodekey already.
abbrev tracker : Tracker
tracker = (pos 1, codes "N1" ∷ []) ∷ []

get_tracked_validators-add_tracked_nodekeys_example :
    let (answer, after) =
      get_tracked_validators
        (pos 1)
        (add_tracked_nodekeys (pos 1) (codes "N2" ∷ codes "N1" ∷ []) tracker) in
    ((taken : List Text) × (answer ≡ some taken)
      × ((x : Text)
          → In x taken ↔ (In x (tracked (pos 1) tracker) ⊎ In x (codes "N2" ∷ codes "N1" ∷ []))))
    × (lookup (pos 1) after ≡ none)
    × ((other : ℤ) → pos 1 ≢ other → lookup other after ≡ lookup other tracker)
get_tracked_validators-add_tracked_nodekeys_example =
    get_tracked_validators-add_tracked_nodekeys (pos 1) (codes "N2" ∷ codes "N1" ∷ []) tracker

taken_once :
    (get_tracked_validators
      (pos 1)
      (add_tracked_nodekeys (pos 1) (codes "N2" ∷ codes "N1" ∷ []) tracker)).0
    ≡ some (codes "N1" ∷ codes "N2" ∷ [])
unfolding get_tracked_validators add_tracked_nodekeys add_nodekeys
taken_once = refl

-- A node that is 42 slots behind.
abbrev behind : Error
behind = rpc (record {
  message = codes "Node is behind by 42 slots";
  error_code = node_unhealthy_code;
  error_data = some ((codes "numSlotsBehind", number (pos 42)) ∷ []);
  method = codes "getHealth";
})

slots_behind : (extract_health_and_num_slots_behind [] (some behind)).num_slots_behind ≡ pos 42
unfolding extract_health_and_num_slots_behind unpack_rpc_error_data as_rpc_error
    decode_num_slots_behind to_lower
slots_behind = refl

extract_health_and_num_slots_behind-IsVerdict_example :
    IsVerdict [] (some behind) (extract_health_and_num_slots_behind [] (some behind))
extract_health_and_num_slots_behind-IsVerdict_example =
    extract_health_and_num_slots_behind-IsVerdict [] (some behind)

-- The node answers with slot indexes 2 and 5; the epoch begins at slot 10.
trimmed :
    (get_trimmed_leader_schedule node (node_key ∷ codes "N9" ∷ []) (pos 12) (pos 10) 0).0
    ≡ ok ((node_key, pos 12 ∷ pos 15 ∷ []) ∷ [])
unfolding get_trimmed_leader_schedule ◌+64◌
trimmed = refl

get_trimmed_leader_schedule-trimmed_of_example :
    (found : Schedule) × (ok ((node_key, pos 2 ∷ pos 5 ∷ []) ∷ []) ≡ ok found)
    × (lookup node_key ((node_key, pos 12 ∷ pos 15 ∷ []) ∷ [])
        ≡ trimmed_of (pos 10) (lookup node_key found) none)
get_trimmed_leader_schedule-trimmed_of_example =
    get_trimmed_leader_schedule-trimmed_of node (node_key ∷ codes "N9" ∷ []) (pos 12) (pos 10) 0
      ((node_key, pos 12 ∷ pos 15 ∷ []) ∷ []) node_key trimmed
