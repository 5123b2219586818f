-- ===== src/Tests/Mocks.antt =====
-- The mock servers, and the RPC client and the slot watcher on them.
use solana_exporter.Base.{
  wrap64, ℕ, zero, suc, ℤ, pos, negsuc, ◌+ℤ◌, ◌-ℤ◌, ◌+64◌, Text, text_eq, codes, Map, lookup,
  Option, none, some, [], ◌∷◌, ◌≡◌, ◌≢◌, refl, arith, true, false,
}
use solana_exporter.Rpc.Types.{Result, ok, err, errorf, finalized, HostProduction, Block}
use solana_exporter.Rpc.Wire.{Response}
use solana_exporter.Rpc.Decoding.{Unmarshal}
use solana_exporter.Rpc.Node.{node_client}
use solana_exporter.Rpc.Mock.{
  MockServer, MockSlotInfo, MockValidatorInfo, MockBlockInfo, balance_opt, set_opt,
}
use solana_exporter.Rpc.Mock.Answers.{
  MockAnswer, balance_answer, block_answer, rewards_answer, production_answer, accounts_answer,
  easy_answer, is_set, production_between,
}
use solana_exporter.Rpc.Mock.Serving.{no_error, mock_http}
use solana_exporter.Rpc.Mock.Production.{
  share_of, host_of, led, produced, production_between-share_of,
}
use solana_exporter.Rpc.Mock.Balances.{IsDecoded, balance_of, get_balance-set_opt}
use solana_exporter.Slots.State.{Env, System, new_slot_watcher}
use solana_exporter.Slots.Mocked.{bare_block, slot_skipped}
use solana_exporter.Api.{
  State, new_cache, check_cache, is_fresh, get_min_required_version,
  get_next_epoch_min_required_version,
}
use solana_exporter.Api.Mock.{
  set_min_required_version, set_next_epoch_min_required_version, both_set,
  mock_min_required_version, mock_next_epoch_min_required_version, set-get_min_required_version,
}
use solana_exporter.Tests.{ints, node_key, config, outside}
use solana_exporter.Tests.Remote
use solana_exporter.Tests.Remote.{client, healthy}

abbrev write_int : ℤ → Text → Text
write_int (pos n) rest = 0 ∷ n ∷ rest
write_int (negsuc n) rest = 1 ∷ n ∷ rest

-- Two kinds of results are written, the others are not.
abbrev encode : Response (Option (MockAnswer ℕ)) → Text
encode response = elim response.result [
  | none ↦ []
  | some answer ↦ elim answer [
    | balance_answer n ↦ write_int n []
    | block_answer block ↦ elim block.rewards [
      | [] ↦ []
      | reward ∷ rewards ↦ write_int reward.lamports reward.pubkey
    ]
    | rewards_answer rewards ↦ []
    | production_answer hosts ↦ []
    | accounts_answer accounts ↦ []
    | easy_answer a ↦ []
  ]
]

abbrev read_int : Text → ℤ
read_int (zero ∷ n ∷ rest) = pos n
read_int (suc sign ∷ n ∷ rest) = negsuc n
read_int _ = pos 0

abbrev read_block : Text → Response Block
read_block (zero ∷ fee ∷ leader) = record { result = bare_block leader (pos fee); error = no_error }
read_block (suc sign ∷ fee ∷ leader) = record {
  result = bare_block leader (negsuc fee);
  error = no_error;
}
read_block _ = record { result = record { rewards = []; transactions = [] }; error = slot_skipped }

abbrev unmarshal : Unmarshal
unmarshal = record Remote.unmarshal {
  contextual_int =
      λ json. ok (record { result = record { value = read_int json }; error = no_error });
  block = λ json. ok (read_block json);
}

-- Slot 3 has a block, slot 4 was skipped.
abbrev block_three : MockBlockInfo
block_three = record { fee = pos 5000; transactions = [] }

abbrev slot_three : MockSlotInfo
slot_three = record { leader = node_key; block = some block_three }

abbrev slot_four : MockSlotInfo
slot_four = record { leader = node_key; block = none }

abbrev infos : Map ℤ MockSlotInfo
infos = (pos 3, slot_three) ∷ (pos 4, slot_four) ∷ []

abbrev validator : MockValidatorInfo
validator = record {
  votekey = codes "V1";
  stake = pos 10;
  last_vote = pos 4;
  delinquent = false;
  root_slot = pos 2;
}

abbrev validators : Map Text MockValidatorInfo
validators = (node_key, validator) ∷ []

abbrev server : MockServer ℕ
server = record {
  balances = some ((codes "B1", pos 7) ∷ []);
  inflation_rewards = none;
  easy_results = none;
  easy_errors = none;
  slot_infos = some infos;
  validator_infos = some validators;
}

abbrev no_metrics : Text → MockServer ℕ → Result ℤ × MockServer ℕ
no_metrics url s = (err (errorf (codes "refused")), s)

balance-IsDecoded : IsDecoded encode unmarshal
balance-IsDecoded (pos n) = refl
balance-IsDecoded (negsuc n) = refl

abbrev balance : Text → MockServer ℕ → Result ℤ
balance address s =
    balance_of encode unmarshal balance-IsDecoded no_metrics ints client finalized address s

get_balance-set_opt_example :
    let t = set_opt (balance_opt (codes "B2") (pos 9)) server in
    (balance (codes "B2") t ≡ ok (pos 9))
    × (codes "B1" ≢ codes "B2"
        → is_set server.balances ≡ true
        → balance (codes "B1") t ≡ balance (codes "B1") server)
get_balance-set_opt_example =
    get_balance-set_opt encode unmarshal balance-IsDecoded no_metrics ints client finalized server
      (codes "B2") (codes "B1") (pos 9) refl

production_between-share_of_example :
    (m : Map Text HostProduction) × (production_between infos validators (pos 3) (pos 4) ≡ some m)
    × ((key : Text)
        → lookup key m
          ≡ share_of
              (host_of (led infos key 2 (pos 3)) (produced infos key 2 (pos 3)))
              (lookup key validators))
unfolding ◌+ℤ◌ ◌-ℤ◌ ◌+64◌ wrap64
production_between-share_of_example =
    production_between-share_of infos validators (pos 3) (pos 4) 2 refl ((λ e. cc), ((λ e. cc), tt))
      (omega arith)

abbrev env : Env (MockServer ℕ) ℤ
env = record {
  client = node_client (mock_http encode no_metrics) unmarshal ints client;
  float = ints;
  config = config;
}

abbrev watching : System (MockServer ℕ)
watching = record { watcher = new_slot_watcher; world = server }

abbrev empty : State ℕ
empty = record { cache = new_cache; world = 0 }

set-get_min_required_version_example :
    let v = codes "2.0.1" in
    let t = both_set outside v (codes "0.1") (codes "2.2.0") (codes "0.2") empty in
    let u : State ℕ = record { cache = t.cache; world = 0 } in
    (get_min_required_version outside (codes "testnet") t
      ≡ (ok (mock_min_required_version (codes "testnet") t.cache), u))
    × (get_next_epoch_min_required_version outside (codes "testnet") t
        ≡ (ok (mock_next_epoch_min_required_version (codes "testnet") t.cache), u))
    × (mock_min_required_version (codes "testnet") t.cache ≡ record {
      version = v;
      cluster = codes "testnet";
      for_epoch = pos 797;
      firedancer = codes "0.1";
    })
    × (mock_next_epoch_min_required_version (codes "testnet") t.cache ≡ record {
      version = codes "2.2.0";
      cluster = codes "testnet";
      for_epoch = pos 798;
      firedancer = codes "0.2";
    })
unfolding set_min_required_version set_next_epoch_min_required_version check_cache is_fresh ◌-ℤ◌
set-get_min_required_version_example =
    set-get_min_required_version outside (codes "2.0.1") (codes "0.1") (codes "2.2.0") (codes "0.2")
      (codes "testnet") empty refl
