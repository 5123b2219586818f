-- ===== src/Rpc/Mock/Answers.antt =====
-- `getResult` of pkg/rpc/mock.go.
use solana_exporter.Base.{
  ℕ, zero, suc, ℤ, pos, negsuc, pos_part, ◌+64◌, ◌+ℤ◌, ◌-ℤ◌, int_eq, Bool, true, false, ◌&&◌, Text,
  codes, text_eqb, text_eq, List, [], ◌∷◌, map, get_elem?, Map, lookup, insert, Option, none, some,
  if◌then◌else◌,
}
use solana_exporter.Rpc.Types.{
  RpcError, HostProduction, InflationReward, BlockReward, Transaction, full_transaction, Block,
  VoteAccount, VoteAccounts,
}
use solana_exporter.Rpc.Errors.{slot_skipped_code, block_cleaned_up_code}
use solana_exporter.Rpc.Wire.{Param}
use solana_exporter.Rpc.Mock.{
  MockSlotInfo, MockValidatorInfo, MockServer, entries_of, or_zero, no_slot_info,
}
use solana_exporter.Rpc.Mock.Params.{string_of, strings_of, int_of, bool_of, fields_of, field_of}

-- The JSON value of a result, a constructor for each of the forms that are built.
pub data MockAnswer (A : Type 0) : Type 0 where
  balance_answer : ℤ → MockAnswer A
  rewards_answer : List InflationReward → MockAnswer A
  block_answer : Block → MockAnswer A
  production_answer : Map Text HostProduction → MockAnswer A
  accounts_answer : VoteAccounts → MockAnswer A
  easy_answer : A → MockAnswer A

-- A handler that panics answers nothing.
pub data Served (A : Type 0) : Type 0 where
  served : MockAnswer A → Served A
  refused : RpcError → Served A
  panicked : Served A

-- What follows an index or an assertion that may panic.
infixl 5 ◌>>=◌
abbrev pub ◌>>=◌ : {A B : Type 0} → Option B → (B → Served A) → Served A
none >>= f = panicked
some b >>= f = f b

abbrev pub error_of : ℤ → Text → RpcError
error_of code message = record {
  message = message;
  error_code = code;
  error_data = none;
  method = [];
}

abbrev pub is_set : {A : Type 0} → Option A → Bool
is_set none = false
is_set (some a) = true

abbrev transactions_of : Text → List (List Text) → List Transaction
transactions_of details transactions =
    if text_eqb details (codes "full") then map full_transaction transactions else []

abbrev pub rewards_of : Bool → Text → ℤ → List BlockReward
rewards_of included leader fee =
    if included
    then record { pubkey = leader; lamports = fee; reward_type = codes "fee" } ∷ []
    else []

-- The loop over the slots, from `slot` on, for as many as there are; `none` is the panic at the empty
-- production of a leader that is no validator.
abbrev pub led_in : MockSlotInfo → HostProduction → HostProduction
led_in info host = record {
  leader_slots = host.leader_slots +64 pos 1;
  blocks_produced =
      if is_set info.block then host.blocks_produced +64 pos 1 else host.blocks_produced;
}

abbrev add_slot :
    MockSlotInfo
    → Option HostProduction
    → Map Text HostProduction
    → Option (Map Text HostProduction)
add_slot info none by_identity = none
add_slot info (some host) by_identity = some (insert info.leader (led_in info host) by_identity)

abbrev pub slot_info : Map ℤ MockSlotInfo → ℤ → MockSlotInfo
slot_info infos slot = or_zero no_slot_info (lookup slot infos)

unfoldable pub add_slots :
    Map ℤ MockSlotInfo → ℕ → ℤ → Option (Map Text HostProduction) → Option (Map Text HostProduction)
add_slots infos count slot none = none
add_slots infos zero slot (some by_identity) = some by_identity
add_slots infos (suc count) slot (some by_identity) =
    let info = slot_info infos slot in
    add_slots infos count (slot +64 pos 1)
      (add_slot info (lookup info.leader by_identity) by_identity)

-- How many slots the loop goes over.
abbrev pub slots_between : ℤ → ℤ → ℕ
slots_between first_slot last_slot = pos_part (last_slot -ℤ first_slot +ℤ pos 1)

abbrev pub no_production : Map Text MockValidatorInfo → Map Text HostProduction
no_production validators =
    map (λ p. (p.0, record { leader_slots = pos 0; blocks_produced = pos 0 })) validators

unfoldable pub production_between :
    Map ℤ MockSlotInfo → Map Text MockValidatorInfo → ℤ → ℤ → Option (Map Text HostProduction)
unfolding add_slots
production_between infos validators first_slot last_slot =
    add_slots infos (slots_between first_slot last_slot) first_slot
      (some (no_production validators))

abbrev vote_account : Text → MockValidatorInfo → VoteAccount
vote_account nodekey info = record {
  activated_stake = info.stake;
  last_vote = info.last_vote;
  node_pubkey = nodekey;
  root_slot = info.root_slot;
  vote_pubkey = info.votekey;
}

abbrev pub add_account : Bool → VoteAccount → VoteAccounts → VoteAccounts
add_account true account accounts = record accounts { delinquent = account ∷ accounts.delinquent }
add_account false account accounts = record accounts { current = account ∷ accounts.current }

-- Both lists are in the order of the map.
abbrev vote_accounts_of : Map Text MockValidatorInfo → VoteAccounts
vote_accounts_of [] = record { current = []; delinquent = [] }
vote_accounts_of ((nodekey, info) ∷ validators) =
    add_account info.delinquent (vote_account nodekey info) (vote_accounts_of validators)

module _ {A : Type 0} (s : MockServer A) where
  unfoldable pub serve_balance : List Param → Served A
  serve_balance params = do
    first ← get_elem? params 0
    address ← string_of first
    served (balance_answer (or_zero (pos 0) (lookup address (entries_of s.balances))))

  unfoldable pub serve_inflation_reward : List Param → Served A
  serve_inflation_reward params = do
    first ← get_elem? params 0
    addresses ← strings_of first
    second ← get_elem? params 1
    config ← fields_of second
    value ← field_of (codes "epoch") config
    epoch ← int_of value
    served (
        rewards_answer (
          map
            (λ address. record {
              amount = or_zero (pos 0) (lookup address (entries_of s.inflation_rewards));
              reward_epoch = epoch;
            })
            addresses))

  unfoldable pub serve_slot : Text → Bool → Option MockSlotInfo → Served A
  serve_slot details included none =
      refused (error_of block_cleaned_up_code (codes "Block cleaned up."))
  serve_slot details included (some info) = elim info.block [
    | none ↦ refused (error_of slot_skipped_code (codes "Slot skipped."))
    | some block ↦ served (
        block_answer (record {
          rewards = rewards_of included info.leader block.fee;
          transactions = transactions_of details block.transactions;
        }))
  ]

  unfoldable pub serve_block : List Param → Served A
  unfolding serve_slot
  serve_block params = do
    first ← get_elem? params 0
    slot ← int_of first
    second ← get_elem? params 1
    config ← fields_of second
    value ← field_of (codes "transactionDetails") config
    details ← string_of value
    flag ← field_of (codes "rewards") config
    included ← bool_of flag
    serve_slot details included (lookup slot (entries_of s.slot_infos))

  unfoldable pub serve_block_production : List Param → Served A
  unfolding production_between
  serve_block_production params = do
    first ← get_elem? params 0
    config ← fields_of first
    value ← field_of (codes "range") config
    range ← fields_of value
    from ← field_of (codes "firstSlot") range
    first_slot ← int_of from
    to ← field_of (codes "lastSlot") range
    last_slot ← int_of to
    by_identity ←
        production_between (entries_of s.slot_infos) (entries_of s.validator_infos) first_slot
          last_slot
    served (production_answer by_identity)

  unfoldable pub serve_easy : Option A → Served A
  serve_easy none = refused (error_of (negsuc 32600) (codes "Method not found"))
  serve_easy (some a) = served (easy_answer a)

  -- Below the test for an error that is set for the method.
  unfoldable pub serve_method : Text → List Param → Served A
  unfolding serve_balance serve_inflation_reward serve_block serve_block_production serve_easy
  serve_method method params =
      if text_eqb method (codes "getBalance") && is_set s.balances
      then serve_balance params
      else if text_eqb method (codes "getInflationReward") && is_set s.inflation_rewards
      then serve_inflation_reward params
      else if text_eqb method (codes "getBlock") && is_set s.slot_infos
      then serve_block params
      else if text_eqb method (codes "getBlockProduction") && is_set s.slot_infos
      then serve_block_production params
      else if text_eqb method (codes "getVoteAccounts") && is_set s.validator_infos
      then served (accounts_answer (vote_accounts_of (entries_of s.validator_infos)))
      else serve_easy (lookup method (entries_of s.easy_results))

  unfoldable pub get_result : Text → List Param → Served A
  unfolding serve_method
  get_result method params = elim (lookup method (entries_of s.easy_errors)) [
    | none ↦ serve_method method params
    | some error ↦ elim error [ none ↦ serve_method method params | some e ↦ refused e ]
  ]
