-- ===== src/Rpc/Questions.antt =====
-- What a request asks of a node, read from its method and from its parameters by their place and their
-- names, as the JSON-RPC interface of Solana documents them.
pub mod Reading
use solana_exporter.Base.{
  ℕ, ℤ, pos, int_eqb, Bool, true, false, ◌&&◌, Text, codes, text_eqb, List, get_elem?, Option, none,
  some, if◌then◌else◌, ◌≡◌, refl,
}
use solana_exporter.Rpc.Types.{Commitment, finalized, confirmed, processed}
use solana_exporter.Rpc.Wire.{Param, Fields, Request, commitment_text}
use solana_exporter.Rpc.Mock.Params.{string_of, strings_of, int_of, bool_of, fields_of, field_of}

-- A block is asked for with its rewards, as JSON, with transactions of version 0 at most.
pub data Question : Type 0 where
  asks_epoch_info : Commitment → Question
  asks_vote_accounts : Commitment → Question
  asks_version : Question
  asks_identity : Question
  asks_block_production : Commitment → ℤ → ℤ → Question
  asks_balance : Commitment → Text → Question
  asks_inflation_reward : Commitment → List Text → ℤ → Question
  asks_leader_schedule : Commitment → ℤ → Question
  asks_block : Commitment → ℤ → Text → Question
  asks_health : Question
  asks_minimum_ledger_slot : Question
  asks_first_available_block : Question
  asks_genesis_hash : Question

-- What follows something that may be missing.
infixl 5 ◌>>=◌
abbrev ◌>>=◌ : {A B : Type 0} → Option A → (A → Option B) → Option B
none >>= f = none
some a >>= f = f a

abbrev commitment_of : Text → Option Commitment
commitment_of name =
    if text_eqb name (codes "finalized")
    then some finalized
    else if text_eqb name (codes "confirmed")
    then some confirmed
    else if text_eqb name (codes "processed")
    then some processed
    else none

abbrev read_commitment : Fields → Option Commitment
read_commitment config = do
  value ← field_of (codes "commitment") config
  name ← string_of value
  commitment_of name

abbrev read_int : Text → Fields → Option ℤ
read_int name config = do value ← field_of name config; int_of value

abbrev read_text : Text → Fields → Option Text
read_text name config = do value ← field_of name config; string_of value

abbrev read_config : ℕ → List Param → Option Fields
read_config place params = do value ← get_elem? params place; fields_of value

-- A block in the form that the program reads.
abbrev is_readable : Text → Bool → ℤ → Bool
is_readable encoding rewards version =
    text_eqb encoding (codes "json") && rewards && int_eqb version (pos 0)

module _ (params : List Param) where
  abbrev read_plain : (Commitment → Question) → Option Question
  read_plain question = do
    config ← read_config 0 params
    commitment ← read_commitment config
    some (question commitment)

  abbrev read_block_production : Option Question
  read_block_production = do
    config ← read_config 0 params
    commitment ← read_commitment config
    value ← field_of (codes "range") config
    range ← fields_of value
    first_slot ← read_int (codes "firstSlot") range
    last_slot ← read_int (codes "lastSlot") range
    some (asks_block_production commitment first_slot last_slot)

  abbrev read_balance : Option Question
  read_balance = do
    value ← get_elem? params 0
    address ← string_of value
    config ← read_config 1 params
    commitment ← read_commitment config
    some (asks_balance commitment address)

  abbrev read_inflation_reward : Option Question
  read_inflation_reward = do
    value ← get_elem? params 0
    addresses ← strings_of value
    config ← read_config 1 params
    commitment ← read_commitment config
    epoch ← read_int (codes "epoch") config
    some (asks_inflation_reward commitment addresses epoch)

  abbrev read_leader_schedule : Option Question
  read_leader_schedule = do
    value ← get_elem? params 0
    slot ← int_of value
    config ← read_config 1 params
    commitment ← read_commitment config
    some (asks_leader_schedule commitment slot)

  abbrev read_block : Option Question
  read_block = do
    value ← get_elem? params 0
    slot ← int_of value
    config ← read_config 1 params
    commitment ← read_commitment config
    details ← read_text (codes "transactionDetails") config
    encoding ← read_text (codes "encoding") config
    given ← field_of (codes "rewards") config
    rewards ← bool_of given
    version ← read_int (codes "maxSupportedTransactionVersion") config
    if is_readable encoding rewards version then some (asks_block commitment slot details) else none

-- `none` is a request that no method of a node answers.
unfoldable pub read_question : Request → Option Question
read_question request =
    let is : Text → Bool = λ name. text_eqb request.method name in
    if is (codes "getEpochInfo")
    then read_plain request.params asks_epoch_info
    else if is (codes "getVoteAccounts")
    then read_plain request.params asks_vote_accounts
    else if is (codes "getVersion")
    then some asks_version
    else if is (codes "getIdentity")
    then some asks_identity
    else if is (codes "getBlockProduction")
    then read_block_production request.params
    else if is (codes "getBalance")
    then read_balance request.params
    else if is (codes "getInflationReward")
    then read_inflation_reward request.params
    else if is (codes "getLeaderSchedule")
    then read_leader_schedule request.params
    else if is (codes "getBlock")
    then read_block request.params
    else if is (codes "getHealth")
    then some asks_health
    else if is (codes "minimumLedgerSlot")
    then some asks_minimum_ledger_slot
    else if is (codes "getFirstAvailableBlock")
    then some asks_first_available_block
    else if is (codes "getGenesisHash")
    then some asks_genesis_hash
    else none
