-- ===== src/Rpc/Types.antt =====
-- pkg/rpc/responses.go: what the node answers, decoded. An `int64` or `int` is an integer in range.
use solana_exporter.Base.{ℤ, pos, List, Text, Map, Option}

-- What the program reads of a JSON value of type `any`. `number n` is one that is written as an
-- integer, `real` one that is written with a fraction or an exponent.
pub data Json : Type 0 where
  null real text list object : Json
  boolean : Json
  number : ℤ → Json

-- `data` in the order of its keys when it is encoded.
pub record RpcError : Type 0 where
  pub message : Text
  pub error_code : ℤ
  pub error_data : Option (Map Text Json)
  pub method : Text

-- A Go `error` of this program: a call's error, or text, perhaps about another error (`%w`).
pub data Error : Type 0 where
  rpc : RpcError → Error
  errorf : Text → Error
  wrap : Text → Error → Error

pub data Result (A : Type 0) : Type 0 where
  err : Error → Result A
  ok : A → Result A

pub record EpochInfo : Type 0 where
  pub absolute_slot : ℤ
  pub block_height : ℤ
  pub epoch : ℤ
  pub slot_index : ℤ
  pub slots_in_epoch : ℤ
  pub transaction_count : ℤ

pub record VoteAccount : Type 0 where
  pub activated_stake : ℤ
  pub last_vote : ℤ
  pub node_pubkey : Text
  pub root_slot : ℤ
  pub vote_pubkey : Text

pub record VoteAccounts : Type 0 where
  pub current : List VoteAccount
  pub delinquent : List VoteAccount

pub record HostProduction : Type 0 where
  pub leader_slots : ℤ
  pub blocks_produced : ℤ

-- The slot range of the answer is decoded and never read, and left out.
pub record BlockProduction : Type 0 where
  pub by_identity : Map Text HostProduction

pub record InflationReward : Type 0 where
  pub amount : ℤ
  pub reward_epoch : ℤ

pub record BlockReward : Type 0 where
  pub pubkey : Text
  pub lamports : ℤ
  pub reward_type : Text

-- A transaction that is decoded again as `FullTransaction` gives its account keys; one that does not
-- have that form gives `malformed`.
pub data Transaction : Type 0 where
  full_transaction : List Text → Transaction
  malformed : Transaction

pub record Block : Type 0 where
  pub rewards : List BlockReward
  pub transactions : List Transaction

pub data Commitment : Type 0 where
  finalized confirmed processed : Commitment

abbrev pub lamports_in_sol : ℤ
lamports_in_sol = pos 1000000000
