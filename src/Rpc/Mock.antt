-- ===== src/Rpc/Mock.antt =====
-- pkg/rpc/mock.go: the state of the mock server and how it is set.
pub mod Params
pub mod Answers
pub mod Serving
pub mod Production
pub mod Balances
use solana_exporter.Base.{
  ℤ, pos, int_eq, Bool, false, Text, text_eq, List, [], Map, lookup, insert, Option, none, some,
}
use solana_exporter.Rpc.Types.{RpcError}

-- The `int`s of the mock are integers.
pub record MockBlockInfo : Type 0 where
  pub fee : ℤ
  pub transactions : List (List Text)

-- `Block` is `none` where the slot was skipped.
pub record MockSlotInfo : Type 0 where
  pub leader : Text
  pub block : Option MockBlockInfo

pub record MockValidatorInfo : Type 0 where
  pub votekey : Text
  pub stake : ℤ
  pub last_vote : ℤ
  pub delinquent : Bool
  pub root_slot : ℤ

-- `A` is the type of the values of `easyResults`. A map that is `nil` is `none`, and so is an error that
-- is a `nil` pointer.
pub record MockServer (A : Type 0) : Type 0 where
  pub balances : Option (Map Text ℤ)
  pub inflation_rewards : Option (Map Text ℤ)
  pub easy_results : Option (Map Text A)
  pub easy_errors : Option (Map Text (Option RpcError))
  pub slot_infos : Option (Map ℤ MockSlotInfo)
  pub validator_infos : Option (Map Text MockValidatorInfo)

-- A map that is `nil` has no entries.
abbrev pub entries_of : {K V : Type 0} → Option (Map K V) → Map K V
entries_of none = []
entries_of (some m) = m

-- The zero value where there is no entry.
abbrev pub or_zero : {V : Type 0} → V → Option V → V
or_zero zero_value none = zero_value
or_zero zero_value (some v) = v

abbrev pub no_slot_info : MockSlotInfo
no_slot_info = record { leader = []; block = none }

abbrev no_validator_info : MockValidatorInfo
no_validator_info = record {
  votekey = [];
  stake = pos 0;
  last_vote = pos 0;
  delinquent = false;
  root_slot = pos 0;
}

-- An option with its key and its value, of the types that `SetOpt` asserts.
pub data MockOpt (A : Type 0) : Type 0 where
  balance_opt inflation_rewards_opt : Text → ℤ → MockOpt A
  easy_results_opt : Text → A → MockOpt A
  slot_infos_opt : ℤ → MockSlotInfo → MockOpt A
  validator_info_opt : Text → MockValidatorInfo → MockOpt A
  easy_errors_opt : Text → RpcError → MockOpt A

module _ {A : Type 0} where
  unfoldable pub set_opt : MockOpt A → MockServer A → MockServer A
  set_opt (balance_opt key value) s = record s {
    balances = some (insert key value (entries_of s.balances));
  }
  set_opt (inflation_rewards_opt key value) s = record s {
    inflation_rewards = some (insert key value (entries_of s.inflation_rewards));
  }
  set_opt (easy_results_opt key value) s = record s {
    easy_results = some (insert key value (entries_of s.easy_results));
  }
  set_opt (slot_infos_opt key value) s = record s {
    slot_infos = some (insert key value (entries_of s.slot_infos));
  }
  set_opt (validator_info_opt key value) s = record s {
    validator_infos = some (insert key value (entries_of s.validator_infos));
  }
  set_opt (easy_errors_opt key value) s = record s {
    easy_errors = some (insert key (some value) (entries_of s.easy_errors));
  }

  unfoldable pub get_validator_info : Text → MockServer A → MockValidatorInfo
  get_validator_info nodekey s =
      or_zero no_validator_info (lookup nodekey (entries_of s.validator_infos))
