-- ===== src/Rpc/Client.antt =====
-- pkg/rpc/client.go: the methods of `Client` as an interface. `W` is the world outside the program,
-- which each call may change: an answer may differ from one call to the next. An error's text is the
-- method's own.
use solana_exporter.Base.{ℤ, List, Text, Map}
use solana_exporter.Rpc.Types.{
  Result, Commitment, EpochInfo, VoteAccounts, BlockProduction, InflationReward, Block,
}

-- `F` is the type of `float64` values.
pub record Client (W F : Type 0) : Type 0 where
  pub get_epoch_info : Commitment → W → Result EpochInfo × W
  pub get_vote_accounts : Commitment → W → Result VoteAccounts × W
  pub get_version : W → Result Text × W
  pub get_identity : W → Result Text × W
  pub get_block_production : Commitment → ℤ → ℤ → W → Result BlockProduction × W
  pub get_balance : Commitment → Text → W → Result F × W
  pub get_inflation_reward : Commitment → List Text → ℤ → W → Result (List InflationReward) × W
  pub get_leader_schedule : Commitment → ℤ → W → Result (Map Text (List ℤ)) × W
  pub get_block : Commitment → ℤ → Text → W → Result Block × W
  pub get_health : W → Result Text × W
  pub get_minimum_ledger_slot : W → Result ℤ × W
  pub get_first_available_block : W → Result ℤ × W
  pub get_genesis_hash : W → Result Text × W
  -- The status code of the answer.
  pub get_firedancer_metrics : W → Result ℤ × W
