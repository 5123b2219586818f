-- ===== src/Slots/Live.antt =====
-- What the slot watcher relies on of the chain and of a node that follows it.
pub mod Rules
pub mod Parts
pub mod Schedules
pub mod Moves
pub mod Epochs
pub mod Positions
pub mod Rounds
pub mod Following
use solana_exporter.Base.{
  ℤ, pos, ◌+64◌, ◌+ℤ◌, ◌≤ℤ◌, IsInt64, ◌≤◌, Text, List, length, All, Map, lookup, text_eq, some,
  true, false, ◌≡◌,
}
use solana_exporter.Rpc.Types.{
  ok, EpochInfo, finalized, confirmed, HostProduction, BlockProduction, InflationReward,
  BlockReward, Block, lamports_in_sol,
}
use solana_exporter.Utils.Schedule.{Schedule, get_epoch_bounds}
use solana_exporter.Slots.State.{Env, Watcher}
use solana_exporter.Slots.Infos.{is_fee}

-- The first and the last slot of each epoch, and each slot's leader.
pub record Chain : Type 0 where
  pub first : ℤ → ℤ
  pub last : ℤ → ℤ
  pub leader : ℤ → Text

-- An epoch begins right after the one before it.
abbrev pub IsAdjacent : Chain → Type 0
IsAdjacent chain = (e : ℤ) → chain.first (e +ℤ pos 1) ≡ chain.last e +ℤ pos 1

-- The epoch is not epoch 0, and its numbers and the ones after them fit.
pub record IsEpoch (chain : Chain) (e : ℤ) : Type 0 where
  pub epoch_positive : pos 1 ≤ℤ e
  pub epoch_fits : IsInt64 e
  pub first_nonnegative : pos 0 ≤ℤ chain.first e
  pub last_fits : IsInt64 (chain.last e +ℤ pos 1)

-- An answer of `getEpochInfo` that agrees with the chain.
pub record IsInfo (chain : Chain) (info : EpochInfo) : Type 0 where
  pub epoch : IsEpoch chain info.epoch
  pub bounds : get_epoch_bounds info ≡ (chain.first info.epoch, chain.last info.epoch)
  pub after_first : chain.first info.epoch ≤ℤ info.absolute_slot
  pub before_last : info.absolute_slot ≤ℤ chain.last info.epoch

-- A validator produces a block in some of its slots.
abbrev pub IsHost : HostProduction → Type 0
IsHost host =
    (pos 0 ≤ℤ host.blocks_produced)
    × (host.blocks_produced ≤ℤ host.leader_slots)
    × IsInt64 host.leader_slots

-- A fee reward goes to the slot's leader.
abbrev pub IsReward : Chain → ℤ → BlockReward → Type 0
IsReward chain slot reward =
    is_fee reward ≡ true → (reward.pubkey ≡ chain.leader slot) × (pos 0 ≤ℤ reward.lamports)

-- The answers of the node, in any world, agree with the chain; and a float is not negative where it
-- is made of an integer, or of one divided by the lamports in a SOL, that is not.
pub record IsSound {W F : Type 0} (env : Env W F) (chain : Chain) : Type 0 where
  pub float_int : (z : ℤ) → pos 0 ≤ℤ z → env.float.is_negative (env.float.of_int z) ≡ false
  pub float_sol :
      (z : ℤ)
      → pos 0 ≤ℤ z
      → env.float.is_negative
          (env.float.div (env.float.of_int z) (env.float.of_int lamports_in_sol))
        ≡ false
  pub productions :
      (from to : ℤ) (w : W) (answer : BlockProduction)
      → (env.client.get_block_production finalized from to w).0 ≡ ok answer
      → All (λ p. IsHost p.1) answer.by_identity
  pub inflation :
      (epoch : ℤ) (w : W) (rewards : List InflationReward)
      → (env.client.get_inflation_reward confirmed env.config.vote_keys epoch w).0 ≡ ok rewards
      → (length rewards ≤ length env.config.vote_keys)
        × All (λ reward. pos 0 ≤ℤ reward.amount) rewards
  pub schedules :
      (e slot : ℤ) (w : W) (schedule : Schedule) (key : Text) (indexes : List ℤ)
      → chain.first e ≤ℤ slot
      → slot ≤ℤ chain.last e
      → (env.client.get_leader_schedule confirmed slot w).0 ≡ ok schedule
      → lookup key schedule ≡ some indexes
      → All (λ index. chain.leader (index +64 chain.first e) ≡ key) indexes
  pub blocks :
      (slot : ℤ) (details : Text) (w : W) (block : Block)
      → (env.client.get_block confirmed slot details w).0 ≡ ok block
      → All (IsReward chain slot) block.rewards

-- Each slot of the schedule is led by its validator.
abbrev pub IsLed : Chain → Schedule → Type 0
IsLed chain schedule = All (λ p. All (λ slot. chain.leader slot ≡ p.0) p.1) schedule

-- The watcher watches epoch `e` of the chain and has come to slot `mark`.
abbrev pub IsAt : Chain → ℤ → ℤ → Watcher → Type 0
IsAt chain e mark w =
    (w.current_epoch ≡ e)
    × (w.first_slot ≡ chain.first e)
    × (w.last_slot ≡ chain.last e)
    × (w.slot_watermark ≡ mark)
    × IsLed chain w.leader_schedule

-- The slot lies in the epoch, or is the one before it.
abbrev pub IsWithin : Chain → ℤ → ℤ → Type 0
IsWithin chain e mark = (chain.first e ≤ℤ mark +ℤ pos 1) × (mark ≤ℤ chain.last e)
