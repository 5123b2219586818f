-- ===== src/Slots/Live/Positions.antt =====
-- Where the slot watcher is, as the answers of the node move it.
use solana_exporter.Base.{
  ℕ, zero, suc, ℤ, pos, ◌+ℤ◌, ◌-64◌, -64_lem, +ℤ_parts, ◌≤ℤ◌, leb_ℤ, int_laws, false, Bool-cases,
  ◌≡◌, arith, ◌⊎◌, inl, inr, if◌then◌else◌,
}
use solana_exporter.Rpc.Types.{Result, ok, err, finalized, EpochInfo}
use solana_exporter.Slots.State.{Watcher, Env, System}
use solana_exporter.Slots.Watching.{watch_round}
use solana_exporter.Slots.Live.{Chain, IsAdjacent, IsEpoch, IsInfo, IsLed, IsAt, IsWithin}

-- Nothing was watched yet, or the slots of an epoch up to one of them.
pub data Position : Type 0 where
  fresh : Position
  within : ℤ → ℤ → Position

abbrev pub furthest : ℤ → ℤ → ℤ
furthest mark slot = if leb_ℤ slot mark then mark else slot

-- An answer moves the position, an error does not.
abbrev pub moved_by : Result EpochInfo → Position → Position
moved_by (err e) position = position
moved_by (ok info) fresh = within info.epoch info.absolute_slot
moved_by (ok info) (within e mark) = within info.epoch (furthest mark info.absolute_slot)

module _ (chain : Chain) where
  -- An answer agrees with the chain, and is of the epoch that is watched or of the next one.
  abbrev pub IsNext : Position → Result EpochInfo → Type 0
  IsNext position (err e) = Unit
  IsNext fresh (ok info) = IsInfo chain info
  IsNext (within e mark) (ok info) =
      IsInfo chain info × ((info.epoch ≡ e) ⊎ (info.epoch ≡ e +ℤ pos 1))

  abbrev pub IsPosition : Position → Type 0
  IsPosition fresh = Unit
  IsPosition (within e mark) = IsEpoch chain e × IsWithin chain e mark

  -- The watcher is at the position.
  abbrev pub IsFollowing : Position → Watcher → Type 0
  IsFollowing fresh w = (w.current_epoch ≡ pos 0) × IsLed chain w.leader_schedule
  IsFollowing (within e mark) w = IsAt chain e mark w

  first_of_next :
      (e : ℤ) (info : EpochInfo)
      → IsAdjacent chain
      → info.epoch ≡ e +ℤ pos 1
      → chain.first info.epoch ≡ chain.last e +ℤ pos 1
  first_of_next e info adjacent next = rw next (adjacent e)

  -- The end of an epoch is within the next one, and every slot of that is after it.
  pub end_IsWithin :
      (e : ℤ) (info : EpochInfo)
      → IsAdjacent chain
      → IsInfo chain info
      → info.epoch ≡ e +ℤ pos 1
      → IsWithin chain info.epoch (chain.last e) × (chain.last e +ℤ pos 1 ≤ℤ info.absolute_slot)
  end_IsWithin e info adjacent agrees next =
      let begins = first_of_next e info adjacent next in
      let after = agrees.after_first in
      let before = agrees.before_last in
      let sum = +ℤ_parts (chain.last e) (pos 1) in
      let later : chain.last e +ℤ pos 1 ≤ℤ info.absolute_slot = rw begins at after in
      ((rw begins (omega arith), omega arith), later)

  slot_IsWithin :
      (info : EpochInfo) → IsInfo chain info → IsWithin chain info.epoch info.absolute_slot
  slot_IsWithin info agrees = let after = agrees.after_first in (grind int_laws, agrees.before_last)

  -- The slot before an answer's.
  pub before_IsWithin :
      (info : EpochInfo)
      → IsInfo chain info
      → IsWithin chain info.epoch (info.absolute_slot -64 pos 1)
        × (leb_ℤ info.absolute_slot (info.absolute_slot -64 pos 1) ≡ false)
  before_IsWithin info agrees =
      let after = agrees.after_first in
      let before = agrees.before_last in
      let low = agrees.epoch.first_nonnegative in
      let fits = agrees.epoch.last_fits in
      let exact = -64_lem info.absolute_slot (pos 1) (grind int_laws) in
      rw exact ((grind int_laws, grind int_laws), grind int_laws)

  pub moved_by-IsPosition :
      (position : Position) (answer : Result EpochInfo)
      → IsAdjacent chain
      → IsPosition position
      → IsNext position answer
      → IsPosition (moved_by answer position)
  moved_by-IsPosition position (err e) adjacent at next = at
  moved_by-IsPosition fresh (ok info) adjacent at agrees = (agrees.epoch, slot_IsWithin info agrees)
  moved_by-IsPosition (within e mark) (ok info) adjacent (epoch, place) (agrees, step) =
      elim (Bool-cases (leb_ℤ info.absolute_slot mark)) [
        | inl behind ↦ elim step [
          | inl same ↦ rw behind (agrees.epoch, rw same place)
          | inr next ↦
              let (ending, later) = end_IsWithin e info adjacent agrees next in
              absurd (grind int_laws)
        ]
        | inr ahead ↦ rw ahead (agrees.epoch, slot_IsWithin info agrees)
      ]

module _ {W F : Type 0} (env : Env W F) where
  -- What the node answers to the next round.
  abbrev pub answer_in : System W → Result EpochInfo
  answer_in s = (env.client.get_epoch_info finalized s.world).0

  -- The position after the rounds.
  abbrev pub position_after : ℕ → Position → System W → Position
  position_after zero position s = position
  position_after (suc rounds) position s =
      position_after rounds (moved_by (answer_in s) position) (watch_round env s).state

  -- Over the rounds the answers are errors, or follow the chain by one epoch at most at a time.
  abbrev pub IsPaced : Chain → ℕ → Position → System W → Type 0
  IsPaced chain zero position s = Unit
  IsPaced chain (suc rounds) position s =
      let answer = answer_in s in
      IsNext chain position answer
      × IsPaced chain rounds (moved_by answer position) (watch_round env s).state
