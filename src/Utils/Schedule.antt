-- ===== src/Utils/Schedule.antt =====
-- The leader schedule in cmd/solana-exporter/utils.go: `SelectFromSchedule`, `GetTrimmedLeaderSchedule`
-- and `GetEpochBounds`.
pub mod Selection
pub mod Trimming
use solana_exporter.Base.{
  ℤ, pos, ◌+64◌, ◌-64◌, leb_ℤ, Text, List, [], ◌∷◌, ◌++◌, map, Option, none, some, Map, lookup,
  insert, text_eq, ◌&&◌, if◌then◌else◌, codes,
}
use solana_exporter.Rpc.Types.{Result, ok, err, wrap, EpochInfo, confirmed}
use solana_exporter.Rpc.Client.{Client}

abbrev pub Schedule : Type 0
Schedule = Map Text (List ℤ)

-- The inner loop: `selectedValues` grows by the values in range.
unfoldable pub select_slots : ℤ → ℤ → List ℤ → List ℤ → List ℤ
select_slots start_slot end_slot [] selected = selected
select_slots start_slot end_slot (value ∷ values) selected =
    select_slots start_slot end_slot values
      (if leb_ℤ start_slot value && leb_ℤ value end_slot then selected ++ value ∷ [] else selected)

unfoldable pub select_into : ℤ → ℤ → Schedule → Schedule → Schedule
select_into start_slot end_slot [] selected = selected
select_into start_slot end_slot ((key, values) ∷ schedule) selected =
    select_into start_slot end_slot schedule
      (insert key (select_slots start_slot end_slot values []) selected)

unfoldable pub select_from_schedule : Schedule → ℤ → ℤ → Schedule
unfolding select_into
select_from_schedule schedule start_slot end_slot = select_into start_slot end_slot schedule []

-- Slot indexes of the epoch become absolute slots.
unfoldable pub absolute_slots : ℤ → List ℤ → List ℤ
absolute_slots epoch_first_slot indexes = map (λ index. index +64 epoch_first_slot) indexes

unfoldable pub trim_schedule : ℤ → Schedule → List Text → Schedule → Schedule
trim_schedule epoch_first_slot schedule [] trimmed = trimmed
trim_schedule epoch_first_slot schedule (id ∷ identities) trimmed =
    trim_schedule epoch_first_slot schedule identities (elim (lookup id schedule) [
      | none ↦ trimmed
      | some indexes ↦ insert id (absolute_slots epoch_first_slot indexes) trimmed
    ])

unfoldable pub trim_answer : List Text → ℤ → Result Schedule → Result Schedule
unfolding trim_schedule absolute_slots
trim_answer identities epoch_first_slot (err e) =
    err (wrap (codes "failed to get leader schedule") e)
trim_answer identities epoch_first_slot (ok schedule) =
    ok (trim_schedule epoch_first_slot schedule identities [])

unfoldable pub get_trimmed_leader_schedule :
    {W F : Type 0} → Client W F → List Text → ℤ → ℤ → W → Result Schedule × W
unfolding trim_answer
get_trimmed_leader_schedule client identities slot epoch_first_slot world =
    let (answer, world') = client.get_leader_schedule confirmed slot world in
    (trim_answer identities epoch_first_slot answer, world')

-- The first and the last slot of an epoch, both inclusive.
unfoldable pub get_epoch_bounds : EpochInfo → ℤ × ℤ
get_epoch_bounds info =
    let first_slot = info.absolute_slot -64 info.slot_index in
    (first_slot, first_slot +64 info.slots_in_epoch -64 pos 1)
