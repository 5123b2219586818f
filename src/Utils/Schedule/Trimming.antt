-- ===== src/Utils/Schedule/Trimming.antt =====
-- What `GetTrimmedLeaderSchedule` keeps of the leader schedule.
use solana_exporter.Base.{
  ℤ, Text, text_eq, lookup, insert, lookup-insert, contains, ==-cases, ◌==◌, List, [], ◌∷◌, Option,
  none, some, Option-cases, ◌≡◌, refl, sym, ◌∙◌, ap, arith, inl, inr, ◌||◌, if◌then◌else◌,
}
use solana_exporter.Rpc.Types.{Result, ok, err, confirmed}
use solana_exporter.Rpc.Client.{Client}
use solana_exporter.Utils.Schedule.{
  Schedule, absolute_slots, trim_schedule, trim_answer, get_trimmed_leader_schedule,
}

-- The entry of a validator: its slots in the schedule made absolute, or what was there before.
abbrev pub trimmed_of : ℤ → Option (List ℤ) → Option (List ℤ) → Option (List ℤ)
trimmed_of first_slot none before = before
trimmed_of first_slot (some indexes) before = some (absolute_slots first_slot indexes)

-- One round of the loop.
abbrev pub trim_one : ℤ → Text → Option (List ℤ) → Schedule → Schedule
trim_one first_slot id none trimmed = trimmed
trim_one first_slot id (some indexes) trimmed =
    insert id (absolute_slots first_slot indexes) trimmed

lookup-trim_one :
    (first_slot : ℤ) (id key : Text) (found : Option (List ℤ)) (trimmed : Schedule)
    → lookup key (trim_one first_slot id found trimmed)
      ≡ (if id == key then trimmed_of first_slot found (lookup key trimmed) else lookup key trimmed)
lookup-trim_one first_slot id key none trimmed = ground arith
lookup-trim_one first_slot id key (some indexes) trimmed =
    lookup-insert id key (absolute_slots first_slot indexes) trimmed

pub trim_schedule-cons :
    (first_slot : ℤ) (schedule : Schedule) (id : Text) (identities : List Text) (trimmed : Schedule)
    → trim_schedule first_slot schedule (id ∷ identities) trimmed
      ≡ trim_schedule first_slot schedule identities
          (trim_one first_slot id (lookup id schedule) trimmed)
unfolding trim_schedule
trim_schedule-cons first_slot schedule id identities trimmed =
    elim (Option-cases (lookup id schedule)) [
      | inl absent ↦ rw (trim_schedule, absent) refl
      | inr (indexes, present) ↦ rw (trim_schedule, present) refl
    ]

combined :
    (first_slot : ℤ) (id key : Text) (identities : List Text) (schedule : Schedule)
    (next before : Option (List ℤ))
    → next ≡ (if id == key then trimmed_of first_slot (lookup id schedule) before else before)
    → (if contains identities key then trimmed_of first_slot (lookup key schedule) next else next)
      ≡ (if id == key || contains identities key
          then trimmed_of first_slot (lookup key schedule) before
          else before)
combined first_slot id key identities schedule next before step = elim (==-cases id key) [
  | inl (t, p) ↦ elim (Option-cases (lookup key schedule)) [
    | inl absent ↦ let absent' : lookup id schedule ≡ none = rw p absent in ground arith
    | inr (indexes, present) ↦
        let present' : lookup id schedule ≡ some indexes = rw p present in ground arith
  ]
  | inr (t, p) ↦ ground arith
]

lookup-trim_schedule :
    (first_slot : ℤ) (schedule : Schedule) (identities : List Text) (trimmed : Schedule)
    (key : Text)
    → lookup key (trim_schedule first_slot schedule identities trimmed) ≡ (
        if contains identities key
        then trimmed_of first_slot (lookup key schedule) (lookup key trimmed)
        else lookup key trimmed)
unfolding trim_schedule
lookup-trim_schedule first_slot schedule [] trimmed key = refl
lookup-trim_schedule first_slot schedule (id ∷ identities) trimmed key =
    let next = trim_one first_slot id (lookup id schedule) trimmed in
    let ih = lookup-trim_schedule first_slot schedule identities next key in
    let step = lookup-trim_one first_slot id key (lookup id schedule) trimmed in
    let opened = ap (lookup key) (trim_schedule-cons first_slot schedule id identities trimmed) in
    opened
    ∙ ih
    ∙ combined first_slot id key identities schedule (lookup key next) (lookup key trimmed) step

trim_answer-ok :
    (identities : List Text) (first_slot : ℤ) (answer : Result Schedule) (trimmed : Schedule)
    (key : Text)
    → trim_answer identities first_slot answer ≡ ok trimmed
    → (schedule : Schedule) × (answer ≡ ok schedule)
      × (lookup key trimmed ≡ (
          if contains identities key
          then trimmed_of first_slot (lookup key schedule) none
          else none))
unfolding trim_answer
trim_answer-ok identities first_slot (err e) trimmed key h = cc
trim_answer-ok identities first_slot (ok schedule) trimmed key h =
    let same : trim_schedule first_slot schedule identities [] ≡ trimmed = ground arith in
    (
      schedule,
      refl,
      ap (lookup key) (sym same) ∙ lookup-trim_schedule first_slot schedule identities [] key,
    )

-- If `GetTrimmedLeaderSchedule` succeeds then the node answered with a leader schedule, and the result
-- has an entry for exactly the validators that are asked for and that the schedule has: the slots of the
-- schedule, each moved by the epoch's first slot.
pub get_trimmed_leader_schedule-trimmed_of :
    {W F : Type 0} (client : Client W F) (identities : List Text) (slot first_slot : ℤ) (world : W)
    (trimmed : Schedule) (key : Text)
    → (get_trimmed_leader_schedule client identities slot first_slot world).0 ≡ ok trimmed
    → (schedule : Schedule) × ((client.get_leader_schedule confirmed slot world).0 ≡ ok schedule)
      × (lookup key trimmed ≡ (
          if contains identities key
          then trimmed_of first_slot (lookup key schedule) none
          else none))
unfolding get_trimmed_leader_schedule
get_trimmed_leader_schedule-trimmed_of client identities slot first_slot world trimmed key h =
    trim_answer-ok identities first_slot (client.get_leader_schedule confirmed slot world).0 trimmed
      key h
