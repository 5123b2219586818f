-- ===== src/Slots/Live/Schedules.antt =====
-- Leader schedules that agree with the chain.
use solana_exporter.Base.{
  ℤ, ◌+64◌, ◌≤ℤ◌, leb_ℤ, Text, text_eq, All, All-append, lookup, insert, ==-cases, Option, none,
  some, Bool-cases, ◌&&◌, List, [], ◌∷◌, ◌≡◌, refl, inl, inr,
}
use solana_exporter.Rpc.Types.{Result, ok, err, confirmed}
use solana_exporter.Utils.Schedule.{
  Schedule, select_slots, select_into, select_from_schedule, absolute_slots, trim_schedule,
  trim_answer, get_trimmed_leader_schedule,
}
use solana_exporter.Utils.Schedule.Trimming.{trim_one, trim_schedule-cons}
use solana_exporter.Slots.State.{Env}
use solana_exporter.Slots.Watching.{schedule_or_nil}
use solana_exporter.Slots.Live.{Chain, IsSound, IsLed}

module _ (chain : Chain) where
  -- Each of the slots is led by the validator.
  abbrev IsLedBy : Text → List ℤ → Type 0
  IsLedBy key slots = All (λ slot. chain.leader slot ≡ key) slots

  insert-IsLed :
      (key : Text) (slots : List ℤ) (schedule : Schedule)
      → IsLedBy key slots
      → IsLed chain schedule
      → IsLed chain (insert key slots schedule)
  insert-IsLed key slots [] led h = (led, tt)
  insert-IsLed key slots ((found, old) ∷ schedule) led (first, rest) = elim (==-cases found key) [
    | inl (t, p) ↦ rw t (led, rest)
    | inr (t, p) ↦ rw t (first, insert-IsLed key slots schedule led rest)
  ]

  select_slots-IsLedBy :
      (a b : ℤ) (key : Text) (values selected : List ℤ)
      → IsLedBy key values
      → IsLedBy key selected
      → IsLedBy key (select_slots a b values selected)
  unfolding select_slots
  select_slots-IsLedBy a b key [] selected h led = led
  select_slots-IsLedBy a b key (v ∷ values) selected (first, rest) led =
      elim (Bool-cases (leb_ℤ a v && leb_ℤ v b)) [
        | inl inside ↦ rw inside (
            select_slots-IsLedBy a b key values _ rest
              (All-append (λ slot. chain.leader slot ≡ key) selected (v ∷ []) led (first, tt)))
        | inr outside ↦ rw outside (select_slots-IsLedBy a b key values selected rest led)
      ]

  select_into-IsLed :
      (a b : ℤ) (schedule selected : Schedule)
      → IsLed chain schedule
      → IsLed chain selected
      → IsLed chain (select_into a b schedule selected)
  unfolding select_into
  select_into-IsLed a b [] selected h led = led
  select_into-IsLed a b ((key, values) ∷ schedule) selected (first, rest) led =
      select_into-IsLed a b schedule _ rest
        (insert-IsLed key _ selected (select_slots-IsLedBy a b key values [] first tt) led)

  pub select_from_schedule-IsLed :
      (schedule : Schedule) (a b : ℤ)
      → IsLed chain schedule
      → IsLed chain (select_from_schedule schedule a b)
  unfolding select_from_schedule
  select_from_schedule-IsLed schedule a b h = select_into-IsLed a b schedule [] h tt

  absolute_slots-IsLedBy :
      (first_slot : ℤ) (key : Text) (indexes : List ℤ)
      → All (λ index. chain.leader (index +64 first_slot) ≡ key) indexes
      → IsLedBy key (absolute_slots first_slot indexes)
  unfolding absolute_slots
  absolute_slots-IsLedBy first_slot key [] h = tt
  absolute_slots-IsLedBy first_slot key (index ∷ indexes) (p, h) =
      (p, absolute_slots-IsLedBy first_slot key indexes h)

  -- The schedule's entries, moved by the first slot, are led by their validators.
  abbrev IsLedFrom : ℤ → Schedule → Type 0
  IsLedFrom first_slot schedule =
      (key : Text) (indexes : List ℤ)
      → lookup key schedule ≡ some indexes
      → All (λ index. chain.leader (index +64 first_slot) ≡ key) indexes

  trim_one-IsLed :
      (first_slot : ℤ) (id : Text) (found : Option (List ℤ)) (schedule trimmed : Schedule)
      → lookup id schedule ≡ found
      → IsLedFrom first_slot schedule
      → IsLed chain trimmed
      → IsLed chain (trim_one first_slot id found trimmed)
  trim_one-IsLed first_slot id none schedule trimmed e h led = led
  trim_one-IsLed first_slot id (some indexes) schedule trimmed e h led =
      insert-IsLed id _ trimmed (absolute_slots-IsLedBy first_slot id indexes (h id indexes e)) led

  trim_schedule-IsLed :
      (first_slot : ℤ) (schedule : Schedule) (identities : List Text) (trimmed : Schedule)
      → IsLedFrom first_slot schedule
      → IsLed chain trimmed
      → IsLed chain (trim_schedule first_slot schedule identities trimmed)
  unfolding trim_schedule
  trim_schedule-IsLed first_slot schedule [] trimmed h led = led
  trim_schedule-IsLed first_slot schedule (id ∷ identities) trimmed h led =
      rw (trim_schedule-cons first_slot schedule id identities trimmed) (
        trim_schedule-IsLed first_slot schedule identities _ h
          (trim_one-IsLed first_slot id (lookup id schedule) schedule trimmed refl h led))

  trim_answer-IsLed :
      (identities : List Text) (first_slot : ℤ) (answer : Result Schedule)
      → ((schedule : Schedule) → answer ≡ ok schedule → IsLedFrom first_slot schedule)
      → IsLed chain (schedule_or_nil (trim_answer identities first_slot answer))
  unfolding trim_answer
  trim_answer-IsLed identities first_slot (err e) h = tt
  trim_answer-IsLed identities first_slot (ok schedule) h =
      trim_schedule-IsLed first_slot schedule identities [] (h schedule refl) tt

  -- The schedule that is fetched for a slot of an epoch is the chain's.
  pub get_trimmed_leader_schedule-IsLed :
      {W F : Type 0} (env : Env W F)
      → IsSound env chain
      → (e slot : ℤ) (world : W) → chain.first e ≤ℤ slot
      → slot ≤ℤ chain.last e
      → IsLed chain (
          schedule_or_nil
            (get_trimmed_leader_schedule env.client env.config.node_keys slot
              (chain.first e)
              world).0)
  unfolding get_trimmed_leader_schedule
  get_trimmed_leader_schedule-IsLed env sound e slot world p q =
      trim_answer-IsLed env.config.node_keys (chain.first e)
        (env.client.get_leader_schedule confirmed slot world).0
        (λ schedule asked key indexes found.
          sound.schedules e slot world schedule key indexes p q asked found)
