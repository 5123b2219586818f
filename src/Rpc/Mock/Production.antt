-- ===== src/Rpc/Mock/Production.antt =====
-- Which block production the mock server answers.
use solana_exporter.Base.{
  ℕ, zero, suc, ◌+◌, ◌<◌, ◌^◌, ℤ, pos, ◌+64◌, +64_lem, ◌+ℤ◌, ◌-ℤ◌, +ℤ_parts, -ℤ_parts, eq_of_parts,
  pos_part, neg_part, ap, int_laws, int_eq, Bool, true, false, Bool-cases, Text, text_eq, ◌==◌,
  ==-cases, Map, lookup, insert, lookup-insert, Option, none, some, Option-cases, ◌≡◌, ◌≢◌, refl,
  ◌∙◌, arith, inl, inr, if◌then◌else◌, [], ◌∷◌,
}
use solana_exporter.Rpc.Types.{HostProduction}
use solana_exporter.Rpc.Mock.{MockSlotInfo, MockValidatorInfo}
use solana_exporter.Rpc.Mock.Answers.{
  is_set, led_in, slot_info, add_slots, slots_between, no_production, production_between,
}

module _ (infos : Map ℤ MockSlotInfo) (key : Text) where
  -- How many of the slots from `slot` on the validator leads, and in how many of these there is a block.
  abbrev pub led : ℕ → ℤ → ℕ
  led zero slot = 0
  led (suc count) slot =
      let rest = led count (slot +64 pos 1) in
      if (slot_info infos slot).leader == key then suc rest else rest

  abbrev pub produced : ℕ → ℤ → ℕ
  produced zero slot = 0
  produced (suc count) slot =
      let rest = produced count (slot +64 pos 1) in
      let info = slot_info infos slot in
      if info.leader == key then (if is_set info.block then suc rest else rest) else rest

abbrev pub host_of : ℕ → ℕ → HostProduction
host_of a b = record { leader_slots = pos a; blocks_produced = pos b }

succ_lem : (n : ℕ) → n + 1 < 2 ^ 63 → pos n +64 pos 1 ≡ pos (suc n)
succ_lem n h = let exact = +64_lem (pos n) (pos 1) (grind int_laws) in exact ∙ (grind int_laws)

if_suc_sum :
    (c : Bool) (b rest : ℕ) → (if c then suc b else b) + rest ≡ b + (if c then suc rest else rest)
if_suc_sum true b rest = omega arith
if_suc_sum false b rest = refl

if_suc_below : (c : Bool) (b n : ℕ) → b + suc n < 2 ^ 63 → (if c then suc b else b) + n < 2 ^ 63
if_suc_below true b n h = omega arith
if_suc_below false b n h = omega arith

module _ (infos : Map ℤ MockSlotInfo) where
  add_slots-none :
      (n : ℕ) (slot : ℤ) (m : Map Text HostProduction) → add_slots infos n slot none ≡ some m → ⊥
  unfolding add_slots
  add_slots-none n slot m h = cc

  -- A round that does not panic, and what it leaves for the others.
  add_slots-suc :
      (n : ℕ) (slot : ℤ) (before after : Map Text HostProduction)
      → add_slots infos (suc n) slot (some before) ≡ some after
      → let info = slot_info infos slot in
        (host : HostProduction) × (lookup info.leader before ≡ some host)
        × (add_slots infos n (slot +64 pos 1) (some (insert info.leader (led_in info host) before))
            ≡ some after)
  unfolding add_slots
  add_slots-suc n slot before after h =
      elim (Option-cases (lookup (slot_info infos slot).leader before)) [
        | inl absent ↦
            absurd (add_slots-none n (slot +64 pos 1) after (rw (add_slots, absent) at h))
        | inr (host, found) ↦ (host, found, rw (add_slots, found) at h)
      ]

  -- The entry of a validator after one round.
  led_in_lem :
      (info : MockSlotInfo) (a b : ℕ)
      → a + 1 < 2 ^ 63
      → b + 1 < 2 ^ 63
      → led_in info (host_of a b) ≡ host_of (suc a) (if is_set info.block then suc b else b)
  led_in_lem info a b h k = elim (Bool-cases (is_set info.block)) [
    | inl made ↦ rw (made, succ_lem a h, succ_lem b k) refl
    | inr skipped ↦ rw (skipped, succ_lem a h) refl
  ]

  add_slots_lem :
      (key : Text) (n : ℕ) (slot : ℤ) (before after : Map Text HostProduction) (a b : ℕ)
      → add_slots infos n slot (some before) ≡ some after
      → lookup key before ≡ some (host_of a b)
      → a + n < 2 ^ 63
      → b + n < 2 ^ 63
      → lookup key after ≡ some (host_of (a + led infos key n slot) (b + produced infos key n slot))
  unfolding add_slots
  add_slots_lem key zero slot before after a b h e p q =
      let same : before ≡ after = ground arith in rw same at e ∙ ground arith
  add_slots_lem key (suc n) slot before after a b h e p q =
      let info = slot_info infos slot in
      let (host, found, rest) = add_slots-suc n slot before after h in
      let next = insert info.leader (led_in info host) before in
      let inserted = lookup-insert info.leader key (led_in info host) before in
      let made = is_set info.block in
      elim (==-cases info.leader key) [
        | inl (t, same) ↦
            let there = rw same at found in
            let given : host ≡ host_of a b = ground arith in
            let entry : lookup key next ≡ some (host_of (suc a) (if made then suc b else b)) =
              rw (inserted, t, given, led_in_lem info a b (omega arith) (omega arith)) refl in
            let ih =
              add_slots_lem key n (slot +64 pos 1) next after (suc a) (if made then suc b else b)
                rest entry (omega arith) (if_suc_below made b n q) in
            rw (t, ih)
              (rw (if_suc_sum made b (produced infos key n (slot +64 pos 1))) (ground arith))
        | inr (t, other) ↦
            let entry : lookup key next ≡ some (host_of a b) = rw (inserted, t) e in
            let ih =
              add_slots_lem key n (slot +64 pos 1) next after a b rest entry (omega arith)
                (omega arith) in
            rw (t, ih) refl
      ]

  add_slots_absent :
      (key : Text) (n : ℕ) (slot : ℤ) (before after : Map Text HostProduction)
      → add_slots infos n slot (some before) ≡ some after
      → lookup key before ≡ none
      → lookup key after ≡ none
  unfolding add_slots
  add_slots_absent key zero slot before after h e =
      let same : before ≡ after = ground arith in rw same at e
  add_slots_absent key (suc n) slot before after h e =
      let info = slot_info infos slot in
      let (host, found, rest) = add_slots-suc n slot before after h in
      let next = insert info.leader (led_in info host) before in
      let inserted = lookup-insert info.leader key (led_in info host) before in
      elim (==-cases info.leader key) [
        | inl (t, same) ↦ let there = rw same at found in absurd (cc)
        | inr (t, other) ↦
            let entry : lookup key next ≡ none = rw (inserted, t) e in
            add_slots_absent key n (slot +64 pos 1) next after rest entry
      ]

  -- The leader of each of the slots has an entry.
  abbrev pub IsStaffed : {V : Type 0} → Map Text V → ℕ → ℤ → Type 0
  IsStaffed members zero slot = Unit
  IsStaffed members (suc n) slot =
      (lookup (slot_info infos slot).leader members ≢ none) × IsStaffed members n (slot +64 pos 1)

  add_slots-total :
      {V : Type 0} (members : Map Text V) (n : ℕ) (slot : ℤ) (before : Map Text HostProduction)
      → IsStaffed members n slot
      → ((key : Text) → lookup key members ≢ none → lookup key before ≢ none)
      → (after : Map Text HostProduction) × (add_slots infos n slot (some before) ≡ some after)
  unfolding add_slots
  add_slots-total members zero slot before staffed known = (before, refl)
  add_slots-total members (suc n) slot before (leads, rest) known =
      let info = slot_info infos slot in
      elim (Option-cases (lookup info.leader before)) [
        | inl absent ↦ absurd (known info.leader leads absent)
        | inr (host, found) ↦
            let next = insert info.leader (led_in info host) before in
            let (after, ends) = add_slots-total members n (slot +64 pos 1) next rest λ key member.
              let inserted = lookup-insert info.leader key (led_in info host) before in
              let was = known key member in
              elim (==-cases info.leader key) [
                | inl (t, same) ↦ λ missing. cc (inserted, t, missing)
                | inr (t, other) ↦ rw (inserted, t) was
              ] in
            (after, rw (add_slots, found) ends)
      ]

slots_between_lem :
    (first_slot last_slot : ℤ) (n : ℕ)
    → last_slot +ℤ pos 1 ≡ first_slot +ℤ pos n
    → slots_between first_slot last_slot ≡ n
slots_between_lem first_slot last_slot n h =
    let range = last_slot -ℤ first_slot in
    let a = -ℤ_parts last_slot first_slot in
    let b = +ℤ_parts range (pos 1) in
    let c = +ℤ_parts last_slot (pos 1) in
    let e = ap pos_part h in
    let f = ap neg_part h in
    let d = +ℤ_parts first_slot (pos n) in
    let counted : range +ℤ pos 1 ≡ pos n = eq_of_parts (range +ℤ pos 1) (pos n) (omega arith) in
    ap pos_part counted

-- What a validator has produced, and nothing for who is none.
abbrev pub share_of : HostProduction → Option MockValidatorInfo → Option HostProduction
share_of host none = none
share_of host (some info) = some host

lookup-no_production :
    (key : Text) (validators : Map Text MockValidatorInfo)
    → lookup key (no_production validators) ≡ share_of (host_of 0 0) (lookup key validators)
lookup-no_production key [] = refl
lookup-no_production key ((id, info) ∷ validators) =
    ground (arith, lookup-no_production key validators)

module _ (infos : Map ℤ MockSlotInfo) (validators : Map Text MockValidatorInfo) where
  share_lem :
      (key : Text) (n : ℕ) (slot : ℤ) (after : Map Text HostProduction)
      → add_slots infos n slot (some (no_production validators)) ≡ some after
      → n < 2 ^ 63
      → lookup key after
        ≡ share_of
            (host_of (led infos key n slot) (produced infos key n slot))
            (lookup key validators)
  share_lem key n slot after h fits =
      let start = lookup-no_production key validators in
      elim (Option-cases (lookup key validators)) [
        | inl absent ↦ rw absent (add_slots_absent infos key n slot _ after h (rw absent at start))
        | inr (info, found) ↦
            let counted =
              add_slots_lem infos key n slot _ after 0 0 h (rw found at start) (omega arith)
                (omega arith) in
            rw (found, counted) (ground arith)
      ]

  -- Of the range of `n` slots from the first to the last one, both counted, where `n` is below 2^63 and
  -- the leader of each slot is a validator of the mock server: the loop over `byIdentity` ends without a panic, and exactly the validators have an entry, each with the
  -- number of the slots that it leads and the number of those that have a block.
  pub production_between-share_of :
      (first_slot last_slot : ℤ) (n : ℕ)
      → last_slot +ℤ pos 1 ≡ first_slot +ℤ pos n
      → IsStaffed infos validators n first_slot
      → n < 2 ^ 63
      → (m : Map Text HostProduction) × (production_between infos validators first_slot last_slot
          ≡ some m)
        × ((key : Text)
            → lookup key m
              ≡ share_of
                  (host_of (led infos key n first_slot) (produced infos key n first_slot))
                  (lookup key validators))
  unfolding production_between
  production_between-share_of first_slot last_slot n range staffed fits =
      let counted = slots_between_lem first_slot last_slot n range in
      let (m, ends) =
        add_slots-total infos validators n first_slot (no_production validators) staffed
          λ key member. let start = lookup-no_production key validators in ground arith in
      (m, rw counted ends, λ key. share_lem key n first_slot m ends fits)
