-- ===== src/Utils/Tracker/Taken.antt =====
-- `EpochTrackedValidators`: what was added for an epoch is handed out once.
use solana_exporter.Base.{
  ℤ, Text, List, [], ◌∷◌, In, none, some, lookup, insert, erase, lookup-insert, lookup-insert_self,
  lookup-erase_self, lookup-erase_ne, int_eq, text_eq, ==-cases, ◌≡◌, ◌≢◌, refl, arith, ◌⊎◌, inl,
  inr, ◌↔◌,
}
use solana_exporter.Utils.Unique.{add_unique}
use solana_exporter.Utils.Unique.Members.{add_unique-keeps, add_unique-has, add_unique-only}
use solana_exporter.Utils.Tracker.{
  Tracker, get_tracked_validators, add_nodekeys, known_nodekeys, add_tracked_nodekeys,
}

add_nodekeys-add_unique :
    (nodekeys known : List Text) → add_nodekeys nodekeys known ≡ add_unique nodekeys known
unfolding add_nodekeys add_unique
add_nodekeys-add_unique [] known = refl
add_nodekeys-add_unique (n ∷ nodekeys) known = add_nodekeys-add_unique nodekeys _

In-add_nodekeys :
    (nodekeys known : List Text) (x : Text)
    → In x (add_nodekeys nodekeys known) ↔ (In x known ⊎ In x nodekeys)
In-add_nodekeys nodekeys known x = rw (add_nodekeys-add_unique nodekeys known) (
  (λ m. add_unique-only x nodekeys known m),
  (λ m. elim m [
    | inl old ↦ add_unique-keeps x nodekeys known old
    | inr new ↦ add_unique-has x nodekeys known new
  ]),
)

-- The nodekeys that are tracked for an epoch.
abbrev pub tracked : ℤ → Tracker → List Text
tracked epoch t = known_nodekeys (lookup epoch t)

-- What is tracked after nodekeys were added depends on their elements only.
pub tracked-add_tracked_nodekeys :
    (epoch other : ℤ) (nodekeys more : List Text) (t : Tracker)
    → ((x : Text) → In x nodekeys → In x more)
    → (x : Text) → In x (tracked other (add_tracked_nodekeys epoch nodekeys t))
    → In x (tracked other (add_tracked_nodekeys epoch more t))
unfolding add_tracked_nodekeys
tracked-add_tracked_nodekeys epoch other nodekeys more t sub x = elim (==-cases epoch other) [
  | inl (same, e) ↦
      rw
        (
          lookup-insert epoch other (add_nodekeys nodekeys (tracked epoch t)) t,
          lookup-insert epoch other (add_nodekeys more (tracked epoch t)) t,
          same,
        )
        λ m.
          (In-add_nodekeys more (tracked epoch t) x).1
            (elim ((In-add_nodekeys nodekeys (tracked epoch t) x).0 m) [
              | inl old ↦ inl old
              | inr new ↦ inr (sub x new)
            ])
  | inr (apart, ne) ↦
      rw
        (
          lookup-insert epoch other (add_nodekeys nodekeys (tracked epoch t)) t,
          lookup-insert epoch other (add_nodekeys more (tracked epoch t)) t,
          apart,
        )
        λ m. m
]

pub not_taken :
    (epoch : ℤ) (t : Tracker) → lookup epoch t ≡ none → get_tracked_validators epoch t ≡ (none, t)
unfolding get_tracked_validators
not_taken epoch t h = rw (get_tracked_validators, h) refl

pub taken_of :
    (epoch : ℤ) (t : Tracker) (nodekeys : List Text)
    → lookup epoch t ≡ some nodekeys
    → get_tracked_validators epoch t ≡ (some nodekeys, erase epoch t)
unfolding get_tracked_validators
taken_of epoch t nodekeys h = rw (get_tracked_validators, h) refl

-- After nodekeys are added for an epoch, `GetTrackedValidators` of it hands out these and the ones that
-- were tracked before, and no other; the epoch is not tracked any more, and each other epoch is as
-- before both calls.
pub get_tracked_validators-add_tracked_nodekeys :
    (epoch : ℤ) (nodekeys : List Text) (t : Tracker)
    → let (answer, after) = get_tracked_validators epoch (add_tracked_nodekeys epoch nodekeys t) in
      ((taken : List Text) × (answer ≡ some taken)
        × ((x : Text) → In x taken ↔ (In x (tracked epoch t) ⊎ In x nodekeys)))
      × (lookup epoch after ≡ none)
      × ((other : ℤ) → epoch ≢ other → lookup other after ≡ lookup other t)
unfolding add_tracked_nodekeys
get_tracked_validators-add_tracked_nodekeys epoch nodekeys t =
    let added = add_nodekeys nodekeys (tracked epoch t) in
    let t' = insert epoch added t in
    rw (taken_of epoch t' added (lookup-insert_self epoch added t)) (
      (added, refl, λ x. In-add_nodekeys nodekeys (tracked epoch t) x),
      lookup-erase_self epoch t',
      (λ other ne.
          let kept = lookup-erase_ne epoch other t' ne in
          let before = lookup-insert epoch other added t in ground (arith, ==-cases epoch other)),
    )
