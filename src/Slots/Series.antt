-- ===== src/Slots/Series.antt =====
-- The loops of `cleanEpoch`: which series they delete.
pub mod Cleaned
pub mod Deleted
pub mod Labels
pub mod Additions
pub mod Apart
use solana_exporter.Base.{
  ℕ, zero, suc, ◌<◌, ◌≤◌, ◌+◌, Text, text_eq, int_eq, ◌≡◌, refl, arith, List, [], ◌∷◌, In, length,
  get_elem?, some, Option-cases, inl, inr,
}
use solana_exporter.Exec.{returned, ◌>>=◌}
use solana_exporter.Slots.State.{
  leader_slots_by_epoch, inflation_rewards, fee_rewards, delete_counter, System, Env,
}
use solana_exporter.Slots.Rewards.{votekey_at}
use solana_exporter.Slots.Cleaning.{clean_rewards, clean_leader_slots}

get_elem?-some :
    {A : Type 0} (xs : List A) (i : ℕ) → i < length xs → (x : A) × (get_elem? xs i ≡ some x)
get_elem?-some [] i h = absurd (omega arith)
get_elem?-some (x ∷ xs) zero h = (x, refl)
get_elem?-some (x ∷ xs) (suc i) h = get_elem?-some xs i (omega arith)

pub In-get_elem? :
    {A : Type 0} (xs : List A) (x : A)
    → In x xs
    → (i : ℕ) × (i < length xs) × (get_elem? xs i ≡ some x)
In-get_elem? [] x m = absurd (m tt)
In-get_elem? (y ∷ xs) x (inl e) = (0, omega arith, rw e refl)
In-get_elem? (y ∷ xs) x (inr m) = let (i, lt, e) = In-get_elem? xs x m in (suc i, omega arith, e)

module _ {W F : Type 0} (env : Env W F) where
  -- The `i`-th nodekey and its votekey.
  pub clean_rewards-fee :
      (epoch_str : Text) (i : ℕ) (nodekeys : List Text) (nodekey : Text) (s : System W)
      → (clean_rewards env epoch_str i nodekeys s).result ≡ returned tt
      → In nodekey nodekeys
      → In
          (delete_counter fee_rewards (nodekey ∷ epoch_str ∷ []))
          (clean_rewards env epoch_str i nodekeys s).events
  unfolding clean_rewards ◌>>=◌
  clean_rewards-fee epoch_str i [] nodekey s h m = absurd (m tt)
  clean_rewards-fee epoch_str i (n ∷ nodekeys) nodekey s h (inl e) = inl (rw e refl)
  clean_rewards-fee epoch_str i (n ∷ nodekeys) nodekey s h (inr m) =
      elim (Option-cases (get_elem? env.config.vote_keys i)) [
        | inl missing ↦ absurd (cc (rw (missing, votekey_at) at h))
        | inr (votekey, found) ↦
            rw (found, votekey_at)
              (inr (
                inr (
                  clean_rewards-fee epoch_str (suc i) nodekeys nodekey s
                    (rw (found, votekey_at) at h) m)))
      ]

  -- With a votekey for each index the loop comes to its end and leaves the state alone.
  pub clean_rewards-returns :
      (epoch_str : Text) (i : ℕ) (nodekeys : List Text) (s : System W)
      → i + length nodekeys ≤ length env.config.vote_keys
      → ((clean_rewards env epoch_str i nodekeys s).result ≡ returned tt)
        × ((clean_rewards env epoch_str i nodekeys s).state ≡ s)
  unfolding clean_rewards ◌>>=◌
  clean_rewards-returns epoch_str i [] s h = (refl, refl)
  clean_rewards-returns epoch_str i (n ∷ nodekeys) s h =
      let (votekey, found) = get_elem?-some env.config.vote_keys i (omega arith) in
      let ih = clean_rewards-returns epoch_str (suc i) nodekeys s (omega arith) in
      rw (found, votekey_at) ih

  pub clean_rewards-inflation :
      (epoch_str : Text) (i j : ℕ) (nodekeys : List Text) (votekey : Text) (s : System W)
      → (clean_rewards env epoch_str i nodekeys s).result ≡ returned tt
      → j < length nodekeys
      → get_elem? env.config.vote_keys (i + j) ≡ some votekey
      → In
          (delete_counter inflation_rewards (votekey ∷ epoch_str ∷ []))
          (clean_rewards env epoch_str i nodekeys s).events
  unfolding clean_rewards ◌>>=◌
  clean_rewards-inflation epoch_str i j [] votekey s h lt e = absurd (omega arith)
  clean_rewards-inflation epoch_str i zero (n ∷ nodekeys) votekey s h lt e =
      let here : i + zero ≡ i = omega arith in
      let found = rw here at e in rw (found, votekey_at) (inr (inl refl))
  clean_rewards-inflation epoch_str i (suc j) (n ∷ nodekeys) votekey s h lt e =
      let next : i + suc j ≡ suc i + j = omega arith in
      elim (Option-cases (get_elem? env.config.vote_keys i)) [
        | inl missing ↦ absurd (cc (rw (missing, votekey_at) at h))
        | inr (first, found) ↦
            rw (found, votekey_at)
              (inr (
                inr (
                  clean_rewards-inflation epoch_str (suc i) j nodekeys votekey s
                    (rw (found, votekey_at) at h) (omega arith) (rw next at e))))
      ]

  pub clean_leader_slots-deletes :
      (epoch_str status : Text) (nodekeys : List Text) (address : Text) (s : System W)
      → In address nodekeys
      → In
          (delete_counter leader_slots_by_epoch (address ∷ epoch_str ∷ status ∷ []))
          (clean_leader_slots env epoch_str status nodekeys s).events
  unfolding clean_leader_slots ◌>>=◌
  clean_leader_slots-deletes epoch_str status [] address s m = absurd (m tt)
  clean_leader_slots-deletes epoch_str status (n ∷ nodekeys) address s (inl e) = inl (rw e refl)
  clean_leader_slots-deletes epoch_str status (n ∷ nodekeys) address s (inr m) =
      inr (clean_leader_slots-deletes epoch_str status nodekeys address s m)

  pub clean_leader_slots-returns :
      (epoch_str status : Text) (nodekeys : List Text) (s : System W)
      → ((clean_leader_slots env epoch_str status nodekeys s).result ≡ returned tt)
        × ((clean_leader_slots env epoch_str status nodekeys s).state ≡ s)
  unfolding clean_leader_slots ◌>>=◌
  clean_leader_slots-returns epoch_str status [] s = (refl, refl)
  clean_leader_slots-returns epoch_str status (n ∷ nodekeys) s =
      clean_leader_slots-returns epoch_str status nodekeys s
