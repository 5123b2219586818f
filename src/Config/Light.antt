-- ===== src/Config/Light.antt =====
-- What a configuration that `NewExporterConfig` returns satisfies.
use solana_exporter.Base.{
  Text, length, ltb, List, [], ◌∷◌, ◌++◌, true, false, none, Option-cases, ◌≡◌, refl, arith, inl,
  inr,
}
use solana_exporter.Rpc.Types.{Result, ok, err, finalized, VoteAccount, VoteAccounts}
use solana_exporter.Rpc.Client.{Client}
use solana_exporter.Utils.Accounts.{get_associated_vote_accounts}
use solana_exporter.Utils.Accounts.Votekeys.{
  Associated, length-Associated, get_associated_vote_accounts-Associated,
}
use solana_exporter.Config.{
  ExporterConfig, Arguments, light_mode_conflict, conflict, with_votekeys, new_exporter_config,
}

-- The options that light mode excludes are off.
abbrev pub IsBare : ExporterConfig → Type 0
IsBare c =
    (c.comprehensive_slot_tracking ≡ false)
    × (c.comprehensive_vote_account_tracking ≡ false)
    × (c.monitor_block_sizes ≡ false)
    × (c.node_keys ≡ [])
    × (c.vote_keys ≡ [])
    × (c.balance_addresses ≡ [])

abbrev IsBareArguments : Arguments → Type 0
IsBareArguments a =
    (a.comprehensive_slot_tracking ≡ false)
    × (a.comprehensive_vote_account_tracking ≡ false)
    × (a.monitor_block_sizes ≡ false)
    × (a.node_keys ≡ [])
    × (a.balance_addresses ≡ [])

empty_of_length : (xs : List Text) → ltb 0 (length xs) ≡ false → xs ≡ []
empty_of_length [] h = refl
empty_of_length (x ∷ xs) h = ground arith

no_conflict : (a : Arguments) → light_mode_conflict a ≡ none → IsBareArguments a
unfolding light_mode_conflict
no_conflict a h = ground (arith, empty_of_length a.node_keys, empty_of_length a.balance_addresses)

conflict_in_light_mode :
    (a : Arguments) → a.light_mode ≡ true → conflict a ≡ none → IsBareArguments a
unfolding conflict
conflict_in_light_mode a light h = no_conflict a (rw light at h)

-- A configuration is the arguments with the votekeys that the node answered.
abbrev pub IsFrom : Arguments → List Text → ExporterConfig → Type 0
IsFrom a vote_keys c =
    (c.light_mode ≡ a.light_mode)
    × (c.node_keys ≡ a.node_keys)
    × (c.vote_keys ≡ vote_keys)
    × (c.balance_addresses ≡ a.balance_addresses)
    × (c.comprehensive_slot_tracking ≡ a.comprehensive_slot_tracking)
    × (c.comprehensive_vote_account_tracking ≡ a.comprehensive_vote_account_tracking)
    × (c.monitor_block_sizes ≡ a.monitor_block_sizes)
    × (c.slot_pace ≡ a.slot_pace)
    × (c.rpc_url ≡ a.rpc_url)
    × (c.active_identity ≡ a.active_identity)

with_votekeys-IsFrom :
    (a : Arguments) (answer : Result (List Text)) (c : ExporterConfig)
    → with_votekeys a answer ≡ ok c
    → (vote_keys : List Text) × (answer ≡ ok vote_keys) × IsFrom a vote_keys c
unfolding with_votekeys
with_votekeys-IsFrom a (err e) c h = cc
with_votekeys-IsFrom a (ok vote_keys) c h = (vote_keys, refl, ground arith)

pub new_exporter_config-IsFrom :
    {W F : Type 0} (client : Client W F) (a : Arguments) (world : W) (c : ExporterConfig)
    → (new_exporter_config client a world).0 ≡ ok c
    → (conflict a ≡ none)
      × ((vote_keys : List Text) × ((get_associated_vote_accounts client finalized a.node_keys
              world).0
            ≡ ok vote_keys)
          × IsFrom a vote_keys c)
unfolding new_exporter_config
new_exporter_config-IsFrom client a world c h = elim (Option-cases (conflict a)) [
  | inr (message, e) ↦ absurd (cc (rw (e, new_exporter_config) at h))
  | inl e ↦ (e, with_votekeys-IsFrom a _ c (rw (e, new_exporter_config) at h))
]

no_votekeys :
    (accounts : List VoteAccount) (node_keys vote_keys : List Text)
    → node_keys ≡ []
    → Associated accounts node_keys vote_keys
    → vote_keys ≡ []
no_votekeys accounts [] [] e h = refl
no_votekeys accounts [] (v ∷ vote_keys) e h = absurd h
no_votekeys accounts (n ∷ node_keys) vote_keys e h = cc

-- If `NewExporterConfig` returns a configuration then the node answered its request with vote accounts,
-- and the configuration has one votekey for each nodekey, in their order: it is not empty, and an
-- account of this answer has the nodekey and the votekey. In light mode it tracks no other slots or vote
-- accounts, no block sizes, no node and no balance.
pub new_exporter_config-IsValid :
    {W F : Type 0} (client : Client W F) (a : Arguments) (world : W) (c : ExporterConfig)
    → (new_exporter_config client a world).0 ≡ ok c
    → ((accounts : VoteAccounts) × ((client.get_vote_accounts finalized world).0 ≡ ok accounts)
        × Associated (accounts.current ++ accounts.delinquent) c.node_keys c.vote_keys)
      × (length c.vote_keys ≡ length c.node_keys)
      × (c.light_mode ≡ true → IsBare c)
new_exporter_config-IsValid client a world c h =
    let (allowed, made) = new_exporter_config-IsFrom client a world c h in
    let (vote_keys, found, from) = made in
    let (accounts, answered, associated) =
      get_associated_vote_accounts-Associated client finalized a.node_keys vote_keys world found in
    let all = accounts.current ++ accounts.delinquent in
    let same = length-Associated all a.node_keys vote_keys associated in
    (
      (accounts, answered, rw (from.1, from.2) associated),
      rw (from.1, from.2) same,
      (λ light.
          let bare = conflict_in_light_mode a (rw (from.0) at light) allowed in
          let none_left = no_votekeys all a.node_keys vote_keys (bare.3) associated in
          ground arith),
    )
