-- ===== src/Utils/Accounts.antt =====
-- Accounts in cmd/solana-exporter/utils.go: `GetAssociatedVoteAccounts` and `FetchBalances`.
pub mod Votekeys
use solana_exporter.Base.{
  ℤ, Text, List, [], ◌∷◌, ◌++◌, Option, none, some, Map, lookup, insert, text_eq, text_eqb, codes,
  if◌then◌else◌,
}
use solana_exporter.Rpc.Types.{
  Result, ok, err, errorf, Commitment, confirmed, VoteAccount, VoteAccounts,
}
use solana_exporter.Rpc.Client.{Client}

unfoldable pub vote_accounts_map : List VoteAccount → Map Text Text → Map Text Text
vote_accounts_map [] m = m
vote_accounts_map (account ∷ accounts) m =
    vote_accounts_map accounts (insert account.node_pubkey account.vote_pubkey m)

-- A missing key reads as the empty string, as in Go.
unfoldable pub read_votekey : Map Text Text → Text → Text
read_votekey m nodekey = elim (lookup nodekey m) [ none ↦ [] | some votekey ↦ votekey ]

unfoldable pub prepend : Text → Result (List Text) → Result (List Text)
prepend votekey (ok votekeys) = ok (votekey ∷ votekeys)
prepend votekey (err e) = err e

-- The loop that fills `votekeys`; the first nodekey without a votekey ends it.
unfoldable pub find_votekeys : Map Text Text → List Text → Result (List Text)
unfolding read_votekey prepend
find_votekeys m [] = ok []
find_votekeys m (nodekey ∷ nodekeys) =
    let votekey = read_votekey m nodekey in
    let rest = find_votekeys m nodekeys in
    if text_eqb votekey []
    then err (errorf (codes "failed to find vote key for node"))
    else prepend votekey rest

unfoldable pub associate : List Text → Result VoteAccounts → Result (List Text)
unfolding vote_accounts_map find_votekeys
associate nodekeys (err e) = err e
associate nodekeys (ok accounts) =
    find_votekeys (vote_accounts_map (accounts.current ++ accounts.delinquent) []) nodekeys

unfoldable pub get_associated_vote_accounts :
    {W F : Type 0} → Client W F → Commitment → List Text → W → Result (List Text) × W
unfolding associate
get_associated_vote_accounts client commitment nodekeys world =
    let (answer, world') = client.get_vote_accounts commitment world in
    (associate nodekeys answer, world')

-- The loop of `FetchBalances`: it asks for one address after the other, and the first
-- error ends it.
unfoldable pub fetch_balances_into :
    {W F : Type 0} → Client W F → List Text → Map Text F → W → Result (Map Text F) × W
fetch_balances_into client [] balances world = (ok balances, world)
fetch_balances_into client (address ∷ addresses) balances world =
    let (answer, world') = client.get_balance confirmed address world in
    elim answer [
      | err e ↦ (err e, world')
      | ok balance ↦ fetch_balances_into client addresses (insert address balance balances) world'
    ]

unfoldable pub fetch_balances :
    {W F : Type 0} → Client W F → List Text → W → Result (Map Text F) × W
unfolding fetch_balances_into
fetch_balances client addresses world = fetch_balances_into client addresses [] world
