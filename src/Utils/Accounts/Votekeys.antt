-- ===== src/Utils/Accounts/Votekeys.antt =====
-- What `GetAssociatedVoteAccounts` returns.
use solana_exporter.Base.{
  Text, text_eqb, text_eqb_iff, text_eq, length, List, [], ◌∷◌, ◌++◌, In, some, Option-cases,
  Bool-cases, Map, lookup, insert, lookup-insert, ==-cases, ◌≡◌, ◌≢◌, refl, ap, arith, ◌⊎◌, inl,
  inr, suc,
}
use solana_exporter.Rpc.Types.{Result, ok, err, Commitment, VoteAccount, VoteAccounts}
use solana_exporter.Rpc.Client.{Client}
use solana_exporter.Utils.Accounts.{
  vote_accounts_map, read_votekey, prepend, find_votekeys, associate, get_associated_vote_accounts,
}

-- An account of the list joins the two keys.
abbrev pub Joins : List VoteAccount → Text → Text → Type 0
Joins accounts nodekey votekey =
    (account : VoteAccount) × In account accounts
    × (account.node_pubkey ≡ nodekey)
    × (account.vote_pubkey ≡ votekey)

-- Key by key, the votekey is not empty and an account joins it to the nodekey.
abbrev pub Associated : List VoteAccount → List Text → List Text → Type 0
Associated accounts [] [] = Unit
Associated accounts [] (v ∷ votekeys) = ⊥
Associated accounts (n ∷ nodekeys) [] = ⊥
Associated accounts (n ∷ nodekeys) (v ∷ votekeys) =
    (v ≢ []) × Joins accounts n v × Associated accounts nodekeys votekeys

Joins-cons :
    (a : VoteAccount) (accounts : List VoteAccount) (n v : Text)
    → Joins accounts n v
    → Joins (a ∷ accounts) n v
Joins-cons a accounts n v (account, m, e, f) = (account, inr m, e, f)

-- What the map holds was in it before, or comes from an account.
vote_accounts_map-Joins :
    (accounts : List VoteAccount) (m : Map Text Text) (n v : Text)
    → lookup n (vote_accounts_map accounts m) ≡ some v
    → (lookup n m ≡ some v) ⊎ Joins accounts n v
unfolding vote_accounts_map
vote_accounts_map-Joins [] m n v h = inl h
vote_accounts_map-Joins (a ∷ accounts) m n v h =
    elim (vote_accounts_map-Joins accounts (insert a.node_pubkey a.vote_pubkey m) n v h) [
      | inr j ↦ inr (Joins-cons a accounts n v j)
      | inl held ↦ elim (==-cases a.node_pubkey n) [
        | inl (t, p) ↦
            inr (a, inl refl, p, ground (arith, lookup-insert a.node_pubkey n a.vote_pubkey m))
        | inr (t, p) ↦ inl (ground (arith, lookup-insert a.node_pubkey n a.vote_pubkey m))
      ]
    ]

read_votekey-Joins :
    (accounts : List VoteAccount) (n : Text)
    → read_votekey (vote_accounts_map accounts []) n ≢ []
    → Joins accounts n (read_votekey (vote_accounts_map accounts []) n)
unfolding read_votekey
read_votekey-Joins accounts n h = elim (Option-cases (lookup n (vote_accounts_map accounts []))) [
  | inl missing ↦ absurd (h (rw (missing, read_votekey)))
  | inr (v, found) ↦ elim (vote_accounts_map-Joins accounts [] n v found) [
    | inl held ↦ absurd (cc)
    | inr j ↦ rw (found, read_votekey) j
  ]
]

prepend-eq-ok :
    (v : Text) (r : Result (List Text)) (votekeys : List Text)
    → prepend v r ≡ ok votekeys
    → (rest : List Text) × (r ≡ ok rest) × (votekeys ≡ v ∷ rest)
unfolding prepend
prepend-eq-ok v (ok rest) votekeys h = (rest, refl, cc)
prepend-eq-ok v (err e) votekeys h = cc

find_votekeys-Associated :
    (accounts : List VoteAccount) (nodekeys votekeys : List Text)
    → find_votekeys (vote_accounts_map accounts []) nodekeys ≡ ok votekeys
    → Associated accounts nodekeys votekeys
unfolding find_votekeys
find_votekeys-Associated accounts [] votekeys h = ground arith
find_votekeys-Associated accounts (n ∷ nodekeys) votekeys h =
    let v = read_votekey (vote_accounts_map accounts []) n in
    elim (Bool-cases (text_eqb v [])) [
      | inl missing ↦ absurd (cc (rw missing at h))
      | inr found ↦
          let (rest, e, f) = prepend-eq-ok v _ votekeys (rw found at h) in
          let known : v ≢ [] = λ p. cc (found, (text_eqb_iff v []).1 p) in
          rw f (
            known,
            read_votekey-Joins accounts n known,
            find_votekeys-Associated accounts nodekeys rest e,
          )
    ]

associate-Associated :
    (nodekeys votekeys : List Text) (answer : Result VoteAccounts)
    → associate nodekeys answer ≡ ok votekeys
    → (accounts : VoteAccounts) × (answer ≡ ok accounts)
      × Associated (accounts.current ++ accounts.delinquent) nodekeys votekeys
unfolding associate
associate-Associated nodekeys votekeys (err e) h = cc
associate-Associated nodekeys votekeys (ok accounts) h = (
  accounts,
  refl,
  find_votekeys-Associated (accounts.current ++ accounts.delinquent) nodekeys votekeys h,
)

pub length-Associated :
    (accounts : List VoteAccount) (nodekeys votekeys : List Text)
    → Associated accounts nodekeys votekeys
    → length votekeys ≡ length nodekeys
length-Associated accounts [] [] h = refl
length-Associated accounts [] (v ∷ votekeys) h = absurd h
length-Associated accounts (n ∷ nodekeys) [] h = absurd h
length-Associated accounts (n ∷ nodekeys) (v ∷ votekeys) h =
    ap suc (length-Associated accounts nodekeys votekeys (h.2))

-- If `GetAssociatedVoteAccounts` succeeds then the node answered with vote accounts, and the votekeys
-- stand in the order of the nodekeys, one for each: it is not empty, and a current or delinquent
-- account of the answer has the nodekey and the votekey.
pub get_associated_vote_accounts-Associated :
    {W F : Type 0} (client : Client W F) (commitment : Commitment) (nodekeys votekeys : List Text)
    (world : W)
    → (get_associated_vote_accounts client commitment nodekeys world).0 ≡ ok votekeys
    → (accounts : VoteAccounts) × ((client.get_vote_accounts commitment world).0 ≡ ok accounts)
      × Associated (accounts.current ++ accounts.delinquent) nodekeys votekeys
unfolding get_associated_vote_accounts
get_associated_vote_accounts-Associated client commitment nodekeys votekeys world h =
    associate-Associated nodekeys votekeys (client.get_vote_accounts commitment world).0 h
