-- ===== src/Utils/Blocks.antt =====
-- `CountVoteTransactions` of cmd/solana-exporter/utils.go, and its constant `VoteProgram`.
use solana_exporter.Base.{
  ℕ, ◌+◌, Text, codes, List, [], ◌∷◌, contains, text_eq, Option, none, some, if◌then◌else◌,
}
use solana_exporter.Rpc.Types.{
  Result, ok, err, errorf, Transaction, full_transaction, malformed, Block,
}

abbrev pub vote_program : Text
vote_program = codes "Vote111111111111111111111111111111111111111"

-- `json.Unmarshal` of all transactions: one that has not the form fails the whole.
unfoldable pub account_keys : List Transaction → Option (List (List Text))
account_keys [] = some []
account_keys (malformed ∷ transactions) = none
account_keys (full_transaction keys ∷ transactions) = elim (account_keys transactions) [
  | none ↦ none
  | some rest ↦ some (keys ∷ rest)
]

unfoldable pub count_votes : List (List Text) → ℕ → ℕ
count_votes [] vote_count = vote_count
count_votes (keys ∷ transactions) vote_count =
    count_votes transactions (if contains keys vote_program then vote_count + 1 else vote_count)

unfoldable pub count_vote_transactions : Block → Result ℕ
unfolding account_keys count_votes
count_vote_transactions block = elim (account_keys block.transactions) [
  | none ↦ err (errorf (codes "failed to unmarshal transactions"))
  | some transactions ↦ ok (count_votes transactions 0)
]
