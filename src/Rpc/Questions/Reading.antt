-- ===== src/Rpc/Questions/Reading.antt =====
-- The requests of the client's methods read as their questions.
use solana_exporter.Base.{ℤ, Text, List, some, ◌≡◌, refl}
use solana_exporter.Rpc.Types.{Commitment, finalized, confirmed, processed}
use solana_exporter.Rpc.Transport.{request_of}
use solana_exporter.Rpc.Decoding.{Unmarshal}
use solana_exporter.Rpc.Questions.{
  asks_epoch_info, asks_vote_accounts, asks_block_production, asks_balance, asks_inflation_reward,
  asks_leader_schedule, asks_block, read_question,
}
use solana_exporter.Rpc.Queries.{
  epoch_info_query, vote_accounts_query, block_production_query, balance_query,
  inflation_reward_query, leader_schedule_query, block_query,
}

module _ (unmarshal : Unmarshal) where
  pub reads_epoch_info :
      (c : Commitment)
      → read_question (request_of (epoch_info_query unmarshal c)) ≡ some (asks_epoch_info c)
  unfolding read_question
  reads_epoch_info finalized = refl
  reads_epoch_info confirmed = refl
  reads_epoch_info processed = refl

  pub reads_vote_accounts :
      (c : Commitment)
      → read_question (request_of (vote_accounts_query unmarshal c)) ≡ some (asks_vote_accounts c)
  unfolding read_question
  reads_vote_accounts finalized = refl
  reads_vote_accounts confirmed = refl
  reads_vote_accounts processed = refl

  pub reads_block_production :
      (c : Commitment) (first last : ℤ)
      → read_question (request_of (block_production_query unmarshal c first last))
        ≡ some (asks_block_production c first last)
  unfolding read_question
  reads_block_production finalized first last = refl
  reads_block_production confirmed first last = refl
  reads_block_production processed first last = refl

  pub reads_balance :
      (c : Commitment) (address : Text)
      → read_question (request_of (balance_query unmarshal c address))
        ≡ some (asks_balance c address)
  unfolding read_question
  reads_balance finalized address = refl
  reads_balance confirmed address = refl
  reads_balance processed address = refl

  pub reads_inflation_reward :
      (c : Commitment) (addresses : List Text) (epoch : ℤ)
      → read_question (request_of (inflation_reward_query unmarshal c addresses epoch))
        ≡ some (asks_inflation_reward c addresses epoch)
  unfolding read_question
  reads_inflation_reward finalized addresses epoch = refl
  reads_inflation_reward confirmed addresses epoch = refl
  reads_inflation_reward processed addresses epoch = refl

  pub reads_leader_schedule :
      (c : Commitment) (slot : ℤ)
      → read_question (request_of (leader_schedule_query unmarshal c slot))
        ≡ some (asks_leader_schedule c slot)
  unfolding read_question
  reads_leader_schedule finalized slot = refl
  reads_leader_schedule confirmed slot = refl
  reads_leader_schedule processed slot = refl

  pub reads_block :
      (c : Commitment) (slot : ℤ) (details : Text)
      → read_question (request_of (block_query unmarshal c slot details))
        ≡ some (asks_block c slot details)
  unfolding read_question
  reads_block finalized slot details = refl
  reads_block confirmed slot details = refl
  reads_block processed slot details = refl
