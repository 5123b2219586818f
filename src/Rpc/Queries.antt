-- ===== src/Rpc/Queries.antt =====
-- The requests of the methods of pkg/rpc/client.go: method name, parameters and the response's type.
use solana_exporter.Base.{ℤ, pos, true, List, [], ◌∷◌, Text, codes, Map}
use solana_exporter.Rpc.Types.{
  EpochInfo, VoteAccounts, BlockProduction, InflationReward, Block, Commitment,
}
use solana_exporter.Rpc.Wire.{
  text, texts, number, boolean, object, Fields, end, field, Param, commitment_text,
}
use solana_exporter.Rpc.Transport.{Query}
use solana_exporter.Rpc.Decoding.{Contextual, Unmarshal, unmarshal_block_production}

abbrev with_commitment : Commitment → Fields → Param
with_commitment commitment rest =
    object (field (codes "commitment") (text (commitment_text commitment)) rest)

module _ (unmarshal : Unmarshal) where
  abbrev pub epoch_info_query : Commitment → Query EpochInfo
  epoch_info_query commitment = record {
    method = codes "getEpochInfo";
    params = with_commitment commitment end ∷ [];
    unmarshal = unmarshal.epoch_info;
  }

  abbrev pub vote_accounts_query : Commitment → Query VoteAccounts
  vote_accounts_query commitment = record {
    method = codes "getVoteAccounts";
    params = with_commitment commitment end ∷ [];
    unmarshal = unmarshal.vote_accounts;
  }

  abbrev pub version_query : Query Text
  version_query = record { method = codes "getVersion"; params = []; unmarshal = unmarshal.version }

  abbrev pub identity_query : Query Text
  identity_query = record {
    method = codes "getIdentity";
    params = [];
    unmarshal = unmarshal.identity;
  }

  abbrev pub slot_query : Commitment → Query ℤ
  slot_query commitment = record {
    method = codes "getSlot";
    params = with_commitment commitment end ∷ [];
    unmarshal = unmarshal.int;
  }

  abbrev pub block_production_query : Commitment → ℤ → ℤ → Query (Contextual BlockProduction)
  block_production_query commitment first_slot last_slot = record {
    method = codes "getBlockProduction";
    params =
        with_commitment commitment (
          field (codes "range")
            (object (
              field (codes "firstSlot") (number first_slot)
                (field (codes "lastSlot") (number last_slot) end)))
            end)
        ∷ [];
    unmarshal = unmarshal_block_production unmarshal;
  }

  abbrev pub balance_query : Commitment → Text → Query (Contextual ℤ)
  balance_query commitment address = record {
    method = codes "getBalance";
    params = text address ∷ with_commitment commitment end ∷ [];
    unmarshal = unmarshal.contextual_int;
  }

  abbrev pub inflation_reward_query : Commitment → List Text → ℤ → Query (List InflationReward)
  inflation_reward_query commitment addresses epoch = record {
    method = codes "getInflationReward";
    params =
        texts addresses
        ∷ with_commitment commitment (field (codes "epoch") (number epoch) end)
        ∷ [];
    unmarshal = unmarshal.inflation_rewards;
  }

  abbrev pub leader_schedule_query : Commitment → ℤ → Query (Map Text (List ℤ))
  leader_schedule_query commitment slot = record {
    method = codes "getLeaderSchedule";
    params = number slot ∷ with_commitment commitment end ∷ [];
    unmarshal = unmarshal.leader_schedule;
  }

  abbrev pub block_query : Commitment → ℤ → Text → Query Block
  block_query commitment slot transaction_details = record {
    method = codes "getBlock";
    params =
        number slot
        ∷ with_commitment commitment (
            field (codes "encoding") (text (codes "json")) (
              field (codes "transactionDetails") (text transaction_details) (
                field (codes "rewards") (boolean true)
                  (field (codes "maxSupportedTransactionVersion") (number (pos 0)) end))))
        ∷ [];
    unmarshal = unmarshal.block;
  }

  abbrev pub health_query : Query Text
  health_query = record { method = codes "getHealth"; params = []; unmarshal = unmarshal.string }

  abbrev pub minimum_ledger_slot_query : Query ℤ
  minimum_ledger_slot_query = record {
    method = codes "minimumLedgerSlot";
    params = [];
    unmarshal = unmarshal.int;
  }

  abbrev pub first_available_block_query : Query ℤ
  first_available_block_query = record {
    method = codes "getFirstAvailableBlock";
    params = [];
    unmarshal = unmarshal.int;
  }

  abbrev pub genesis_hash_query : Query Text
  genesis_hash_query = record {
    method = codes "getGenesisHash";
    params = [];
    unmarshal = unmarshal.string;
  }
