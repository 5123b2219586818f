-- ===== src/Rpc/Decoding.antt =====
-- The bodies of responses: `json.Unmarshal` as a parameter, and `HostProduction.UnmarshalJSON` of
-- pkg/rpc/responses.go.
pub mod Hosts
use solana_exporter.Base.{ℤ, List, [], ◌∷◌, Text, codes, Map}
use solana_exporter.Rpc.Types.{
  Result, ok, err, errorf, EpochInfo, VoteAccounts, HostProduction, BlockProduction,
  InflationReward, Block,
}
use solana_exporter.Rpc.Wire.{Response}

-- `contextualResult`; its context is never read.
pub record Contextual (A : Type 0) : Type 0 where
  pub value : A

-- `json.Unmarshal` into each type of the client. Of block production it gives the JSON of each entry,
-- which is for `UnmarshalJSON` to read; `int_array` is `json.Unmarshal` into `[]int64`.
pub record Unmarshal : Type 0 where
  pub epoch_info : Text → Result (Response EpochInfo)
  pub vote_accounts : Text → Result (Response VoteAccounts)
  pub version : Text → Result (Response Text)
  pub identity : Text → Result (Response Text)
  pub int : Text → Result (Response ℤ)
  pub contextual_int : Text → Result (Response (Contextual ℤ))
  pub block_production : Text → Result (Response (Contextual (Map Text Text)))
  pub inflation_rewards : Text → Result (Response (List InflationReward))
  pub leader_schedule : Text → Result (Response (Map Text (List ℤ)))
  pub block : Text → Result (Response Block)
  pub string : Text → Result (Response Text)
  pub int_array : Text → Result (List ℤ)

unfoldable pub host_of_array : Result (List ℤ) → Result HostProduction
host_of_array (err e) = err e
host_of_array (ok []) = err (errorf (codes "expected array of 2 integers"))
host_of_array (ok (a ∷ [])) = err (errorf (codes "expected array of 2 integers"))
host_of_array (ok (a ∷ b ∷ [])) = ok (record { leader_slots = a; blocks_produced = b })
host_of_array (ok (a ∷ b ∷ c ∷ rest)) = err (errorf (codes "expected array of 2 integers"))

unfoldable pub host_unmarshal_json : (Text → Result (List ℤ)) → Text → Result HostProduction
unfolding host_of_array
host_unmarshal_json int_array json = host_of_array (int_array json)

abbrev pub add_host :
    Text
    → Result HostProduction
    → Result (Map Text HostProduction)
    → Result (Map Text HostProduction)
add_host identity (err e) rest = err e
add_host identity (ok host) (err e) = err e
add_host identity (ok host) (ok hosts) = ok ((identity, host) ∷ hosts)

-- The entries of `byIdentity`: the first error of an entry is that of the whole.
unfoldable pub unmarshal_hosts :
    (Text → Result (List ℤ)) → Map Text Text → Result (Map Text HostProduction)
unfolding host_unmarshal_json
unmarshal_hosts int_array [] = ok []
unmarshal_hosts int_array ((identity, json) ∷ entries) =
    add_host identity (host_unmarshal_json int_array json) (unmarshal_hosts int_array entries)

abbrev with_hosts :
    Response (Contextual (Map Text Text))
    → Result (Map Text HostProduction)
    → Result (Response (Contextual BlockProduction))
with_hosts response (err e) = err e
with_hosts response (ok hosts) =
    ok (record {
      result = record { value = record { by_identity = hosts } };
      error = response.error;
    })

abbrev read_hosts :
    (Text → Result (List ℤ))
    → Result (Response (Contextual (Map Text Text)))
    → Result (Response (Contextual BlockProduction))
read_hosts int_array (err e) = err e
read_hosts int_array (ok response) =
    with_hosts response (unmarshal_hosts int_array response.result.value)

unfoldable pub unmarshal_block_production :
    Unmarshal → Text → Result (Response (Contextual BlockProduction))
unfolding unmarshal_hosts
unmarshal_block_production unmarshal json =
    read_hosts unmarshal.int_array (unmarshal.block_production json)
