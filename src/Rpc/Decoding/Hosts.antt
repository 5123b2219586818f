-- ===== src/Rpc/Decoding/Hosts.antt =====
-- Which block production `HostProduction.UnmarshalJSON` accepts.
use solana_exporter.Base.{ℤ, List, [], ◌∷◌, Text, Map, ◌≡◌, refl, arith, ◌↔◌}
use solana_exporter.Rpc.Types.{Result, ok, err, HostProduction}
use solana_exporter.Rpc.Decoding.{host_of_array, host_unmarshal_json, add_host, unmarshal_hosts}

module _ (int_array : Text → Result (List ℤ)) where
  -- The same identities in the same order, each with an array of two integers: its leader slots, then the
  -- blocks that it produced.
  abbrev pub Decoded : Map Text Text → Map Text HostProduction → Type 0
  Decoded [] [] = Unit
  Decoded [] (host ∷ hosts) = ⊥
  Decoded (entry ∷ entries) [] = ⊥
  Decoded ((identity, json) ∷ entries) ((identity', host) ∷ hosts) =
      (identity' ≡ identity)
      × (int_array json ≡ ok (host.leader_slots ∷ host.blocks_produced ∷ []))
      × Decoded entries hosts

  host_of_array_lem :
      (answer : Result (List ℤ)) (host : HostProduction)
      → host_of_array answer ≡ ok host
      → answer ≡ ok (host.leader_slots ∷ host.blocks_produced ∷ [])
  unfolding host_of_array
  host_of_array_lem (err e) host h = cc
  host_of_array_lem (ok []) host h = cc
  host_of_array_lem (ok (a ∷ [])) host h = cc
  host_of_array_lem (ok (a ∷ b ∷ [])) host h = ground arith
  host_of_array_lem (ok (a ∷ b ∷ c ∷ rest)) host h = cc

  add_host-inversion :
      (identity : Text) (first : Result HostProduction) (rest : Result (Map Text HostProduction))
      (all : Map Text HostProduction)
      → add_host identity first rest ≡ ok all
      → (host : HostProduction) × (hosts : Map Text HostProduction) × (first ≡ ok host)
        × (rest ≡ ok hosts)
        × (all ≡ (identity, host) ∷ hosts)
  add_host-inversion identity (err e) rest all h = cc
  add_host-inversion identity (ok host) (err e) all h = cc
  add_host-inversion identity (ok host) (ok hosts) all h = (host, hosts, refl, refl, ground arith)

  unmarshal_hosts_sound :
      (entries : Map Text Text) (hosts : Map Text HostProduction)
      → unmarshal_hosts int_array entries ≡ ok hosts
      → Decoded entries hosts
  unfolding unmarshal_hosts host_unmarshal_json
  unmarshal_hosts_sound [] [] h = tt
  unmarshal_hosts_sound [] (host ∷ hosts) h = ground arith
  unmarshal_hosts_sound ((identity, json) ∷ entries) hosts h =
      let (host, rest, first, later, e) =
        add_host-inversion identity (host_of_array (int_array json))
          (unmarshal_hosts int_array entries) hosts h in
      rw e (
        refl,
        host_of_array_lem (int_array json) host first,
        unmarshal_hosts_sound entries rest later,
      )

  unmarshal_hosts_complete :
      (entries : Map Text Text) (hosts : Map Text HostProduction)
      → Decoded entries hosts
      → unmarshal_hosts int_array entries ≡ ok hosts
  unfolding unmarshal_hosts host_unmarshal_json host_of_array
  unmarshal_hosts_complete [] [] h = refl
  unmarshal_hosts_complete [] (host ∷ hosts) h = absurd h
  unmarshal_hosts_complete (entry ∷ entries) [] h = absurd h
  unmarshal_hosts_complete ((identity, json) ∷ entries) ((identity', host) ∷ hosts)
        (same, array, rest) =
      rw (same, array, unmarshal_hosts_complete entries hosts rest) refl

  -- The entries of block production are read exactly where each of them is an array of two integers; the
  -- result has the same identities in the same order, with the first integer as the leader slots and the
  -- second as the blocks produced.
  pub unmarshal_hosts-Decoded :
      (entries : Map Text Text) (hosts : Map Text HostProduction)
      → (unmarshal_hosts int_array entries ≡ ok hosts) ↔ Decoded entries hosts
  unmarshal_hosts-Decoded entries hosts =
      (unmarshal_hosts_sound entries hosts, unmarshal_hosts_complete entries hosts)
