-- ===== src/Api/Mock.antt =====
-- pkg/api/mock.go: a client whose cache is set by hand.
use solana_exporter.Base.{pos, Text, true, some, ◌≡◌, refl}
use solana_exporter.Rpc.Types.{ok}
use solana_exporter.Api.{
  Outside, Cache, new_cache, Required, State, check_cache, cached_min, cached_next,
  get_min_required_version, get_next_epoch_min_required_version,
}

-- The RPC client of the mock is `nil`: only calls that find the cache fresh can be made.
abbrev pub new_mock_client : Cache
new_mock_client = new_cache

module _ {W F : Type 0} (outside : Outside W F) where
  unfoldable pub set_min_required_version : Text → Text → State W → State W
  set_min_required_version agave_version firedancer_version s =
      let (t, world') = outside.now s.world in
      record {
        cache = record s.cache {
          agave_version = agave_version;
          firedancer_version = firedancer_version;
          epoch = pos 797;
          last_check = some t;
        };
        world = world';
      }

  unfoldable pub set_next_epoch_min_required_version : Text → Text → State W → State W
  set_next_epoch_min_required_version agave_version firedancer_version s =
      let (t, world') = outside.now s.world in
      record {
        cache = record s.cache {
          next_agave_version = agave_version;
          next_firedancer_version = firedancer_version;
          next_epoch = pos 798;
          last_check = some t;
        };
        world = world';
      }

-- The methods of `MockClient`.
unfoldable pub mock_min_required_version : Text → Cache → Required
mock_min_required_version cluster cache = record {
  version = cache.agave_version;
  cluster = cluster;
  for_epoch = cache.epoch;
  firedancer = cache.firedancer_version;
}

unfoldable pub mock_next_epoch_min_required_version : Text → Cache → Required
mock_next_epoch_min_required_version cluster cache = record {
  version = cache.next_agave_version;
  cluster = cluster;
  for_epoch = cache.next_epoch;
  firedancer = cache.next_firedancer_version;
}

module _ {W F : Type 0} (outside : Outside W F) where
  abbrev pub both_set : Text → Text → Text → Text → State W → State W
  both_set agave firedancer next_agave next_firedancer s =
      set_next_epoch_min_required_version outside next_agave next_firedancer
        (set_min_required_version outside agave firedancer s)

  -- After `SetMinRequiredVersion` and then `SetNextEpochMinRequiredVersion`, while the cache is fresh:
  -- both methods of `Client` return without an error exactly what the methods of `MockClient` do, the
  -- versions that were set for the epochs 797 and 798 under the cluster that is asked for, and they leave
  -- the cache as it is.
  pub set-get_min_required_version :
      (agave firedancer next_agave next_firedancer cluster : Text) (s : State W)
      → let t = both_set agave firedancer next_agave next_firedancer s in
        (check_cache outside t).0 ≡ true
        → let u : State W = record { cache = t.cache; world = (check_cache outside t).1 } in
          (get_min_required_version outside cluster t
            ≡ (ok (mock_min_required_version cluster t.cache), u))
          × (get_next_epoch_min_required_version outside cluster t
              ≡ (ok (mock_next_epoch_min_required_version cluster t.cache), u))
          × (mock_min_required_version cluster t.cache ≡ record {
            version = agave;
            cluster = cluster;
            for_epoch = pos 797;
            firedancer = firedancer;
          })
          × (mock_next_epoch_min_required_version cluster t.cache ≡ record {
            version = next_agave;
            cluster = cluster;
            for_epoch = pos 798;
            firedancer = next_firedancer;
          })
  unfolding set_min_required_version set_next_epoch_min_required_version mock_min_required_version
      mock_next_epoch_min_required_version get_min_required_version
      get_next_epoch_min_required_version cached_min cached_next
  set-get_min_required_version agave firedancer next_agave next_firedancer cluster s fresh =
      (rw fresh refl, rw fresh refl, refl, refl)
