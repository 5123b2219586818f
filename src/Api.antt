-- ===== src/Api.antt =====
-- The client of the required-versions API, pkg/api/client.go and pkg/api/types.go.
pub mod Lookup
pub mod Caching
pub mod Sharing
pub mod Mock
use solana_exporter.Base.{
  ℕ, ℤ, pos, ◌+64◌, ◌-ℤ◌, ltb_ℤ, int_eqb, Text, codes, text_eqb, Bool, true, false, List, [], ◌∷◌,
  Option, none, some, if◌then◌else◌,
}
use solana_exporter.Rpc.Types.{Result, ok, err, Error, errorf, wrap, EpochInfo, finalized}
use solana_exporter.Rpc.Client.{Client}

-- An entry of `ValidatorEpochStats.Data`; the fields that no code reads are left out.
pub record Entry : Type 0 where
  pub entry_epoch : ℤ
  pub agave_min_version : Text
  pub firedancer_min_version : Text

-- How the request for the stats ends.
pub data Fetched : Type 0 where
  not_created : Error → Fetched
  not_fetched : Error → Fetched
  not_decoded : Error → Fetched
  stats : List Entry → Fetched

-- What the client calls: the API of a cluster, and the clock in nanoseconds.
pub record Outside (W F : Type 0) : Type 0 where
  pub rpc_client : Client W F
  pub fetch_stats : Text → W → Fetched × W
  pub now : W → ℤ × W

-- `lastCheck` is `none` while it is the zero time.
pub record Cache : Type 0 where
  pub agave_version : Text
  pub firedancer_version : Text
  pub next_agave_version : Text
  pub next_firedancer_version : Text
  pub last_check : Option ℤ
  pub epoch : ℤ
  pub next_epoch : ℤ

-- `NewClient`
abbrev pub new_cache : Cache
new_cache = record {
  agave_version = [];
  firedancer_version = [];
  next_agave_version = [];
  next_firedancer_version = [];
  last_check = none;
  epoch = pos 0;
  next_epoch = pos 0;
}

-- Six hours.
abbrev pub cache_timeout : ℤ
cache_timeout = pos 21600000000000

-- What a call returns beside its error.
pub record Required : Type 0 where
  pub version : Text
  pub cluster : Text
  pub for_epoch : ℤ
  pub firedancer : Text

pub record State (W : Type 0) : Type 0 where
  pub cache : Cache
  pub world : W

abbrev pub Answer : Type 0 → Type 0
Answer W = Result Required × State W

-- The first entry of an epoch.
unfoldable pub find_entry : ℤ → List Entry → Option Entry
find_entry e [] = none
find_entry e (entry ∷ entries) =
    let rest = find_entry e entries in if int_eqb entry.entry_epoch e then some entry else rest

unfoldable pub or_entry : Option Entry → Entry → Entry
or_entry none fallback = fallback
or_entry (some entry) fallback = entry

-- The entry of the current epoch, or the first one.
unfoldable pub min_entry : ℤ → Entry → List Entry → Entry
unfolding find_entry or_entry
min_entry current first entries = or_entry (find_entry current (first ∷ entries)) first

-- The entry of the next epoch, or that of the current one, or the first one.
unfoldable pub next_entry : ℤ → Entry → List Entry → Entry
unfolding find_entry or_entry
next_entry current first entries =
    or_entry (find_entry (current +64 pos 1) (first ∷ entries))
      (or_entry (find_entry current (first ∷ entries)) first)

-- Whether the cache is used at time `t`.
unfoldable pub is_fresh : Cache → ℤ → Bool
is_fresh cache t = elim cache.last_check [
  | none ↦ false
  | some last ↦ ltb_ℤ (t -ℤ last) cache_timeout
]

module _ {W F : Type 0} (outside : Outside W F) where
  -- The clock is read only if the cache was filled.
  unfoldable pub check_cache : State W → Bool × W
  unfolding is_fresh
  check_cache s = elim s.cache.last_check [
    | none ↦ (false, s.world)
    | some last ↦ (is_fresh s.cache (outside.now s.world).0, (outside.now s.world).1)
  ]

  store_min : Text → Entry → Cache → W → Answer W
  store_min cluster entry cache world =
      let (t, world') = outside.now world in
      (
        ok (record {
          version = entry.agave_min_version;
          cluster = cluster;
          for_epoch = entry.entry_epoch;
          firedancer = entry.firedancer_min_version;
        }),
        record {
          cache = record cache {
            agave_version = entry.agave_min_version;
            firedancer_version = entry.firedancer_min_version;
            epoch = entry.entry_epoch;
            last_check = some t;
          };
          world = world';
        },
      )

  unfoldable pub accept_min : Text → Entry → Cache → W → Answer W
  unfolding store_min
  accept_min cluster entry cache world =
      if text_eqb entry.agave_min_version []
      then (
        err (errorf (codes "agave_min_version not found in response")),
        record { cache = cache; world = world },
      )
      else store_min cluster entry cache world

  unfoldable pub select_min : Text → Entry → List Entry → Cache → Result EpochInfo × W → Answer W
  unfolding accept_min
  select_min cluster first entries cache (err e, world) =
      (err (wrap (codes "failed to get current epoch") e), record { cache = cache; world = world })
  select_min cluster first entries cache (ok info, world) =
      accept_min cluster (min_entry info.epoch first entries) cache world

  unfoldable pub refresh_min : Text → Cache → Fetched × W → Answer W
  unfolding select_min
  refresh_min cluster cache (not_created e, world) =
      (err (wrap (codes "failed to create request") e), record { cache = cache; world = world })
  refresh_min cluster cache (not_fetched e, world) = (
    err (wrap (codes "failed to fetch min required version") e),
    record { cache = cache; world = world },
  )
  refresh_min cluster cache (not_decoded e, world) =
      (err (wrap (codes "failed to decode response") e), record { cache = cache; world = world })
  refresh_min cluster cache (stats [], world) =
      (err (errorf (codes "no data found in response")), record { cache = cache; world = world })
  refresh_min cluster cache (stats (first ∷ entries), world) =
      select_min cluster first entries cache (outside.rpc_client.get_epoch_info finalized world)

  unfoldable pub cached_min : Text → Cache → Required
  cached_min cluster cache = record {
    version = cache.agave_version;
    cluster = cluster;
    for_epoch = cache.epoch;
    firedancer = cache.firedancer_version;
  }

  unfoldable pub get_min_required_version : Text → State W → Answer W
  unfolding check_cache refresh_min cached_min
  get_min_required_version cluster s =
      let (fresh, world) = check_cache s in
      if fresh
      then (ok (cached_min cluster s.cache), record { cache = s.cache; world = world })
      else refresh_min cluster s.cache (outside.fetch_stats cluster world)

  store_next : Text → Entry → Cache → W → Answer W
  store_next cluster entry cache world =
      let (t, world') = outside.now world in
      (
        ok (record {
          version = entry.agave_min_version;
          cluster = cluster;
          for_epoch = entry.entry_epoch;
          firedancer = entry.firedancer_min_version;
        }),
        record {
          cache = record cache {
            next_agave_version = entry.agave_min_version;
            next_firedancer_version = entry.firedancer_min_version;
            next_epoch = entry.entry_epoch;
            last_check = some t;
          };
          world = world';
        },
      )

  unfoldable pub accept_next : Text → Entry → Cache → W → Answer W
  unfolding store_next
  accept_next cluster entry cache world =
      if text_eqb entry.agave_min_version []
      then (
        err (errorf (codes "agave_min_version not found in response")),
        record { cache = cache; world = world },
      )
      else if text_eqb entry.firedancer_min_version []
      then (
        err (errorf (codes "firedancer_min_version not found in response")),
        record { cache = cache; world = world },
      )
      else store_next cluster entry cache world

  -- The test for a missing entry after the fallback can never hold, and is left out.
  unfoldable pub select_next : Text → Entry → List Entry → Cache → Result EpochInfo × W → Answer W
  unfolding accept_next
  select_next cluster first entries cache (err e, world) =
      (err (wrap (codes "failed to get current epoch") e), record { cache = cache; world = world })
  select_next cluster first entries cache (ok info, world) =
      accept_next cluster (next_entry info.epoch first entries) cache world

  unfoldable pub refresh_next : Text → Cache → Fetched × W → Answer W
  unfolding select_next
  refresh_next cluster cache (not_created e, world) =
      (err (wrap (codes "failed to create request") e), record { cache = cache; world = world })
  refresh_next cluster cache (not_fetched e, world) = (
    err (wrap (codes "failed to fetch next epoch required version") e),
    record { cache = cache; world = world },
  )
  refresh_next cluster cache (not_decoded e, world) =
      (err (wrap (codes "failed to decode response") e), record { cache = cache; world = world })
  refresh_next cluster cache (stats [], world) =
      (err (errorf (codes "no data found in response")), record { cache = cache; world = world })
  refresh_next cluster cache (stats (first ∷ entries), world) =
      select_next cluster first entries cache (outside.rpc_client.get_epoch_info finalized world)

  unfoldable pub cached_next : Text → Cache → Required
  cached_next cluster cache = record {
    version = cache.next_agave_version;
    cluster = cluster;
    for_epoch = cache.next_epoch;
    firedancer = cache.next_firedancer_version;
  }

  unfoldable pub get_next_epoch_min_required_version : Text → State W → Answer W
  unfolding check_cache refresh_next cached_next
  get_next_epoch_min_required_version cluster s =
      let (fresh, world) = check_cache s in
      if fresh
      then (ok (cached_next cluster s.cache), record { cache = s.cache; world = world })
      else refresh_next cluster s.cache (outside.fetch_stats cluster world)
