-- ===== src/Api/Caching.antt =====
-- The cache of the API client: what a call leaves behind, and what a later call reads.
use solana_exporter.Base.{
  Text, text_eqb, true, false, Bool-cases, List, [], ◌∷◌, none, ◌≡◌, ◌≢◌, refl, arith, inl, inr,
}
use solana_exporter.Rpc.Types.{Result, ok, err, Error, EpochInfo, finalized}
use solana_exporter.Api.{
  Entry, Fetched, not_created, not_fetched, not_decoded, stats, Outside, Cache, Required, State,
  Answer, check_cache, accept_min, select_min, refresh_min, get_min_required_version, cached_min,
  cached_next, get_next_epoch_min_required_version, min_entry,
}

module _ {W F : Type 0} (outside : Outside W F) where
  -- What a refresh does to the cache: on success the current fields are set and the time, and the next
  -- fields are left; on an error nothing changes.
  abbrev RefreshedMin : Text → Cache → Answer W → Type 0
  RefreshedMin cluster c (ok r, s) =
      (r.cluster ≡ cluster)
      × (s.cache.agave_version ≡ r.version)
      × (s.cache.firedancer_version ≡ r.firedancer)
      × (s.cache.epoch ≡ r.for_epoch)
      × (s.cache.next_agave_version ≡ c.next_agave_version)
      × (s.cache.next_firedancer_version ≡ c.next_firedancer_version)
      × (s.cache.next_epoch ≡ c.next_epoch)
      × (s.cache.last_check ≢ none)
      × (r.version ≢ [])
  RefreshedMin cluster c (err e, s) = s.cache ≡ c

  accept_min-RefreshedMin :
      (cluster : Text) (entry : Entry) (cache : Cache) (world : W)
      → RefreshedMin cluster cache (accept_min outside cluster entry cache world)
  unfolding accept_min
  accept_min-RefreshedMin cluster entry cache world =
      elim (Bool-cases (text_eqb entry.agave_min_version [])) [
        | inl missing ↦ rw missing refl
        | inr found ↦
            rw found (refl, refl, refl, refl, refl, refl, refl, λ e. cc, λ e. cc (e, found))
      ]

  select_min-RefreshedMin :
      (cluster : Text) (first : Entry) (entries : List Entry) (cache : Cache)
      (asked : Result EpochInfo × W)
      → RefreshedMin cluster cache (select_min outside cluster first entries cache asked)
  unfolding select_min
  select_min-RefreshedMin cluster first entries cache (err e, world) = refl
  select_min-RefreshedMin cluster first entries cache (ok info, world) =
      accept_min-RefreshedMin cluster (min_entry info.epoch first entries) cache world

  refresh_min-RefreshedMin :
      (cluster : Text) (cache : Cache) (fetched : Fetched × W)
      → RefreshedMin cluster cache (refresh_min outside cluster cache fetched)
  unfolding refresh_min
  refresh_min-RefreshedMin cluster cache (not_created e, world) = refl
  refresh_min-RefreshedMin cluster cache (not_fetched e, world) = refl
  refresh_min-RefreshedMin cluster cache (not_decoded e, world) = refl
  refresh_min-RefreshedMin cluster cache (stats [], world) = refl
  refresh_min-RefreshedMin cluster cache (stats (first ∷ entries), world) =
      select_min-RefreshedMin cluster first entries cache
        (outside.rpc_client.get_epoch_info finalized world)

  -- A call that finds the cache stale.
  min_when_stale :
      (cluster : Text) (s : State W)
      → (check_cache outside s).0 ≡ false
      → RefreshedMin cluster s.cache (get_min_required_version outside cluster s)
  unfolding get_min_required_version
  min_when_stale cluster s h = rw h (
      refresh_min-RefreshedMin cluster s.cache
        (outside.fetch_stats cluster (check_cache outside s).1))

  next_when_fresh :
      (cluster : Text) (s : State W)
      → (check_cache outside s).0 ≡ true
      → get_next_epoch_min_required_version outside cluster s ≡ (
        ok (cached_next outside cluster s.cache),
        record { cache = s.cache; world = (check_cache outside s).1 },
      )
  unfolding get_next_epoch_min_required_version
  next_when_fresh cluster s h = rw h refl

  min_when_fresh :
      (cluster : Text) (s : State W)
      → (check_cache outside s).0 ≡ true
      → get_min_required_version outside cluster s ≡ (
        ok (cached_min outside cluster s.cache),
        record { cache = s.cache; world = (check_cache outside s).1 },
      )
  unfolding get_min_required_version
  min_when_fresh cluster s h = rw h refl

  refreshed :
      (cluster : Text) (s t : State W) (r : Required)
      → (check_cache outside s).0 ≡ false
      → get_min_required_version outside cluster s ≡ (ok r, t)
      → RefreshedMin cluster s.cache (ok r, t)
  refreshed cluster s t r stale e = rw e at (min_when_stale cluster s stale)

  -- After a call of `GetMinRequiredVersion` that refreshed the cache, a call of
  -- `GetNextEpochMinRequiredVersion` while the cache is fresh, for any cluster, asks nobody and returns
  -- without an error the next epoch's values from before that refresh.
  pub next-after_min :
      (cluster other : Text) (s t : State W) (r : Required)
      → (check_cache outside s).0 ≡ false
      → get_min_required_version outside cluster s ≡ (ok r, t)
      → (check_cache outside t).0 ≡ true
      → get_next_epoch_min_required_version outside other t ≡ (
        ok (record {
          version = s.cache.next_agave_version;
          cluster = other;
          for_epoch = s.cache.next_epoch;
          firedancer = s.cache.next_firedancer_version;
        }),
        record { cache = t.cache; world = (check_cache outside t).1 },
      )
  unfolding cached_next
  next-after_min cluster other s t r stale e fresh =
      let kept = refreshed cluster s t r stale e in
      rw (next_when_fresh other t fresh) (ground arith)

  -- After a call of `GetMinRequiredVersion` that refreshed the cache, a second call for the same
  -- cluster while the cache is fresh returns the same answer and leaves the cache as it is.
  pub min-after_min :
      (cluster : Text) (s t : State W) (r : Required)
      → (check_cache outside s).0 ≡ false
      → get_min_required_version outside cluster s ≡ (ok r, t)
      → (check_cache outside t).0 ≡ true
      → get_min_required_version outside cluster t
        ≡ (ok r, record { cache = t.cache; world = (check_cache outside t).1 })
  unfolding cached_min
  min-after_min cluster s t r stale e fresh =
      let kept = refreshed cluster s t r stale e in
      rw (min_when_fresh cluster t fresh) (ground arith)

  -- A call of `GetMinRequiredVersion` that fails leaves the cache as it was.
  pub min_error_keeps_cache :
      (cluster : Text) (s t : State W) (e : Error)
      → get_min_required_version outside cluster s ≡ (err e, t)
      → t.cache ≡ s.cache
  min_error_keeps_cache cluster s t e h = elim (Bool-cases (check_cache outside s).0) [
    | inl fresh ↦ cc (min_when_fresh cluster s fresh, h)
    | inr stale ↦ rw h at (min_when_stale cluster s stale)
  ]
