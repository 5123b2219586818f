-- ===== src/Api/Sharing/Whole.antt =====
-- Calls that interleave: the entries of the API that the cache and the answers are taken from.
use solana_exporter.Base.{
  pos, Text, text_eqb, text_eqb_refl, false, Bool-cases, In, All, All-append, All-parts, List, [],
  ◌∷◌, ◌≡◌, ◌≢◌, refl, ◌⊎◌, inl, inr,
}
use solana_exporter.Rpc.Types.{Result, ok, err, EpochInfo}
use solana_exporter.Api.{
  Entry, not_created, not_fetched, not_decoded, stats, Outside, Cache, new_cache, Required, State,
  Answer, Fetched, check_cache, min_entry, next_entry, accept_min, accept_next, select_min,
  select_next, refresh_min, refresh_next,
}
use solana_exporter.Api.Lookup.{Gives, min_entry-IsMinEntry, next_entry-IsNextEntry}
use solana_exporter.Api.Sharing.{
  Method, of_current, of_next, Phase, called, stale, fetched, told, answered, next_step, look,
  cached, ask_epoch, select, refresh, Shared, Step, pick, begin, elsewhere, Reach, start, later,
}

abbrev required : Entry → Text → Required
required entry cluster = record {
  version = entry.agave_min_version;
  cluster = cluster;
  for_epoch = entry.entry_epoch;
  firedancer = entry.firedancer_min_version;
}

-- The values of a cache that was never filled.
abbrev IsUnfilled : Required → Type 0
IsUnfilled r = (r.version ≡ []) × (r.firedancer ≡ []) × (r.for_epoch ≡ pos 0)

module _ {W F : Type 0} (outside : Outside W F) where
  -- The API may answer so.
  abbrev IsFetched : Fetched → Type 0
  IsFetched f = (cluster : Text) × (world : W) × ((outside.fetch_stats cluster world).0 ≡ f)

  abbrev IsReported : Entry → Type 0
  IsReported entry = (entries : List Entry) × IsFetched (stats entries) × In entry entries

  -- The values of one entry of one answer of the API, with a version; or nothing was cached before.
  abbrev pub IsWhole : Required → Type 0
  IsWhole r = IsUnfilled r ⊎ ((entry : Entry) × IsReported entry × Gives entry r × (r.version ≢ []))

  abbrev IsWholeCache : Cache → Type 0
  IsWholeCache c =
      ((cluster : Text) → IsWhole (cached outside of_current cluster c))
      × ((cluster : Text) → IsWhole (cached outside of_next cluster c))

  cached-IsWhole :
      (method : Method) (cluster : Text) (c : Cache)
      → IsWholeCache c
      → IsWhole (cached outside method cluster c)
  cached-IsWhole of_current cluster c (current, next) = current cluster
  cached-IsWhole of_next cluster c (current, next) = next cluster

  abbrev pub IsSound : Phase → Type 0
  IsSound called = Unit
  IsSound stale = Unit
  IsSound (fetched f) = IsFetched f
  IsSound (told first entries answer) = IsFetched (stats (first ∷ entries))
  IsSound (answered (err e)) = Unit
  IsSound (answered (ok r)) = IsWhole r

  abbrev KeepsWhole : Phase × State W → Type 0
  KeepsWhole (phase, s) = IsSound phase × IsWholeCache s.cache

  abbrev ended : Answer W → Phase × State W
  ended (r, s) = (answered r, s)

  given :
      (entry : Entry) (r : Required)
      → IsReported entry
      → Gives entry r
      → text_eqb entry.agave_min_version [] ≡ false
      → IsWhole r
  given entry r reported gives found =
      let filled : r.version ≢ [] = λ e. cc (gives.0, e, found, text_eqb_refl []) in
      inr (entry, reported, gives, filled)

  accept_min-Whole :
      (cluster : Text) (entry : Entry) (cache : Cache) (world : W)
      → IsReported entry
      → IsWholeCache cache
      → KeepsWhole (ended (accept_min outside cluster entry cache world))
  unfolding accept_min cached
  accept_min-Whole cluster entry cache world reported whole =
      elim (Bool-cases (text_eqb entry.agave_min_version [])) [
        | inl missing ↦ rw missing (tt, whole)
        | inr found ↦
            let new = λ (other : Text).
              given entry (required entry other) reported (refl, refl, refl) found in
            rw found (new cluster, (new, whole.1))
      ]

  accept_next-Whole :
      (cluster : Text) (entry : Entry) (cache : Cache) (world : W)
      → IsReported entry
      → IsWholeCache cache
      → KeepsWhole (ended (accept_next outside cluster entry cache world))
  unfolding accept_next cached
  accept_next-Whole cluster entry cache world reported whole =
      elim (Bool-cases (text_eqb entry.agave_min_version [])) [
        | inl missing ↦ rw missing (tt, whole)
        | inr found ↦ elim (Bool-cases (text_eqb entry.firedancer_min_version [])) [
          | inl lacking ↦ rw (found, lacking) (tt, whole)
          | inr there ↦
              let new = λ (other : Text).
                given entry (required entry other) reported (refl, refl, refl) found in
              rw (found, there) (new cluster, (whole.0, new))
        ]
      ]

  select-Whole :
      (method : Method) (cluster : Text) (first : Entry) (entries : List Entry) (s : State W)
      (answer : Result EpochInfo)
      → IsFetched (stats (first ∷ entries))
      → IsWholeCache s.cache
      → KeepsWhole (ended (select outside method cluster first entries s.cache (answer, s.world)))
  unfolding select select_min select_next
  select-Whole of_current cluster first entries s (err e) api whole = (tt, whole)
  select-Whole of_current cluster first entries s (ok info) api whole =
      accept_min-Whole cluster (min_entry info.epoch first entries) s.cache s.world
        (first ∷ entries, api, (min_entry-IsMinEntry info.epoch first entries).0) whole
  select-Whole of_next cluster first entries s (err e) api whole = (tt, whole)
  select-Whole of_next cluster first entries s (ok info) api whole =
      accept_next-Whole cluster (next_entry info.epoch first entries) s.cache s.world
        (first ∷ entries, api, (next_entry-IsNextEntry info.epoch first entries).0) whole

  look-Whole :
      (method : Method) (cluster : Text) (s : State W)
      → IsWholeCache s.cache
      → KeepsWhole (look outside method cluster s)
  unfolding look
  look-Whole method cluster s whole = elim (Bool-cases (check_cache outside s).0) [
    | inl fresh ↦ rw fresh (cached-IsWhole method cluster s.cache whole, whole)
    | inr old ↦ rw old (tt, whole)
  ]

  ask_epoch-Whole :
      (method : Method) (cluster : Text) (f : Fetched) (s : State W)
      → IsFetched f
      → IsWholeCache s.cache
      → KeepsWhole (ask_epoch outside method cluster f s)
  unfolding ask_epoch refresh refresh_min refresh_next
  ask_epoch-Whole of_current cluster (not_created e) s api whole = (tt, whole)
  ask_epoch-Whole of_current cluster (not_fetched e) s api whole = (tt, whole)
  ask_epoch-Whole of_current cluster (not_decoded e) s api whole = (tt, whole)
  ask_epoch-Whole of_current cluster (stats []) s api whole = (tt, whole)
  ask_epoch-Whole of_current cluster (stats (first ∷ entries)) s api whole = (api, whole)
  ask_epoch-Whole of_next cluster (not_created e) s api whole = (tt, whole)
  ask_epoch-Whole of_next cluster (not_fetched e) s api whole = (tt, whole)
  ask_epoch-Whole of_next cluster (not_decoded e) s api whole = (tt, whole)
  ask_epoch-Whole of_next cluster (stats []) s api whole = (tt, whole)
  ask_epoch-Whole of_next cluster (stats (first ∷ entries)) s api whole = (api, whole)

  next_step-Whole :
      (method : Method) (cluster : Text) (phase : Phase) (s : State W)
      → IsSound phase
      → IsWholeCache s.cache
      → KeepsWhole (next_step outside method cluster phase s)
  unfolding next_step
  next_step-Whole method cluster called s sound whole = look-Whole method cluster s whole
  next_step-Whole method cluster stale s sound whole = ((cluster, s.world, refl), whole)
  next_step-Whole method cluster (fetched f) s sound whole =
      ask_epoch-Whole method cluster f s sound whole
  next_step-Whole method cluster (told first entries answer) s sound whole =
      select-Whole method cluster first entries s answer sound whole
  next_step-Whole method cluster (answered r) s sound whole = (sound, whole)

  -- The cache and every call.
  abbrev pub IsWholeShared : Shared W → Type 0
  IsWholeShared s = IsWholeCache s.state.cache × All (λ c. IsSound c.phase) s.callers

  Step-Whole : {s t : Shared W} → Step outside s t → IsWholeShared s → IsWholeShared t
  Step-Whole {s = s} (pick before c after split) (whole, sound) =
      let (sound_before, (sound_c, sound_after)) =
        All-parts (λ c. IsSound c.phase) before (c ∷ after) (rw split at sound) in
      let (new_phase, new_cache) =
        next_step-Whole c.method c.cluster c.phase s.state sound_c whole in
      (new_cache, All-append (λ c. IsSound c.phase) before _ sound_before (new_phase, sound_after))
  Step-Whole (begin method cluster) (whole, sound) = (whole, (tt, sound))
  Step-Whole (elsewhere world) (whole, sound) = (whole, sound)

  Reach-Whole : {s t : Shared W} → Reach outside s t → IsWholeShared s → IsWholeShared t
  Reach-Whole start h = h
  Reach-Whole (later r step) h = Step-Whole step (Reach-Whole r h)

  new_cache-Whole : IsWholeCache new_cache
  unfolding cached
  new_cache-Whole = ((λ cluster. inl (refl, refl, refl)), λ cluster. inl (refl, refl, refl))

  -- From a new client, over calls of both methods for any clusters that begin at any time and whose steps
  -- interleave in any order, while anything happens outside: each answer without an error gives the
  -- version, the Firedancer version and the epoch of one and the same entry of one answer of the API, with
  -- a version that is not empty, or else the values of a cache that was never filled.
  pub Reach-IsSound :
      (world : W) (t : Shared W)
      → Reach outside
          (record { state = record { cache = new_cache; world = world }; callers = [] })
          t
      → All (λ c. IsSound c.phase) t.callers
  Reach-IsSound world t reach = (Reach-Whole reach (new_cache-Whole, tt)).1
