-- ===== src/Api/Sharing.antt =====
-- Calls of the API client that run at the same time, pkg/api/client.go: they share the cache, and a step of
-- one is a section under the lock or a request made without it.
pub mod Whole
use solana_exporter.Base.{Text, List, [], ◌∷◌, ◌++◌, ◌≡◌, if◌then◌else◌}
use solana_exporter.Rpc.Types.{Result, ok, err, EpochInfo, finalized}
use solana_exporter.Api.{
  Entry, Fetched, stats, Outside, Cache, Required, State, Answer, check_cache, cached_min,
  cached_next, select_min, select_next, refresh_min, refresh_next, get_min_required_version,
  get_next_epoch_min_required_version,
}

-- `GetMinRequiredVersion` or `GetNextEpochMinRequiredVersion`
pub data Method : Type 0 where
  of_current of_next : Method

-- Where a call is: before it looked at the cache, after it found the cache stale, after the stats came, after
-- the node's epoch came, and at its end.
pub data Phase : Type 0 where
  called stale : Phase
  fetched : Fetched → Phase
  told : Entry → List Entry → Result EpochInfo → Phase
  answered : Result Required → Phase

module _ {W F : Type 0} (outside : Outside W F) where
  unfoldable pub cached : Method → Text → Cache → Required
  unfolding cached_min cached_next
  cached of_current = cached_min outside
  cached of_next = cached_next outside

  unfoldable pub select :
      Method → Text → Entry → List Entry → Cache → Result EpochInfo × W → Answer W
  unfolding select_min select_next
  select of_current = select_min outside
  select of_next = select_next outside

  unfoldable pub refresh : Method → Text → Cache → Fetched × W → Answer W
  unfolding refresh_min refresh_next
  refresh of_current = refresh_min outside
  refresh of_next = refresh_next outside

  -- The section under the read lock.
  unfoldable pub look : Method → Text → State W → Phase × State W
  unfolding cached check_cache
  look method cluster s =
      let (fresh, world) = check_cache outside s in
      if fresh
      then (answered (ok (cached method cluster s.cache)), record s { world = world })
      else (stale, record s { world = world })

  -- After the stats: an error is the answer, else the node is asked for its epoch.
  unfoldable pub ask_epoch : Method → Text → Fetched → State W → Phase × State W
  unfolding refresh
  ask_epoch method cluster (stats (first ∷ entries)) s =
      let answer = outside.rpc_client.get_epoch_info finalized s.world in
      (told first entries answer.0, record s { world = answer.1 })
  ask_epoch method cluster failed s =
      (answered (refresh method cluster s.cache (failed, s.world)).0, s)

  -- The next step of a call. The last one chooses an entry and updates the cache under the write lock, from
  -- the cache as it is then.
  unfoldable pub next_step : Method → Text → Phase → State W → Phase × State W
  unfolding look ask_epoch select
  next_step method cluster called s = look method cluster s
  next_step method cluster stale s =
      let answer = outside.fetch_stats cluster s.world in
      (fetched answer.0, record s { world = answer.1 })
  next_step method cluster (fetched f) s = ask_epoch method cluster f s
  next_step method cluster (told first entries answer) s =
      let chosen = select method cluster first entries s.cache (answer, s.world) in
      (answered chosen.0, chosen.1)
  next_step method cluster (answered r) s = (answered r, s)

pub record Caller : Type 0 where
  pub method : Method
  pub cluster : Text
  pub phase : Phase

pub record Shared (W : Type 0) : Type 0 where
  pub state : State W
  pub callers : List Caller

module _ {W F : Type 0} (outside : Outside W F) where
  abbrev pub caller_after : Caller → State W → Caller
  caller_after c s = record c { phase = (next_step outside c.method c.cluster c.phase s).0 }

  abbrev pub state_after : Caller → State W → State W
  state_after c s = (next_step outside c.method c.cluster c.phase s).1

  -- Some call makes a step, a new call begins, or something happens outside.
  pub data Step (s : Shared W) : Shared W → Type 0 where
    pick :
        (before : List Caller) (c : Caller) (after : List Caller)
        → s.callers ≡ before ++ c ∷ after
        → Step s (record {
          state = state_after c s.state;
          callers = before ++ caller_after c s.state ∷ after;
        })
    begin :
        (method : Method) (cluster : Text)
        → Step s (record s {
          callers = record { method = method; cluster = cluster; phase = called } ∷ s.callers;
        })
    elsewhere : (world : W) → Step s (record s { state = record s.state { world = world } })

  pub data Reach (s : Shared W) : Shared W → Type 0 where
    start : Reach s s
    later : {t u : Shared W} → Reach s t → Step t u → Reach s u
