-- ===== src/Api/Lookup.antt =====
-- Which entry of the stats an answer is taken from.
use solana_exporter.Base.{
  ℤ, pos, ◌+64◌, int_eqb, int_eqb_iff, Text, false, Bool-cases, List, [], ◌∷◌, Option, none, some,
  ◌≡◌, ◌≢◌, refl, arith, ◌⊎◌, inl, inr, In, All,
}
use solana_exporter.Rpc.Types.{Result, ok, err, EpochInfo, finalized}
use solana_exporter.Api.{
  Entry, stats, Outside, Cache, Required, State, find_entry, or_entry, min_entry, next_entry,
  check_cache, accept_min, select_min, refresh_min, get_min_required_version, accept_next,
  select_next, refresh_next, get_next_epoch_min_required_version,
}

abbrev pub Lacks : ℤ → List Entry → Type 0
Lacks e entries = All (λ entry. entry.entry_epoch ≢ e) entries

-- What `find_entry` finds.
abbrev FindsEntry : ℤ → List Entry → Option Entry → Type 0
FindsEntry e entries none = Lacks e entries
FindsEntry e entries (some entry) = In entry entries × (entry.entry_epoch ≡ e)

FindsEntry-cons :
    (e : ℤ) (x : Entry) (entries : List Entry) (o : Option Entry)
    → x.entry_epoch ≢ e
    → FindsEntry e entries o
    → FindsEntry e (x ∷ entries) o
FindsEntry-cons e x entries none ne h = (ne, h)
FindsEntry-cons e x entries (some entry) ne h = (inr h.0, h.1)

find_entry-FindsEntry : (e : ℤ) (entries : List Entry) → FindsEntry e entries (find_entry e entries)
unfolding find_entry
find_entry-FindsEntry e [] = tt
find_entry-FindsEntry e (x ∷ entries) = elim (Bool-cases (int_eqb x.entry_epoch e)) [
  | inl same ↦ rw same (inl refl, (int_eqb_iff x.entry_epoch e).0 same)
  | inr other ↦ rw other (
      FindsEntry-cons e x entries (find_entry e entries)
        (λ p. cc (other, (int_eqb_iff x.entry_epoch e).1 p)) (find_entry-FindsEntry e entries))
]

-- The entry of the current epoch if there is one, else the first.
abbrev pub IsMinEntry : ℤ → Entry → List Entry → Entry → Type 0
IsMinEntry current first entries entry =
    In entry (first ∷ entries)
    × ((entry.entry_epoch ≡ current) ⊎ Lacks current (first ∷ entries) × (entry ≡ first))

-- The entry of the next epoch if there is one, else as for the current epoch.
abbrev pub IsNextEntry : ℤ → Entry → List Entry → Entry → Type 0
IsNextEntry current first entries entry =
    In entry (first ∷ entries)
    × ((entry.entry_epoch ≡ current +64 pos 1)
        ⊎ Lacks (current +64 pos 1) (first ∷ entries) × IsMinEntry current first entries entry)

or_first :
    (current : ℤ) (first : Entry) (entries : List Entry) (o : Option Entry)
    → FindsEntry current (first ∷ entries) o
    → IsMinEntry current first entries (or_entry o first)
unfolding or_entry
or_first current first entries none h = (inl refl, inr (h, refl))
or_first current first entries (some entry) h = (h.0, inl h.1)

pub min_entry-IsMinEntry :
    (current : ℤ) (first : Entry) (entries : List Entry)
    → IsMinEntry current first entries (min_entry current first entries)
unfolding min_entry
min_entry-IsMinEntry current first entries =
    or_first current first entries (find_entry current (first ∷ entries))
      (find_entry-FindsEntry current (first ∷ entries))

or_current :
    (current : ℤ) (first entry : Entry) (entries : List Entry) (o : Option Entry)
    → FindsEntry (current +64 pos 1) (first ∷ entries) o
    → IsMinEntry current first entries entry
    → IsNextEntry current first entries (or_entry o entry)
unfolding or_entry
or_current current first entry entries none h m = (m.0, inr (h, m))
or_current current first entry entries (some found) h m = (h.0, inl h.1)

pub next_entry-IsNextEntry :
    (current : ℤ) (first : Entry) (entries : List Entry)
    → IsNextEntry current first entries (next_entry current first entries)
unfolding next_entry min_entry
next_entry-IsNextEntry current first entries =
    or_current current first (min_entry current first entries) entries
      (find_entry (current +64 pos 1) (first ∷ entries))
      (find_entry-FindsEntry (current +64 pos 1) (first ∷ entries))
      (min_entry-IsMinEntry current first entries)

-- An answer that gives an entry's values.
abbrev pub Gives : Entry → Required → Type 0
Gives entry r =
    (r.version ≡ entry.agave_min_version)
    × (r.firedancer ≡ entry.firedancer_min_version)
    × (r.for_epoch ≡ entry.entry_epoch)

-- What a successful answer of `GetMinRequiredVersion` is, given what the node said of its epoch.
abbrev pub MinAnswer : Entry → List Entry → Result EpochInfo → Required → Type 0
MinAnswer first entries (err e) r = ⊥
MinAnswer first entries (ok info) r =
    (entry : Entry) × IsMinEntry info.epoch first entries entry × Gives entry r × (r.version ≢ [])

abbrev pub NextAnswer : Entry → List Entry → Result EpochInfo → Required → Type 0
NextAnswer first entries (err e) r = ⊥
NextAnswer first entries (ok info) r =
    (entry : Entry) × IsNextEntry info.epoch first entries entry
    × Gives entry r
    × (r.version ≢ [])
    × (r.firedancer ≢ [])

module _ {W F : Type 0} (outside : Outside W F) where
  accept_min-Gives :
      (cluster : Text) (entry : Entry) (cache : Cache) (world : W) (r : Required)
      → (accept_min outside cluster entry cache world).0 ≡ ok r
      → Gives entry r × (r.version ≢ [])
  unfolding accept_min
  accept_min-Gives cluster entry cache world r h = ground arith

  accept_next-Gives :
      (cluster : Text) (entry : Entry) (cache : Cache) (world : W) (r : Required)
      → (accept_next outside cluster entry cache world).0 ≡ ok r
      → Gives entry r × (r.version ≢ []) × (r.firedancer ≢ [])
  unfolding accept_next
  accept_next-Gives cluster entry cache world r h = ground arith

  select_min-MinAnswer :
      (cluster : Text) (first : Entry) (entries : List Entry) (cache : Cache)
      (asked : Result EpochInfo × W) (r : Required)
      → (select_min outside cluster first entries cache asked).0 ≡ ok r
      → MinAnswer first entries asked.0 r
  unfolding select_min
  select_min-MinAnswer cluster first entries cache (err e, world) r h = cc
  select_min-MinAnswer cluster first entries cache (ok info, world) r h =
      let entry = min_entry info.epoch first entries in
      let given = accept_min-Gives cluster entry cache world r h in
      (entry, min_entry-IsMinEntry info.epoch first entries, given.0, given.1)

  select_next-NextAnswer :
      (cluster : Text) (first : Entry) (entries : List Entry) (cache : Cache)
      (asked : Result EpochInfo × W) (r : Required)
      → (select_next outside cluster first entries cache asked).0 ≡ ok r
      → NextAnswer first entries asked.0 r
  unfolding select_next
  select_next-NextAnswer cluster first entries cache (err e, world) r h = cc
  select_next-NextAnswer cluster first entries cache (ok info, world) r h =
      let entry = next_entry info.epoch first entries in
      let given = accept_next-Gives cluster entry cache world r h in
      (entry, next_entry-IsNextEntry info.epoch first entries, given.0, given.1, given.2)

  -- Where the cache is stale and the API answers with the entries `first ∷ entries`: if
  -- `GetMinRequiredVersion` succeeds then the node told its epoch, and the answer gives the values of
  -- one of the entries, that of the node's epoch if there is one and the first one if not; the version
  -- is not empty.
  pub get_min_required_version-MinAnswer :
      (cluster : Text) (first : Entry) (entries : List Entry) (s : State W) (r : Required)
      → let world = (check_cache outside s).1 in
        (check_cache outside s).0 ≡ false
        → (outside.fetch_stats cluster world).0 ≡ stats (first ∷ entries)
        → (get_min_required_version outside cluster s).0 ≡ ok r
        → MinAnswer first entries
            (outside.rpc_client.get_epoch_info finalized (outside.fetch_stats cluster world).1).0
            r
  unfolding get_min_required_version refresh_min
  get_min_required_version-MinAnswer cluster first entries s r stale fetched h =
      select_min-MinAnswer cluster first entries s.cache _ r
        (rw (fetched, refresh_min) at (rw stale at h))

  -- Where the cache is stale and the API answers with the entries `first ∷ entries`: if
  -- `GetNextEpochMinRequiredVersion` succeeds then the node told its epoch, and the answer gives the
  -- values of one of the entries, that of the epoch after the node's if there is one, else that of the
  -- node's epoch if there is one, else the first; neither version is empty.
  pub get_next_epoch_min_required_version-NextAnswer :
      (cluster : Text) (first : Entry) (entries : List Entry) (s : State W) (r : Required)
      → let world = (check_cache outside s).1 in
        (check_cache outside s).0 ≡ false
        → (outside.fetch_stats cluster world).0 ≡ stats (first ∷ entries)
        → (get_next_epoch_min_required_version outside cluster s).0 ≡ ok r
        → NextAnswer first entries
            (outside.rpc_client.get_epoch_info finalized (outside.fetch_stats cluster world).1).0
            r
  unfolding get_next_epoch_min_required_version refresh_next
  get_next_epoch_min_required_version-NextAnswer cluster first entries s r stale fetched h =
      select_next-NextAnswer cluster first entries s.cache _ r
        (rw (fetched, refresh_next) at (rw stale at h))
