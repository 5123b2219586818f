-- ===== src/Tests/Scrapes.antt =====
-- The collector and the API client on the test node.
use solana_exporter.Base.{
  ℕ, ℤ, pos, negsuc, ◌-ℤ◌, ◌+64◌, split, atoi, false, true, some, codes, All, [], ◌∷◌, ◌≡◌, refl,
  ap, ◌⊎◌,
}
use solana_exporter.Exec.{returned}
use solana_exporter.Rpc.Types.{ok, err, errorf, wrap}
use solana_exporter.Api.{
  Outside, State, new_cache, not_fetched, get_min_required_version,
  get_next_epoch_min_required_version, Required, check_cache, min_entry, next_entry,
}
use solana_exporter.Api.Caching.{next-after_min, min-after_min, min_error_keeps_cache}
use solana_exporter.Api.Lookup.{
  MinAnswer, NextAnswer, get_min_required_version-MinAnswer,
  get_next_epoch_min_required_version-NextAnswer,
}
use solana_exporter.Collector.Desc.{Env, Scrape}
use solana_exporter.Collector.Collecting.{collect}
use solana_exporter.Exec.Done.{done}
use solana_exporter.Collector.Votes.{collect_vote_accounts}
use solana_exporter.Collector.Accounts.{vote_metrics, collect_vote_accounts-vote_metrics}
use solana_exporter.Collector.Sent.{IsLabelled}
use solana_exporter.Collector.Labels.{collect-IsLabelled}
use solana_exporter.Collector.Versions.{compare_versions}
use solana_exporter.Collector.Versions.Order.{numbers, IsLess, compare_versions_lem}
use solana_exporter.Tests.{
  accounts, ints, outside, config, first_entry, second_entry, epoch_info_at, node,
}

abbrev env : Env ℕ ℤ
env = record { outside = outside; float = ints; config = config }

abbrev pub scrape : Scrape ℕ
scrape = record { is_firedancer = false; cache = new_cache; world = 0 }

collect-IsLabelled_example :
    ((a : Unit {0}) × ((collect env scrape).result ≡ returned a))
    × All IsLabelled (collect env scrape).events
collect-IsLabelled_example = collect-IsLabelled env scrape

-- A client that has not asked yet, and the client after it asked for the current version.
abbrev stale : State ℕ
stale = record { cache = new_cache; world = 0 }

abbrev fresh : State ℕ
fresh = record {
  cache = record new_cache {
    agave_version = codes "2.0.1";
    firedancer_version = codes "0.1";
    epoch = pos 1;
    last_check = some (pos 5);
  };
  world = 1;
}

abbrev current : Required
current = record {
  version = codes "2.0.1";
  cluster = codes "testnet";
  for_epoch = pos 1;
  firedancer = codes "0.1";
}

stale_lem : (check_cache outside stale).0 ≡ false
unfolding check_cache
stale_lem = refl

asked : get_min_required_version outside (codes "testnet") stale ≡ (ok current, fresh)
unfolding get_min_required_version min_entry
asked = refl

-- Its cache is fresh: the clock has not moved.
fresh_lem : (check_cache outside fresh).0 ≡ true
unfolding check_cache ◌-ℤ◌
fresh_lem = refl

next-after_min_example : get_next_epoch_min_required_version outside (codes "testnet") fresh ≡ (
  ok (record { version = []; cluster = codes "testnet"; for_epoch = pos 0; firedancer = [] }),
  record { cache = fresh.cache; world = (check_cache outside fresh).1 },
)
next-after_min_example =
    next-after_min outside (codes "testnet") (codes "testnet") stale fresh current stale_lem asked
      fresh_lem

min-after_min_example :
    get_min_required_version outside (codes "testnet") fresh
    ≡ (ok current, record { cache = fresh.cache; world = (check_cache outside fresh).1 })
min-after_min_example =
    min-after_min outside (codes "testnet") stale fresh current stale_lem asked fresh_lem

-- An API that cannot be reached.
abbrev unreachable : Outside ℕ ℤ
unreachable = record {
  rpc_client = node;
  fetch_stats = λ cluster t. (not_fetched (errorf (codes "timeout")), t);
  now = λ t. (pos 5, t);
}

not_asked :
    get_min_required_version unreachable (codes "testnet") stale
    ≡ (err (wrap (codes "failed to fetch min required version") (errorf (codes "timeout"))), stale)
unfolding get_min_required_version
not_asked = refl

min_error_keeps_cache_example : stale.cache ≡ new_cache
min_error_keeps_cache_example =
    min_error_keeps_cache unreachable (codes "testnet") stale stale
      (wrap (codes "failed to fetch min required version") (errorf (codes "timeout"))) not_asked

answered : (get_min_required_version outside (codes "testnet") stale).0 ≡ ok current
answered = ap (λ p. p.0) asked

get_min_required_version-MinAnswer_example :
    MinAnswer first_entry (second_entry ∷ []) (ok (epoch_info_at 0)) current
unfolding check_cache
get_min_required_version-MinAnswer_example =
    get_min_required_version-MinAnswer outside (codes "testnet") first_entry (second_entry ∷ [])
      stale current stale_lem refl answered

abbrev next : Required
next = record {
  version = codes "2.2.0";
  cluster = codes "testnet";
  for_epoch = pos 2;
  firedancer = codes "0.2";
}

next_answered : (get_next_epoch_min_required_version outside (codes "testnet") stale).0 ≡ ok next
unfolding get_next_epoch_min_required_version next_entry ◌+64◌
next_answered = refl

get_next_epoch_min_required_version-NextAnswer_example :
    NextAnswer first_entry (second_entry ∷ []) (ok (epoch_info_at 0)) next
unfolding check_cache
get_next_epoch_min_required_version-NextAnswer_example =
    get_next_epoch_min_required_version-NextAnswer outside (codes "testnet") first_entry
      (second_entry ∷ []) stale next stale_lem refl next_answered

compare_versions_lem_example :
    (compare_versions (codes "1.18.9") (codes "1.18.23") ≡ negsuc 0)
      × IsLess (numbers (codes "1.18.9")) (numbers (codes "1.18.23"))
    ⊎ (compare_versions (codes "1.18.9") (codes "1.18.23") ≡ pos 1)
      × IsLess (numbers (codes "1.18.23")) (numbers (codes "1.18.9"))
    ⊎ (compare_versions (codes "1.18.9") (codes "1.18.23") ≡ pos 0)
      × ((i : ℕ) → numbers (codes "1.18.9") i ≡ numbers (codes "1.18.23") i)
compare_versions_lem_example = compare_versions_lem (codes "1.18.9") (codes "1.18.23")

below : compare_versions (codes "1.9") (codes "1.10") ≡ negsuc 0
unfolding compare_versions split atoi
below = refl

-- A missing part reads as 0.
padded : compare_versions (codes "2.0") (codes "2.0.0") ≡ pos 0
unfolding compare_versions split atoi
padded = refl

collect_vote_accounts-vote_metrics_example :
    collect_vote_accounts env scrape ≡ done tt (vote_metrics env accounts) scrape
collect_vote_accounts-vote_metrics_example =
    collect_vote_accounts-vote_metrics env accounts scrape refl refl
