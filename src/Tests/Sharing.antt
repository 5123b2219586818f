-- ===== src/Tests/Sharing.antt =====
-- Two calls of the API client that interleave on the test node.
use solana_exporter.Base.{ℕ, codes, All, [], ◌∷◌, refl}
use solana_exporter.Api.{State, new_cache}
use solana_exporter.Api.Sharing.{
  of_current, of_next, called, Caller, Shared, caller_after, state_after, pick, begin, Reach, start,
  later,
}
use solana_exporter.Api.Sharing.Whole.{IsSound, Reach-IsSound}
use solana_exporter.Tests.{outside}

abbrev new : State ℕ
new = record { cache = new_cache; world = 0 }

abbrev two : Caller → Caller → State ℕ → Shared ℕ
two c d s = record { state = s; callers = c ∷ d ∷ [] }

abbrev empty : Shared ℕ
empty = record { state = new; callers = [] }

abbrev current_call : Caller
current_call = record { method = of_current; cluster = codes "testnet"; phase = called }

abbrev next_call : Caller
next_call = record { method = of_next; cluster = codes "testnet"; phase = called }

-- Each call makes a step, the first one first.
abbrev both_step : Caller × Caller × State ℕ → Caller × Caller × State ℕ
both_step (c, d, s) =
    let s' = state_after outside c s in
    (caller_after outside c s, caller_after outside d s', state_after outside d s')

abbrev shared : Caller × Caller × State ℕ → Shared ℕ
shared (c, d, s) = two c d s

both_step-Reach :
    (x : Caller × Caller × State ℕ)
    → Reach outside empty (shared x)
    → Reach outside empty (shared (both_step x))
both_step-Reach (c, d, s) r = later (later r (pick [] c (d ∷ []) refl)) (pick (_ ∷ []) d [] refl)

-- Both find the cache stale, and both refresh it.
abbrev after_four : Caller × Caller × State ℕ
after_four = both_step (both_step (both_step (both_step (current_call, next_call, new))))

after_four-Reach : Reach outside empty (shared after_four)
after_four-Reach = both_step-Reach _ (
    both_step-Reach _ (
      both_step-Reach _ (
        both_step-Reach (current_call, next_call, new)
          (later (later start (begin of_next (codes "testnet")))
            (begin of_current (codes "testnet"))))))

Reach-IsSound_example : All (λ c. IsSound outside c.phase) (shared after_four).callers
Reach-IsSound_example = Reach-IsSound outside 0 (shared after_four) after_four-Reach
