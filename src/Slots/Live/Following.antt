-- ===== src/Slots/Live/Following.antt =====
-- Many rounds of `WatchSlots` on a node that follows the chain.
use solana_exporter.Base.{ℕ, zero, suc, pos, ltb_ℤ, List, true, ◌≡◌, refl}
use solana_exporter.Exec.{Outcome, returned, stopped, proceed, ◌>>=◌}
use solana_exporter.Slots.State.{Call, System, Watcher, Env, Action}
use solana_exporter.Slots.Watching.{watch_round, watch_rounds, new_ticker, watch_slots}
use solana_exporter.Slots.Live.{Chain, IsAdjacent, IsSound}
use solana_exporter.Slots.Live.Rules.{Ends}
use solana_exporter.Slots.Live.Positions.{
  Position, moved_by, IsPosition, IsFollowing, moved_by-IsPosition, answer_in, position_after,
  IsPaced,
}
use solana_exporter.Slots.Live.Rounds.{watch_round-Ends}

-- The run returned, in a state in which `Q` holds of the watcher.
abbrev pub IsDone : {W : Type 0} → (Watcher → Type 0) → Outcome (Unit {0}) → System W → Type 0
IsDone Q o t = (o ≡ returned tt) × Q t.watcher

after_round :
    {W F : Type 0} (P Q : Watcher → Type 0) (t : System W) (es : List (Call F))
    (o : Outcome (Unit {0})) (k : Action W F (Unit {0}))
    → Ends P o t
    → (P t.watcher → IsDone Q (k t).result (k t).state)
    → IsDone Q (proceed o es t (λ _. k)).result (proceed o es t (λ _. k)).state
after_round P Q t es (returned a) k p h = h p
after_round P Q t es (stopped why) k p h = absurd p

module _ {W F : Type 0} (env : Env W F) (chain : Chain) (sound : IsSound env chain)
    (adjacent : IsAdjacent chain) where
  watch_rounds-IsDone :
      (rounds : ℕ) (position : Position) (s : System W)
      → IsPosition chain position
      → IsFollowing chain position s.watcher
      → IsPaced env chain rounds position s
      → let r = watch_rounds env rounds s in
        IsDone (IsFollowing chain (position_after env rounds position s)) r.result r.state
  unfolding watch_rounds ◌>>=◌
  watch_rounds-IsDone zero position s at follows paced = (refl, follows)
  watch_rounds-IsDone (suc rounds) position s at follows (next, paced) =
      let moved = moved_by (answer_in env s) position in
      let there = moved_by-IsPosition chain position (answer_in env s) adjacent at next in
      let final = IsFollowing chain (position_after env (suc rounds) position s) in
      after_round (IsFollowing chain moved) final (watch_round env s).state
        (watch_round env s).events (watch_round env s).result (watch_rounds env rounds)
        (watch_round-Ends env chain sound adjacent position s at next follows)
        (λ now. watch_rounds-IsDone rounds moved (watch_round env s).state there now paced)

  -- On a node whose answers agree with a chain in which each epoch begins right after the one before
  -- (`IsSound`, `IsAdjacent`), with a positive slot pace, from a watcher that is new or that has come to
  -- a slot of an epoch other than 0, over any number of rounds in each of which `getEpochInfo` gives an
  -- error or an answer that agrees with the chain and is of the epoch watched or of the next one:
  -- `WatchSlots` returns, without exiting the process or panicking; if there was an answer then the
  -- watcher watches the epoch of the last one, with its bounds, and its watermark is the furthest slot of
  -- an answer, or the one that it began with if that is further; if there was none it is where it was.
  pub watch_slots-IsDone :
      ltb_ℤ (pos 0) env.config.slot_pace ≡ true
      → (rounds : ℕ) (position : Position) (s : System W) → IsPosition chain position
      → IsFollowing chain position s.watcher
      → IsPaced env chain rounds position s
      → let r = watch_slots env rounds s in
        IsDone (IsFollowing chain (position_after env rounds position s)) r.result r.state
  unfolding watch_slots new_ticker ◌>>=◌
  watch_slots-IsDone ticks rounds position s at follows paced =
      rw ticks (watch_rounds-IsDone rounds position s at follows paced)
