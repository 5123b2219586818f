-- ===== src/Slots/Rounds.antt =====
-- Rounds of `WatchSlots`: the block production asked for over any number of rounds.
use solana_exporter.Base.{ℕ, zero, suc, ℤ, pos, ◌+ℤ◌, ltb_ℤ, false, ◌≡◌, refl, List}
use solana_exporter.Exec.{Outcome, returned, stopped, panic, ◌>>=◌}
use solana_exporter.Exec.Logic.{Post}
use solana_exporter.Rpc.Types.{Result, ok, err, finalized, EpochInfo}
use solana_exporter.Slots.State.{Call, System, Env, ask}
use solana_exporter.Slots.Requests.{
  requests, IsChain, chain_end, is_in, times_asked, once_if, times_asked-IsChain,
}
use solana_exporter.Slots.Quiet.{quiet_rules, IsQuiet}
use solana_exporter.Slots.Watching.{
  watch_epoch, watch_answer, watch_round, watch_slots, watch_rounds, new_ticker, emit_heights,
}
use solana_exporter.Slots.Advances.{
  IsTracking, Advances, then-Advances, Advances-map, pure-Advances, read-Advances, IsQuiet-Advances,
  Follows, FollowsSoFar, Advances-at, stop-Advances, if-Advances,
}
use solana_exporter.Slots.Advances.Epochs.{
  IsInside, SamePosition-IsTracking, started_epoch, advance-Advances,
}

-- The answers of the node to `getEpochInfo`, in any world, are slots of their epochs.
pub record IsInsideNode {W F : Type 0} (env : Env W F) : Type 0 where
  pub slots :
      (world : W) (info : EpochInfo)
      → (env.client.get_epoch_info finalized world).0 ≡ ok info
      → IsInside info

module _ {W F : Type 0} (env : Env W F) (light : env.config.light_mode ≡ false) where
  emit_heights-IsQuiet : (info : EpochInfo) → IsQuiet (emit_heights env info)
  unfolding emit_heights
  emit_heights-IsQuiet info = search quiet_rules depth 12

  watch_epoch-Advances :
      (info : EpochInfo) → IsInside info → Advances IsTracking IsTracking (watch_epoch env info)
  unfolding watch_epoch
  watch_epoch-Advances info inside = read-Advances IsTracking IsTracking _ λ w known.
      rw (started_epoch w known) (
        Advances-map (λ v. IsTracking v × (v ≡ w)) IsTracking IsTracking IsTracking _ (λ v p. p.0)
          (λ v p. p)
          (then-Advances IsTracking IsTracking IsTracking _ _ (pure-Advances IsTracking tt) λ _.
            then-Advances IsTracking IsTracking IsTracking _ _
              (IsQuiet-Advances IsTracking _ SamePosition-IsTracking (emit_heights-IsQuiet info))
              λ _. advance-Advances env info inside light))

  watch_answer-Advances :
      (answer : Result EpochInfo)
      → ((info : EpochInfo) → answer ≡ ok info → IsInside info)
      → Advances IsTracking IsTracking (watch_answer env answer)
  unfolding watch_answer
  watch_answer-Advances (err e) h = pure-Advances IsTracking tt
  watch_answer-Advances (ok info) h = watch_epoch-Advances info (h info refl)

module _ {W F : Type 0} (env : Env W F) (light : env.config.light_mode ≡ false)
    (inside : IsInsideNode env) where
  watch_round-Advances : Advances IsTracking IsTracking (watch_round env)
  unfolding watch_round ask ◌>>=◌
  watch_round-Advances = record {
    at = λ s.
        let answer = env.client.get_epoch_info finalized s.world in
        (watch_answer-Advances env light answer.0 (λ info e. inside.slots s.world info e)).at
          (record s { world = answer.1 });
  }

  watch_rounds-Advances : (rounds : ℕ) → Advances IsTracking IsTracking (watch_rounds env rounds)
  unfolding watch_rounds
  watch_rounds-Advances zero = pure-Advances IsTracking tt
  watch_rounds-Advances (suc rounds) =
      then-Advances IsTracking IsTracking IsTracking _ _ watch_round-Advances
        λ _. watch_rounds-Advances rounds

  new_ticker-Advances : Advances IsTracking IsTracking (new_ticker env)
  unfolding new_ticker
  new_ticker-Advances =
      if-Advances IsTracking IsTracking (ltb_ℤ (pos 0) env.config.slot_pace) _ _
        (λ ticks. pure-Advances IsTracking tt) λ still. stop-Advances IsTracking IsTracking panic

  watch_slots-Advances : (rounds : ℕ) → Advances IsTracking IsTracking (watch_slots env rounds)
  unfolding watch_slots
  watch_slots-Advances rounds =
      then-Advances IsTracking IsTracking IsTracking _ _ new_ticker-Advances
        λ _. watch_rounds-Advances rounds

-- What holds of a run if it returned.
abbrev pub OnReturn : Outcome (Unit {0}) → Type 0 → Type 0
OnReturn (returned a) P = P
OnReturn (stopped why) P = Unit

-- What a run of rounds asked for, and where the watermark is if it returned.
abbrev pub AsksOnce : ℤ → List (ℤ × ℤ) → Outcome (Unit {0}) → ℤ → Type 0
AsksOnce mark ranges o watermark =
    IsChain mark ranges
    × ((slot : ℤ)
        → times_asked slot ranges ≡ once_if (is_in slot (mark +ℤ pos 1) (chain_end mark ranges)))
    × OnReturn o (chain_end mark ranges ≡ watermark)

AsksOnce-of_Post :
    {W F : Type 0} (s t : System W) (es : List (Call F)) (o : Outcome (Unit {0}))
    → Post (Follows IsTracking) FollowsSoFar s o es t
    → AsksOnce s.watcher.slot_watermark (requests es) o t.watcher.slot_watermark
AsksOnce-of_Post s t es (returned a) (there, chain, end) =
    (chain, (λ slot. times_asked-IsChain slot s.watcher.slot_watermark (requests es) chain), end)
AsksOnce-of_Post s t es (stopped why) chain =
    (chain, (λ slot. times_asked-IsChain slot s.watcher.slot_watermark (requests es) chain), tt)

-- Out of light mode, on a node whose answers to `getEpochInfo` are slots of their epochs with numbers
-- that fit, from a watcher that watches an epoch other than 0 whose last slot is below 2^63 - 1, with a
-- watermark from -1 to that slot: over any number of rounds of `WatchSlots`, also ones that stop the
-- process, the closing of an epoch included, each slot range for which block production is asked begins
-- one slot after the end of the one before it, the first one after the watermark, and none ends before
-- the one before it; each slot after the watermark, up to the end of the last range, is in exactly one
-- of them and no other slot is in any; if it returns, the last range ends at the new watermark.
pub watch_slots-IsChain :
    {W F : Type 0} (env : Env W F) (rounds : ℕ) (s : System W)
    → env.config.light_mode ≡ false
    → IsInsideNode env
    → IsTracking s.watcher
    → let r = watch_slots env rounds s in
      AsksOnce s.watcher.slot_watermark (requests r.events) r.result r.state.watcher.slot_watermark
watch_slots-IsChain env rounds s light inside tracking = AsksOnce-of_Post s _ _ _ (
    Advances-at IsTracking IsTracking (watch_slots env rounds)
      (watch_slots-Advances env light inside rounds) s tracking)
