-- ===== src/Slots/Watermark.antt =====
-- The watermark over rounds: which block production is asked for, and in which order.
use solana_exporter.Base.{
  ℤ, pos, ◌+64◌, true, false, Bool-cases, ◌≡◌, refl, arith, List, [], ◌∷◌, ◌++◌, inl, inr, ◌⊎◌,
}
use solana_exporter.Exec.{Outcome, returned, stopped, proceed, ◌>>=◌, ◌>>◌}
use solana_exporter.Exec.Logic.{Post}
use solana_exporter.Rpc.Types.{finalized}
use solana_exporter.Slots.State.{Call, get_block_production, System, Env, Action, ask, update}
use solana_exporter.Slots.Requests.{requests, requests-append}
use solana_exporter.Slots.Production.{check_valid_slot_range, fetch_and_emit_block_production}
use solana_exporter.Slots.Infos.{fetch_and_emit_block_infos}
use solana_exporter.Slots.Quiet.{
  Quiet, SamePosition, emit_block_production-IsQuiet, fetch_and_emit_block_infos-IsQuiet,
}
use solana_exporter.Slots.Watching.{move_slot_watermark}

module _ {W F : Type 0} where
  -- One request was made, and the position is the same.
  abbrev pub HasAsked : ℤ → ℤ → System W → List (Call F) → System W → Type 0
  HasAsked from to s es t =
      (check_valid_slot_range from to s.watcher ≡ true)
      × (requests es ≡ (from, to) ∷ [])
      × SamePosition s.watcher t.watcher

  abbrev pub NotAsked : ℤ → ℤ → System W → List (Call F) → System W → Type 0
  NotAsked from to s es t = ((requests es ≡ []) ⊎ (requests es ≡ (from, to) ∷ []))

  asked-then-Quiet :
      {A : Type 0} (from to : ℤ) (s t u : System W) (o : Outcome A) (es : List (Call F))
      → check_valid_slot_range from to s.watcher ≡ true
      → t.watcher ≡ s.watcher
      → Post Quiet Quiet t o es u
      → Post (HasAsked from to) (NotAsked from to) s o (get_block_production from to ∷ es) u
  asked-then-Quiet from to s t u (returned a) es valid same q = ground arith
  asked-then-Quiet from to s t u (stopped why) es valid same q = inr (ground arith)

  -- The watermark was set to `to`; nothing was asked for.
  abbrev pub HasMoved : ℤ → System W → List (Call F) → System W → Type 0
  HasMoved to s es t =
      (requests es ≡ [])
      × (t.watcher.current_epoch ≡ s.watcher.current_epoch)
      × (t.watcher.first_slot ≡ s.watcher.first_slot)
      × (t.watcher.last_slot ≡ s.watcher.last_slot)
      × (t.watcher.slot_watermark ≡ to)

  abbrev set_watermark : ℤ → Action W F (Unit {0})
  set_watermark to = update (λ w. record w { slot_watermark = to })

  Quiet-then-moved :
      (to : ℤ) (s t : System W) (es : List (Call F)) (o : Outcome (Unit {0}))
      → Post Quiet Quiet s o es t
      → let r = proceed o es t (λ _. set_watermark to) in
        Post (HasMoved to) Quiet s r.result r.events r.state
  unfolding update
  Quiet-then-moved to s t es (returned a) q = ground (arith, requests-append es [])
  Quiet-then-moved to s t es (stopped why) q = q

  -- A move asks for the range from the watermark to `to`, and ends with the watermark there.
  abbrev pub MovesTo : ℤ → System W → List (Call F) → System W → Type 0
  MovesTo to s es t =
      (check_valid_slot_range (s.watcher.slot_watermark +64 pos 1) to s.watcher ≡ true)
      × (requests es ≡ (s.watcher.slot_watermark +64 pos 1, to) ∷ [])
      × (t.watcher.current_epoch ≡ s.watcher.current_epoch)
      × (t.watcher.first_slot ≡ s.watcher.first_slot)
      × (t.watcher.last_slot ≡ s.watcher.last_slot)
      × (t.watcher.slot_watermark ≡ to)

  asked-and-moved :
      (to : ℤ) (s t u : System W) (es fs : List (Call F)) (o : Outcome (Unit {0}))
      → let from = s.watcher.slot_watermark +64 pos 1 in
        HasAsked from to s es t
        → Post (HasMoved to) Quiet t o fs u
        → Post (MovesTo to) (NotAsked from to) s o (es ++ fs) u
  asked-and-moved to s t u es fs (returned a) p q = ground (arith, requests-append es fs)
  asked-and-moved to s t u es fs (stopped why) p q = inr (ground (arith, requests-append es fs))

  asked-then-moved :
      {A : Type 0} (to : ℤ) (s t : System W) (es : List (Call F)) (o : Outcome A)
      (k : Action W F (Unit {0}))
      → let from = s.watcher.slot_watermark +64 pos 1 in
        Post (HasAsked from to) (NotAsked from to) s o es t
        → Post (HasMoved to) Quiet t (k t).result (k t).events (k t).state
        → let r = proceed o es t (λ _. k) in
          Post (MovesTo to) (NotAsked from to) s r.result r.events r.state
  asked-then-moved to s t es (returned a) k p q =
      asked-and-moved to s t (k t).state es (k t).events (k t).result p q
  asked-then-moved to s t es (stopped why) k p q = p

module _ {W F : Type 0} (env : Env W F) where
  production-HasAsked :
      (from to : ℤ) (s : System W)
      → env.config.light_mode ≡ false
      → let r = fetch_and_emit_block_production env from to s in
        Post (HasAsked from to) (NotAsked from to) s r.result r.events r.state
  unfolding fetch_and_emit_block_production ◌>>=◌ ask
  production-HasAsked from to s h = elim (Bool-cases (check_valid_slot_range from to s.watcher)) [
    | inl valid ↦
        let answer = env.client.get_block_production finalized from to s.world in
        rw (h, valid)
          (asked-then-Quiet from to s (record s { world = answer.1 }) _ _ _ valid refl
            ((emit_block_production-IsQuiet env s.watcher.current_epoch answer.0).at
              (record s { world = answer.1 })))
    | inr invalid ↦ rw (h, invalid) (inl refl)
  ]

  infos-HasMoved :
      (from to : ℤ) (s : System W)
      → let r = (fetch_and_emit_block_infos env from to >> set_watermark to) s in
        Post (HasMoved to) Quiet s r.result r.events r.state
  unfolding ◌>>=◌
  infos-HasMoved from to s =
      Quiet-then-moved to s _ _ _ ((fetch_and_emit_block_infos-IsQuiet env from to).at s)

  -- Out of light mode: if `moveSlotWatermark` returns then the slots from the one after the watermark to
  -- `to` lie in the epoch that is watched, their block production was asked for with exactly one request,
  -- the epoch and its bounds are unchanged and the watermark is `to`; if it stops the process, then at
  -- most that request was made.
  pub move_slot_watermark-MovesTo :
      (to : ℤ) (s : System W)
      → env.config.light_mode ≡ false
      → let r = move_slot_watermark env to s in
        Post
          (MovesTo to)
          (NotAsked (s.watcher.slot_watermark +64 pos 1) to)
          s
          r.result
          r.events
          r.state
  unfolding move_slot_watermark ◌>>=◌
  move_slot_watermark-MovesTo to s h =
      let from = s.watcher.slot_watermark +64 pos 1 in
      asked-then-moved to s _ _ _ (fetch_and_emit_block_infos env from to >> set_watermark to)
        (production-HasAsked from to s h) (infos-HasMoved from to _)
