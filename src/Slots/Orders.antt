-- ===== src/Slots/Orders.antt =====
-- The loop over the block production of the hosts goes over a Go map, whose order is not known: its runs
-- on two orders of the same entries.
use mathlib.Core.List.Perm
use solana_exporter.Base.{
  text_eq, ℤ, In, In-Perm, format_int, ◌-64◌, Text, Bool, Bool-cases, true, false, not, ◌&&◌, List,
  [], ◌∷◌, ◌++◌, append_assoc, append-nil, Map, Perm, gather, every, gather-Perm, every-Perm,
  if◌then◌else◌, ◌≡◌, refl, sym, ap, ◌∙◌, arith, inl, inr,
}
use solana_exporter.Exec.{Ran, returned, ◌>>=◌}
use solana_exporter.Exec.Done.{done, then-done}
use solana_exporter.Rpc.Types.{HostProduction, BlockProduction, ok}
use solana_exporter.Utils.Tracker.{add_tracked_nodekeys}
use solana_exporter.Utils.Tracker.Taken.{tracked, tracked-add_tracked_nodekeys}
use solana_exporter.Slots.State.{
  update, leader_slots, leader_slots_by_epoch, cluster_slots_by_epoch, Call, add_counter, System,
  Env, add_to_counter,
}
use solana_exporter.Slots.Production.{
  status_valid, status_skipped, is_tracked, emit_by_epoch, emit_host, emit_hosts,
  emit_block_production,
}

abbrev Host : Type 0
Host = Text × HostProduction

module _ {W F : Type 0} (env : Env W F) where
  abbrev produced : HostProduction → F
  produced p = env.float.of_int p.blocks_produced

  abbrev skipped : HostProduction → F
  skipped p = env.float.of_int (p.leader_slots -64 p.blocks_produced)

  -- Neither number of a host is negative, so that the counters take them.
  abbrev pub is_countable : Host → Bool
  is_countable (address, p) =
      not (env.float.is_negative (produced p)) && not (env.float.is_negative (skipped p))

  abbrev epoch_calls : Text → Host → List (Call F)
  epoch_calls epoch_str (address, p) =
      if is_tracked env.config address
      then add_counter leader_slots_by_epoch (address ∷ epoch_str ∷ status_valid ∷ []) (produced p)
        ∷ add_counter leader_slots_by_epoch (address ∷ epoch_str ∷ status_skipped ∷ []) (skipped p)
        ∷ []
      else []

  abbrev host_calls : Text → Host → List (Call F)
  host_calls epoch_str (address, p) =
      add_counter leader_slots (address ∷ status_valid ∷ []) (produced p)
      ∷ add_counter leader_slots (address ∷ status_skipped ∷ []) (skipped p)
      ∷ (epoch_calls epoch_str (address, p)
          ++ add_counter cluster_slots_by_epoch (epoch_str ∷ status_valid ∷ []) (produced p)
            ∷ add_counter cluster_slots_by_epoch (epoch_str ∷ status_skipped ∷ []) (skipped p)
            ∷ [])

  abbrev tracked_key : Host → List Text
  tracked_key (address, p) = if is_tracked env.config address then address ∷ [] else []

  emit_host-done :
      (epoch_str : Text) (host : Host) (s : System W)
      → is_countable host ≡ true
      → emit_host env epoch_str host.0 host.1 s ≡ done tt (host_calls epoch_str host) s
  unfolding emit_host emit_by_epoch add_to_counter ◌>>=◌
  emit_host-done epoch_str (address, p) s h =
      let some_produced : env.float.is_negative (produced p) ≡ false = ground arith in
      let some_skipped : env.float.is_negative (skipped p) ≡ false = ground arith in
      elim (Bool-cases (is_tracked env.config address)) [
        | inl told ↦ rw (told, some_produced, some_skipped) refl
        | inr untold ↦ rw (untold, some_produced, some_skipped) refl
      ]

  abbrev keys_then : Host → List Text → List Text
  keys_then host keys = if is_tracked env.config host.0 then keys ++ host.0 ∷ [] else keys

  keys_then_lem :
      (host : Host) (keys more : List Text)
      → keys_then host keys ++ more ≡ keys ++ (tracked_key host ++ more)
  keys_then_lem (address, p) keys more = elim (Bool-cases (is_tracked env.config address)) [
    | inl told ↦ rw told (append_assoc keys (address ∷ []) more)
    | inr untold ↦ rw untold refl
  ]

  emit_hosts-done :
      (epoch_str : Text) (hosts : Map Text HostProduction) (keys : List Text) (s : System W)
      → every is_countable hosts ≡ true
      → emit_hosts env epoch_str hosts keys s
        ≡ done (keys ++ gather tracked_key hosts) (gather (host_calls epoch_str) hosts) s
  unfolding emit_hosts ◌>>=◌
  emit_hosts-done epoch_str [] keys s h = ap (λ ks. done ks [] s) (sym (append-nil keys))
  emit_hosts-done epoch_str ((address, p) ∷ hosts) keys s h =
      let host : Host = (address, p) in
      let first : is_countable host ≡ true = ground arith in
      let rest : every is_countable hosts ≡ true = ground arith in
      let next = keys_then host keys in
      then-done (emit_host env epoch_str address p) (λ _. emit_hosts env epoch_str hosts next) s s s
        tt _ _ _ (emit_host-done epoch_str host s first)
        (emit_hosts-done epoch_str hosts next s rest)
      ∙ ap (λ ks. done ks (gather (host_calls epoch_str) (host ∷ hosts)) s)
          (keys_then_lem host keys (gather tracked_key hosts))

  -- The state after the production was emitted.
  abbrev with_tracked : ℤ → Map Text HostProduction → System W → System W
  with_tracked epoch hosts s = record s {
    watcher = record s.watcher {
      nodekey_tracker =
          add_tracked_nodekeys epoch (gather tracked_key hosts) s.watcher.nodekey_tracker;
    };
  }

  emit_block_production-done :
      (epoch : ℤ) (production : BlockProduction) (s : System W)
      → every is_countable production.by_identity ≡ true
      → emit_block_production env epoch (ok production) s
        ≡ done tt
            (gather (host_calls (format_int epoch)) production.by_identity ++ [])
            (with_tracked epoch production.by_identity s)
  unfolding emit_block_production update
  emit_block_production-done epoch production s h =
      then-done (emit_hosts env (format_int epoch) production.by_identity [])
        (λ nodekeys. update (λ w. record w {
          nodekey_tracker = add_tracked_nodekeys epoch nodekeys w.nodekey_tracker;
        }))
        s s (with_tracked epoch production.by_identity s) _ tt _ []
        (emit_hosts-done (format_int epoch) production.by_identity [] s h) refl

  -- The nodekeys that are tracked, for each epoch, are among those of the other state.
  abbrev IsTrackedIn : System W → System W → Type 0
  IsTrackedIn s t =
      (e : ℤ) (nodekey : Text)
      → In nodekey (tracked e s.watcher.nodekey_tracker)
      → In nodekey (tracked e t.watcher.nodekey_tracker)

  with_tracked-IsTrackedIn :
      (epoch : ℤ) (hosts others : Map Text HostProduction) (s : System W)
      → Perm hosts others
      → IsTrackedIn (with_tracked epoch hosts s) (with_tracked epoch others s)
  with_tracked-IsTrackedIn epoch hosts others s p e =
      tracked-add_tracked_nodekeys epoch e (gather tracked_key hosts) (gather tracked_key others)
        s.watcher.nodekey_tracker (λ x. In-Perm x (gather-Perm tracked_key p))

  -- Two runs that return, with the same calls up to their order and the same nodekeys tracked for each
  -- epoch.
  abbrev pub IsReordered :
      Ran (System W) (Call F) (Unit {0}) → Ran (System W) (Call F) (Unit {0}) → Type 0
  IsReordered r q =
      (r.result ≡ returned tt)
      × (q.result ≡ returned tt)
      × Perm r.events q.events
      × IsTrackedIn r.state q.state
      × IsTrackedIn q.state r.state

  -- The loop over the block production goes over a Go map, in no given order. Where no number of a host
  -- is negative, and the answers for two orders of the same entries are taken from the same state: both
  -- are emitted without a stop, they make the same calls up to the order, and leave the same nodekeys
  -- tracked for each epoch.
  pub emit_block_production-any_order :
      (epoch : ℤ) (production other : BlockProduction) (s : System W)
      → Perm production.by_identity other.by_identity
      → every is_countable production.by_identity ≡ true
      → IsReordered
          (emit_block_production env epoch (ok production) s)
          (emit_block_production env epoch (ok other) s)
  emit_block_production-any_order epoch production other s p h =
      let k = sym (every-Perm is_countable p) ∙ h in
      rw
        (
          emit_block_production-done epoch production s h,
          emit_block_production-done epoch other s k,
        )
        (
          refl,
          refl,
          Perm.append_right [] (gather-Perm (host_calls (format_int epoch)) p),
          with_tracked-IsTrackedIn epoch production.by_identity other.by_identity s p,
          with_tracked-IsTrackedIn epoch other.by_identity production.by_identity s (Perm.symm p),
        )
