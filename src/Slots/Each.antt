-- ===== src/Slots/Each.antt =====
-- Runs of the slot watcher all of whose calls satisfy a predicate, whether they return or stop.
use solana_exporter.Base.{All, All-append, List}
use solana_exporter.Exec.{emit, ◌>>=◌}
use solana_exporter.Exec.Logic.{Logic, MayStop, Holds, Post-either, run_rules}
use solana_exporter.Slots.State.{Call, Watcher, System, Action, ask, update}

module _ {W F : Type 0} (P : Call F → Type 0) where
  abbrev pub AllCalls : System W → List (Call F) → System W → Type 0
  AllCalls s es t = All P es

  pub Each-logic : Logic AllCalls AllCalls
  Each-logic = record {
    here = λ s. tt;
    then_return = λ s t u es fs p q. All-append P es fs p q;
    then_stop = λ s t u es fs p q. All-append P es fs p q;
  }

  pub Each-may_stop : MayStop AllCalls
  Each-may_stop = record { halt = λ s. tt }

  abbrev pub Each : {A : Type 0} → Action W F A → Type 0
  Each m = Holds AllCalls AllCalls m

  pub emit-Each : (c : Call F) → P c → Each (emit c)
  unfolding ◌>>=◌
  emit-Each c h = record { at = λ s. (h, tt) }

  pub ask-Each : {A : Type 0} (call : W → A × W) → Each (ask call)
  unfolding ask
  ask-Each call = record { at = λ s. tt }

  pub update-Each : (f : Watcher → Watcher) → Each (update f)
  unfolding update
  update-Each f = record { at = λ s. tt }

  pub Each-events : {A : Type 0} (m : Action W F A) (s : System W) → Each m → All P (m s).events
  Each-events m s h = Post-either AllCalls s (m s).state (m s).events (m s).result (h.at s)

pub ruleset each_rules = (run_rules, Each-logic, Each-may_stop, emit-Each, ask-Each, update-Each)
