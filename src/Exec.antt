-- ===== src/Exec.antt =====
-- Code with effects: a method runs on a state, makes external calls that are kept in their order, and
-- returns, exits the process (`logger.Fatalf`, `assertf`) or panics.
pub mod Logic
pub mod Done
use solana_exporter.Base.{List, [], ◌∷◌, ◌++◌, Bool}

pub data Stop : Type 0 where
  exit panic : Stop

pub data Outcome (A : Type 0) : Type 0 where
  returned : A → Outcome A
  stopped : Stop → Outcome A

pub record Ran (S E A : Type 0) : Type 0 where
  pub result : Outcome A
  pub events : List E
  pub state : S

abbrev pub Exec : Type 0 → Type 0 → Type 0 → Type 0
Exec S E A = S → Ran S E A

module _ {S E A : Type 0} where
  pub pure : A → Exec S E A
  pure a s = record { result = returned a; events = []; state = s }

  pub stop : Stop → Exec S E A
  stop why s = record { result = stopped why; events = []; state = s }

  pub gets : (S → A) → Exec S E A
  gets f s = record { result = returned (f s); events = []; state = s }

module _ {S E : Type 0} where
  pub emit : E → Exec S E (Unit {0})
  emit x s = record { result = returned tt; events = x ∷ []; state = s }

  pub modify : (S → S) → Exec S E (Unit {0})
  modify f s = record { result = returned tt; events = []; state = f s }

  -- `assertf`, `logger.Fatalf` behind a test
  pub assertf : Bool → Exec S E (Unit {0})
  assertf c s = record {
    result = elim c [ Bool.true ↦ returned tt | Bool.false ↦ stopped exit ];
    events = [];
    state = s;
  }

module _ {S E A B : Type 0} where
  abbrev pub proceed : Outcome A → List E → S → (A → Exec S E B) → Ran S E B
  proceed (returned a) es s f = record {
    result = (f a s).result;
    events = es ++ (f a s).events;
    state = (f a s).state;
  }
  proceed (stopped why) es s f = record { result = stopped why; events = es; state = s }

  infixl 5 ◌>>=◌ ◌>>◌
  -- Opening this opens the simple actions too.
  unfoldable pub ◌>>=◌ : Exec S E A → (A → Exec S E B) → Exec S E B
  unfolding pure stop gets emit modify assertf
  ◌>>=◌ m f s = proceed (m s).result (m s).events (m s).state f

  abbrev pub ◌>>◌ : Exec S E A → Exec S E B → Exec S E B
  m >> k = m >>= λ _. k
