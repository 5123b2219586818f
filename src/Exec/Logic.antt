-- ===== src/Exec/Logic.antt =====
-- A logic of runs. `R s es t` says of a run from `s` that returned what its calls `es` and its last
-- state `t` satisfy, `X s es t` says it of a run that stopped.
use solana_exporter.Base.{◌≡◌, List, [], ◌++◌, Bool, true, false, if◌then◌else◌}
use solana_exporter.Exec.{
  Stop, Outcome, returned, stopped, Exec, pure, stop, gets, assertf, proceed, ◌>>=◌,
}

-- Both relations hold of nothing done, and are kept when a run goes on.
pub record Logic {S E : Type 0} (R X : S → List E → S → Type 0) : Type 0 where
  pub here : (s : S) → R s [] s
  pub then_return : (s t u : S) (es fs : List E) → R s es t → R t fs u → R s (es ++ fs) u
  pub then_stop : (s t u : S) (es fs : List E) → R s es t → X t fs u → X s (es ++ fs) u

-- A run may stop where nothing was done.
pub record MayStop {S E : Type 0} (X : S → List E → S → Type 0) : Type 0 where
  pub halt : (s : S) → X s [] s

module _ {S E : Type 0} (R X : S → List E → S → Type 0) where
  abbrev pub Post : {A : Type 0} → S → Outcome A → List E → S → Type 0
  Post s (returned a) es t = R s es t
  Post s (stopped why) es t = X s es t

-- What holds whether the run returned or stopped.
pub Post-either :
    {S E A : Type 0} (R : S → List E → S → Type 0) (s t : S) (es : List E) (o : Outcome A)
    → Post R R s o es t
    → R s es t
Post-either R s t es (returned a) h = h
Post-either R s t es (stopped why) h = h

-- Every run of `m` satisfies the relations.
pub record Holds {S E A : Type 0} (R X : S → List E → S → Type 0) (m : Exec S E A) : Type 0 where
  pub at : (s : S) → Post R X s (m s).result (m s).events (m s).state

-- Relations of runs that begin where `P` holds.
module _ {S E : Type 0} (P : S → Type 0) where
  abbrev pub Given : (S → List E → S → Type 0) → S → List E → S → Type 0
  Given R s es t = P s → R s es t

  pub Post-Given :
      {A : Type 0} (R X : S → List E → S → Type 0) (s t : S) (es : List E) (o : Outcome A)
      → (P s → Post R X s o es t)
      → Post (Given R) (Given X) s o es t
  Post-Given R X s t es (returned a) h = h
  Post-Given R X s t es (stopped why) h = h

  pub Post-at :
      {A : Type 0} (R X : S → List E → S → Type 0) (s t : S) (es : List E) (o : Outcome A)
      → Post (Given R) (Given X) s o es t
      → P s
      → Post R X s o es t
  Post-at R X s t es (returned a) h p = h p
  Post-at R X s t es (stopped why) h p = h p

  -- What is shown of a run may rely on `P`, also where the relations suppose it.
  pub Post-assuming :
      {A : Type 0} (R X : S → List E → S → Type 0) (s t : S) (es : List E) (o : Outcome A)
      → (P s → Post (Given R) (Given X) s o es t)
      → Post (Given R) (Given X) s o es t
  Post-assuming R X s t es o h = Post-Given R X s t es o (λ p. Post-at R X s t es o (h p) p)

-- Relations that follow from others.
module _ {S E : Type 0} (R X R₁ X₁ : S → List E → S → Type 0) where
  Post-map :
      {A : Type 0} (s t : S) (es : List E) (o : Outcome A)
      → (R₁ s es t → R s es t)
      → (X₁ s es t → X s es t)
      → Post R₁ X₁ s o es t
      → Post R X s o es t
  Post-map s t es (returned a) f g h = f h
  Post-map s t es (stopped why) f g h = g h

module _ {S E A : Type 0} {R X R₁ X₁ : S → List E → S → Type 0} where
  pub Holds-map :
      (m : Exec S E A)
      → ((s t : S) (es : List E) → R₁ s es t → R s es t)
      → ((s t : S) (es : List E) → X₁ s es t → X s es t)
      → Holds R₁ X₁ m
      → Holds R X m
  Holds-map m f g h = record {
    at = λ s.
        Post-map R X R₁ X₁ s (m s).state (m s).events (m s).result (f s (m s).state (m s).events)
          (g s (m s).state (m s).events) (h.at s);
  }

-- A run and what goes on from it, each with relations of its own.
module _ {S E : Type 0} (R X R₁ X₁ R₂ X₂ : S → List E → S → Type 0) where
  Post-onward :
      {B : Type 0} (s t u : S) (es fs : List E) (o : Outcome B)
      → ((u : S) (fs : List E) → R₁ s es t → R₂ t fs u → R s (es ++ fs) u)
      → ((u : S) (fs : List E) → R₁ s es t → X₂ t fs u → X s (es ++ fs) u)
      → R₁ s es t
      → Post R₂ X₂ t o fs u
      → Post R X s o (es ++ fs) u
  Post-onward s t u es fs (returned b) ret halt p q = ret u fs p q
  Post-onward s t u es fs (stopped why) ret halt p q = halt u fs p q

  Post-compose :
      {A B : Type 0} (s t : S) (es : List E) (o : Outcome A) (f : A → Exec S E B)
      → ((u : S) (fs : List E) → R₁ s es t → R₂ t fs u → R s (es ++ fs) u)
      → ((u : S) (fs : List E) → R₁ s es t → X₂ t fs u → X s (es ++ fs) u)
      → (X₁ s es t → X s es t)
      → Post R₁ X₁ s o es t
      → ((a : A) → Holds R₂ X₂ (f a))
      → Post R X s (proceed o es t f).result (proceed o es t f).events (proceed o es t f).state
  Post-compose s t es (returned a) f ret halt so_far p q =
      Post-onward s t (f a t).state es (f a t).events (f a t).result ret halt p ((q a).at t)
  Post-compose s t es (stopped why) f ret halt so_far p q = so_far p

module _ {S E : Type 0} {R X R₁ X₁ R₂ X₂ : S → List E → S → Type 0} where
  pub Holds-compose :
      {A B : Type 0} (m : Exec S E A) (f : A → Exec S E B)
      → ((s t u : S) (es fs : List E) → R₁ s es t → R₂ t fs u → R s (es ++ fs) u)
      → ((s t u : S) (es fs : List E) → R₁ s es t → X₂ t fs u → X s (es ++ fs) u)
      → ((s t : S) (es : List E) → X₁ s es t → X s es t)
      → Holds R₁ X₁ m
      → ((a : A) → Holds R₂ X₂ (f a))
      → Holds R X (m >>= f)
  unfolding ◌>>=◌
  Holds-compose m f ret halt so_far p q = record {
    at = λ s.
        Post-compose R X R₁ X₁ R₂ X₂ s (m s).state (m s).events (m s).result f
          (λ u fs. ret s (m s).state u (m s).events fs)
          (λ u fs. halt s (m s).state u (m s).events fs) (so_far s (m s).state (m s).events)
          (p.at s) q;
  }

module _ {S E : Type 0} {R X : S → List E → S → Type 0} (l : Logic R X) where
  pub Holds-pure : {A : Type 0} (a : A) → Holds R X (pure a)
  unfolding pure
  Holds-pure a = record { at = λ s. l.here s }

  pub Holds-gets : {A : Type 0} (f : S → A) → Holds R X (gets f)
  unfolding gets
  Holds-gets f = record { at = λ s. l.here s }

  pub Holds-bind :
      {A B : Type 0} (m : Exec S E A) (f : A → Exec S E B)
      → Holds R X m
      → ((a : A) → Holds R X (f a))
      → Holds R X (m >>= f)
  Holds-bind m f p q = Holds-compose m f l.then_return l.then_stop (λ s t es x. x) p q

module _ {S E : Type 0} {R X : S → List E → S → Type 0} (l : Logic R X) (m : MayStop X) where
  pub Holds-stop : {A : Type 0} (why : Stop) → Holds R X (stop {A = A} why)
  unfolding stop
  Holds-stop why = record { at = λ s. m.halt s }

  pub Holds-assertf : (c : Bool) → Holds R X (assertf c)
  unfolding assertf
  Holds-assertf true = record { at = λ s. l.here s }
  Holds-assertf false = record { at = λ s. m.halt s }

module _ {S E A : Type 0} {R X : S → List E → S → Type 0} where
  pub Holds-if :
      (c : Bool) (m k : Exec S E A) → Holds R X m → Holds R X k → Holds R X (if c then m else k)
  Holds-if true m k p q = p
  Holds-if false m k p q = q

-- An assertion that holds does not stop.
pub Holds-assertf-true :
    {S E : Type 0} {R X : S → List E → S → Type 0} (l : Logic R X) (c : Bool)
    → c ≡ true
    → Holds R X (assertf c)
unfolding assertf
Holds-assertf-true l c h = rw h (record { at = λ s. l.here s })

pub ruleset run_rules = (Holds-pure, Holds-stop, Holds-gets, Holds-assertf, Holds-bind, Holds-if)
