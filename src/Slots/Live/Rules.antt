-- ===== src/Slots/Live/Rules.antt =====
-- Runs of the slot watcher that return, from every state in which `P` holds of the watcher, to a state
-- in which it holds again.
use solana_exporter.Base.{Float64, Text, List, Bool, true, false, ◌≡◌, if◌then◌else◌}
use solana_exporter.Exec.{
  Outcome, returned, stopped, pure, emit, gets, assertf, proceed, ◌>>=◌, ◌>>◌,
}
use solana_exporter.Exec.Logic.{Logic, Post, Post-assuming, Holds-bind}
use solana_exporter.Slots.State.{
  Watcher, Counter, Call, System, Action, ask, update, add_to_counter,
}

module _ {W F : Type 0} (P : Watcher → Type 0) where
  abbrev Kept : System W → List (Call F) → System W → Type 0
  Kept s es t = P s.watcher → P t.watcher

  abbrev Stuck : System W → List (Call F) → System W → Type 0
  Stuck s es t = P s.watcher → ⊥

  pub record Stays {A : Type 0} (m : Action W F A) : Type 0 where
    pub at : (s : System W) → Post Kept Stuck s (m s).result (m s).events (m s).state

  Kept-logic : Logic Kept Stuck
  Kept-logic = record {
    here = λ s p. p;
    then_return = λ s t u es fs f g p. g (f p);
    then_stop = λ s t u es fs f g p. g (f p);
  }

module _ {W F : Type 0} {P : Watcher → Type 0} where
  pub Stays-emit : (c : Call F) → Stays {W = W} P (emit c)
  unfolding ◌>>=◌
  Stays-emit c = record { at = λ s p. p }

  pub Stays-ask : {A : Type 0} (call : W → A × W) → Stays {F = F} P (ask call)
  unfolding ask
  Stays-ask call = record { at = λ s p. p }

  pub Stays-add :
      (float : Float64 F) (counter : Counter) (labels : List Text) (x : F)
      → float.is_negative x ≡ false
      → Stays {W = W} P (add_to_counter float counter labels x)
  unfolding add_to_counter
  Stays-add float counter labels x h = rw h (Stays-emit _)

  pub Stays-update :
      (f : Watcher → Watcher) → ((w : Watcher) → P w → P (f w)) → Stays {W = W} {F = F} P (update f)
  unfolding update
  Stays-update f h = record { at = λ s p. h s.watcher p }

  pub Stays-assertf : (c : Bool) → c ≡ true → Stays {W = W} {F = F} P (assertf c)
  unfolding ◌>>=◌
  Stays-assertf c h = rw h (record { at = λ s p. p })

  pub Stays-pure : {A : Type 0} (a : A) → Stays {W = W} {F = F} P (pure a)
  unfolding ◌>>=◌
  Stays-pure a = record { at = λ s p. p }

  pub Stays-bind :
      {A B : Type 0} (m : Action W F A) (f : A → Action W F B)
      → Stays P m
      → ((a : A) → Stays P (f a))
      → Stays P (m >>= f)
  Stays-bind m f p q =
      let holds =
        Holds-bind (Kept-logic P) m f (record { at = p.at }) (λ a. record { at = (q a).at }) in
      record { at = holds.at }

  pub Stays-then :
      {A B : Type 0} (m : Action W F A) (k : Action W F B)
      → Stays P m
      → Stays P k
      → Stays P (m >> k)
  Stays-then m k p q = Stays-bind m (λ _. k) p (λ _. q)

  pub Stays-if :
      {A : Type 0} (c : Bool) (m k : Action W F A)
      → Stays P m
      → Stays P k
      → Stays P (if c then m else k)
  Stays-if true m k p q = p
  Stays-if false m k p q = q

  -- What follows an answer may rely on its being one.
  pub Stays-answer :
      {A B : Type 0} (call : W → A × W) (k : A → Action W F B)
      → ((w : W) → Stays P (k (call w).0))
      → Stays P (ask call >>= k)
  unfolding ask ◌>>=◌
  Stays-answer call k h = record {
    at = λ s. (h s.world).at (record s { world = (call s.world).1 });
  }

  -- What follows a reading of the watcher may rely on `P` of it.
  pub Stays-read :
      {A : Type 0} (k : Watcher → Action W F A)
      → ((w : Watcher) → P w → Stays P (k w))
      → Stays P (gets (λ s. s.watcher) >>= k)
  unfolding ◌>>=◌
  Stays-read k h = record {
    at = λ s.
        Post-assuming (λ s. P s.watcher) (λ s es t. P t.watcher) (λ s es t. ⊥) s _ _ _
          (λ p. (h s.watcher p).at s);
  }

pub ruleset stay_rules = (Stays-emit, Stays-ask, Stays-pure, Stays-bind, Stays-if)

-- Runs that return, from every state in which `P` holds of the watcher, to one in which `Q` does.
abbrev pub Ends : {W A : Type 0} → (Watcher → Type 0) → Outcome A → System W → Type 0
Ends Q (returned a) t = Q t.watcher
Ends Q (stopped why) t = ⊥

pub record Reaches {W F A : Type 0} (P Q : Watcher → Type 0) (m : Action W F A) : Type 0 where
  pub at : (s : System W) → P s.watcher → Ends Q (m s).result (m s).state

Kept-Ends :
    {W F A : Type 0} (P : Watcher → Type 0) (s t : System W) (es : List (Call F)) (o : Outcome A)
    → Post (Kept P) (Stuck P) s o es t
    → P s.watcher
    → Ends P o t
Kept-Ends P s t es (returned a) h p = h p
Kept-Ends P s t es (stopped why) h p = h p

module _ {W F A : Type 0} {P : Watcher → Type 0} where
  pub Reaches-of_Stays : (m : Action W F A) → Stays P m → Reaches P P m
  Reaches-of_Stays m h = record {
    at = λ s p. Kept-Ends P s (m s).state (m s).events (m s).result (h.at s) p;
  }

Ends-proceed :
    {W F A B : Type 0} {Q R : Watcher → Type 0} (t : System W) (es : List (Call F)) (o : Outcome A)
    (f : A → Action W F B)
    → Ends Q o t
    → ((a : A) → Reaches Q R (f a))
    → Ends R (proceed o es t f).result (proceed o es t f).state
Ends-proceed t es (returned a) f p q = (q a).at t p
Ends-proceed t es (stopped why) f p q = absurd p

module _ {W F : Type 0} {P Q R : Watcher → Type 0} where
  Reaches-bind :
      {A B : Type 0} (m : Action W F A) (f : A → Action W F B)
      → Reaches P Q m
      → ((a : A) → Reaches Q R (f a))
      → Reaches P R (m >>= f)
  unfolding ◌>>=◌
  Reaches-bind m f p q = record {
    at = λ s h. Ends-proceed (m s).state (m s).events (m s).result f (p.at s h) q;
  }

  pub Reaches-then :
      {A B : Type 0} (m : Action W F A) (k : Action W F B)
      → Reaches P Q m
      → Reaches Q R k
      → Reaches P R (m >> k)
  Reaches-then m k p q = Reaches-bind m (λ _. k) p (λ _. q)

module _ {W F : Type 0} {P Q : Watcher → Type 0} where
  pub Reaches-update :
      (f : Watcher → Watcher)
      → ((w : Watcher) → P w → Q (f w))
      → Reaches {W = W} {F = F} P Q (update f)
  unfolding update
  Reaches-update f h = record { at = λ s p. h s.watcher p }

  pub Reaches-read :
      {A : Type 0} (k : Watcher → Action W F A)
      → ((w : Watcher) → P w → Reaches P Q (k w))
      → Reaches P Q (gets (λ s. s.watcher) >>= k)
  unfolding ◌>>=◌
  Reaches-read k h = record { at = λ s p. (h s.watcher p).at s p }
