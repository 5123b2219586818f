-- ===== src/Slots/Advances.antt =====
-- Runs of the watcher that ask for block production from the watermark on, as triples: what holds of the
-- watcher before, and what holds of it after.
pub mod Epochs
use solana_exporter.Base.{
  ℤ, pos, pos_part, neg_part, ◌+64◌, +64_lem, ◌+ℤ◌, +ℤ_parts, ◌≤ℤ◌, int_eqb, false, ◌<◌, ◌≤◌, ◌^◌,
  ◌+◌, ◌≡◌, refl, sym, ◌∙◌, arith, List, [], ◌∷◌, ◌++◌, inl, inr, Bool, true, if◌then◌else◌,
  int_laws,
}
use solana_exporter.Exec.{Stop, stop, Outcome, returned, stopped, gets, assertf, pure, ◌>>=◌, ◌>>◌}
use solana_exporter.Exec.Logic.{
  Given, Post, Holds, Logic, Holds-pure, Holds-compose, Holds-map, Post-Given, Post-at,
}
use solana_exporter.Slots.State.{Call, Watcher, System, Action, update}
use solana_exporter.Slots.Requests.{
  requests, requests-append, IsChain, chain_end, IsChain-append, chain_end-append,
}
use solana_exporter.Slots.Quiet.{Quiet, IsQuiet, SamePosition}
use solana_exporter.Slots.Watermark.{MovesTo, NotAsked}
use solana_exporter.Slots.Production.{check_valid_slot_range}

-- An epoch is watched (0 stands for none), its last slot is not the last number, and the watermark is
-- not behind the slot before 0 nor beyond the epoch.
abbrev pub IsTracking : Watcher → Type 0
IsTracking w =
    (pos 1 ≤ℤ w.current_epoch)
    × (neg_part w.slot_watermark ≤ 1)
    × (w.slot_watermark ≤ℤ w.last_slot)
    × (pos_part w.last_slot + 1 < 2 ^ 63)

-- And it is not beyond a slot.
abbrev pub IsBefore : ℤ → Watcher → Type 0
IsBefore slot w = IsTracking w × (w.slot_watermark ≤ℤ slot)

-- The request of a move continues from the watermark.
moved_lem : (w : Watcher) → IsTracking w → w.slot_watermark +64 pos 1 ≡ w.slot_watermark +ℤ pos 1
moved_lem w h = let next = +ℤ_parts w.slot_watermark (pos 1) in +64_lem _ _ (grind int_laws)

module _ {F : Type 0} where
  IsChain-then :
      (a b : ℤ) (es fs : List (Call F))
      → IsChain a (requests es)
      → chain_end a (requests es) ≡ b
      → IsChain b (requests fs)
      → IsChain a (requests (es ++ fs))
  IsChain-then a b es fs p e q =
      rw (requests-append es fs) (IsChain-append a (requests es) (requests fs) p (rw e q))

  end-then :
      (a b : ℤ) (es fs : List (Call F))
      → chain_end a (requests es) ≡ b
      → chain_end a (requests (es ++ fs)) ≡ chain_end b (requests fs)
  end-then a b es fs e =
      rw (requests-append es fs, chain_end-append a (requests es) (requests fs), e)

-- What holds where the watcher satisfies the condition.
abbrev Of : {W : Type 0} → (Watcher → Type 0) → System W → Type 0
Of P s = P s.watcher

module _ {W F : Type 0} where
  abbrev pub Follows : (Watcher → Type 0) → System W → List (Call F) → System W → Type 0
  Follows Q s es t =
      Q t.watcher
      × IsChain s.watcher.slot_watermark (requests es)
      × (chain_end s.watcher.slot_watermark (requests es) ≡ t.watcher.slot_watermark)

  abbrev pub FollowsSoFar : System W → List (Call F) → System W → Type 0
  FollowsSoFar s es t = IsChain s.watcher.slot_watermark (requests es)

  -- From where `P` holds, the requests continue from the watermark, and a run that returns ends where `Q`
  -- holds, with the last request at the new watermark.
  abbrev pub Advances :
      (Watcher → Type 0) → (Watcher → Type 0) → {A : Type 0} → Action W F A → Type 0
  Advances P Q m = Holds (Given (Of P) (Follows Q)) (Given (Of P) FollowsSoFar) m

  module _ (P Q R : Watcher → Type 0) where
    Follows-then :
        (s t u : System W) (es fs : List (Call F))
        → Given (Of P) (Follows Q) s es t
        → Given (Of Q) (Follows R) t fs u
        → Given (Of P) (Follows R) s (es ++ fs) u
    Follows-then s t u es fs p q h =
        let (there, chain, end) = p h in
        let (last, chain', end') = q there in
        (
          last,
          IsChain-then s.watcher.slot_watermark t.watcher.slot_watermark es fs chain end chain',
          end-then s.watcher.slot_watermark t.watcher.slot_watermark es fs end ∙ end',
        )

    FollowsSoFar-then :
        (s t u : System W) (es fs : List (Call F))
        → Given (Of P) (Follows Q) s es t
        → Given (Of Q) FollowsSoFar t fs u
        → Given (Of P) FollowsSoFar s (es ++ fs) u
    FollowsSoFar-then s t u es fs p q h =
        let (there, chain, end) = p h in
        IsChain-then s.watcher.slot_watermark t.watcher.slot_watermark es fs chain end (q there)

    pub then-Advances :
        {A B : Type 0} (m : Action W F A) (f : A → Action W F B)
        → Advances P Q m
        → ((a : A) → Advances Q R (f a))
        → Advances P R (m >>= f)
    then-Advances m f p q = Holds-compose m f Follows-then FollowsSoFar-then (λ s t es x. x) p q

  pub Advances-map :
      {A : Type 0} (P Q R T : Watcher → Type 0) (m : Action W F A)
      → ((w : Watcher) → P w → Q w)
      → ((w : Watcher) → R w → T w)
      → Advances Q R m
      → Advances P T m
  Advances-map P Q R T m f g p =
      Holds-map m
        (λ s t es h x. let (r, chain, end) = h (f s.watcher x) in (g t.watcher r, chain, end))
        (λ s t es h x. h (f s.watcher x)) p

  Advances-logic :
      (P : Watcher → Type 0) → Logic (Given (Of {W = W} P) (Follows P)) (Given (Of P) FollowsSoFar)
  Advances-logic P = record {
    here = λ s h. (h, tt, refl);
    then_return = Follows-then P P P;
    then_stop = FollowsSoFar-then P P P;
  }

  pub pure-Advances : {A : Type 0} (P : Watcher → Type 0) (a : A) → Advances P P (pure a)
  pure-Advances P a = Holds-pure (Advances-logic P) a

  read_at :
      {A : Type 0} (P Q : Watcher → Type 0) (s t : System W) (es : List (Call F)) (o : Outcome A)
      → P s.watcher
      → Post
          (Given (Of (λ v. P v × (v ≡ s.watcher))) (Follows Q))
          (Given (Of (λ v. P v × (v ≡ s.watcher))) FollowsSoFar)
          s
          o
          es
          t
      → Post (Follows Q) FollowsSoFar s o es t
  read_at P Q s t es o h p =
      Post-at (Of (λ v. P v × (v ≡ s.watcher))) (Follows Q) FollowsSoFar s t es o p (h, refl)

  -- What is read of the watcher is the watcher of the state that follows.
  pub read-Advances :
      {A : Type 0} (P Q : Watcher → Type 0) (k : Watcher → Action W F A)
      → ((w : Watcher) → P w → Advances (λ v. P v × (v ≡ w)) Q (k w))
      → Advances P Q (gets (λ s. s.watcher) >>= k)
  unfolding ◌>>=◌
  read-Advances P Q k p = record {
    at = λ s.
        Post-Given (Of P) (Follows Q) FollowsSoFar s _ _ _
          λ h. read_at P Q s _ _ _ h ((p s.watcher h).at s);
  }

  Quiet-Advances :
      {A : Type 0} (P : Watcher → Type 0) (s t : System W) (es : List (Call F)) (o : Outcome A)
      → ((v w : Watcher) → SamePosition v w → P v → P w)
      → Post Quiet Quiet s o es t
      → Post (Given (Of P) (Follows P)) (Given (Of P) FollowsSoFar) s o es t
  Quiet-Advances P s t es (returned a) keeps (same, none_asked) =
      λ h. rw none_asked (keeps s.watcher t.watcher same h, tt, sym (same.3))
  Quiet-Advances P s t es (stopped why) keeps (same, none_asked) = λ h. rw none_asked tt

  -- What leaves the position alone and asks for nothing keeps what holds of the position.
  pub IsQuiet-Advances :
      {A : Type 0} (P : Watcher → Type 0) (m : Action W F A)
      → ((v w : Watcher) → SamePosition v w → P v → P w)
      → IsQuiet m
      → Advances P P m
  IsQuiet-Advances P m keeps q = record { at = λ s. Quiet-Advances P s _ _ _ keeps (q.at s) }

  -- From a watermark that is not beyond `to`, a move ends with the watermark there.
  pub moves-Advances :
      (to : ℤ) (s t : System W) (es : List (Call F)) (o : Outcome (Unit {0}))
      → Post (MovesTo to) (NotAsked (s.watcher.slot_watermark +64 pos 1) to) s o es t
      → Post
          (Given (Of (IsBefore to)) (Follows IsTracking))
          (Given (Of (IsBefore to)) FollowsSoFar)
          s
          o
          es
          t
  unfolding check_valid_slot_range
  moves-Advances to s t es (returned a) p =
      λ h. let next = moved_lem s.watcher h.0 in rw (p.1) (ground arith, (next, h.1, tt), sym (p.5))
  moves-Advances to s t es (stopped why) (inl e) = λ h. rw e tt
  moves-Advances to s t es (stopped why) (inr e) =
      λ h. let next = moved_lem s.watcher h.0 in rw e (next, h.1, tt)

  -- What follows an assertion may rely on it.
  pub assert-Advances :
      {A : Type 0} (P Q : Watcher → Type 0) (c : Bool) (k : Action W F A)
      → (c ≡ true → Advances P Q k)
      → Advances P Q (assertf c >> k)
  unfolding ◌>>=◌
  assert-Advances P Q true k p = record { at = λ s. (p refl).at s }
  assert-Advances P Q false k p = record { at = λ s h. tt }

  pub if-Advances :
      {A : Type 0} (P Q : Watcher → Type 0) (c : Bool) (m k : Action W F A)
      → (c ≡ true → Advances P Q m)
      → (c ≡ false → Advances P Q k)
      → Advances P Q (if c then m else k)
  if-Advances P Q true m k p q = p refl
  if-Advances P Q false m k p q = q refl

  pub update-Advances :
      (P Q : Watcher → Type 0) (f : Watcher → Watcher)
      → ((w : Watcher) → P w → Q (f w) × ((f w).slot_watermark ≡ w.slot_watermark))
      → Advances P Q (update f)
  unfolding update
  update-Advances P Q f p = record { at = λ s h. ((p s.watcher h).0, tt, sym (p s.watcher h).1) }

  pub stop-Advances :
      {A : Type 0} (P Q : Watcher → Type 0) (why : Stop) → Advances P Q (stop {A = A} why)
  unfolding ◌>>=◌
  stop-Advances P Q why = record { at = λ s h. tt }

  pub Advances-at :
      {A : Type 0} (P Q : Watcher → Type 0) (m : Action W F A)
      → Advances P Q m
      → (s : System W) → P s.watcher
      → Post (Follows Q) FollowsSoFar s (m s).result (m s).events (m s).state
  Advances-at P Q m p s h = Post-at (Of P) (Follows Q) FollowsSoFar s _ _ _ (p.at s) h
