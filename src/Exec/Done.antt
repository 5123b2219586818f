-- ===== src/Exec/Done.antt =====
-- Runs that are known to return.
use solana_exporter.Base.{List, ◌++◌, ◌≡◌, ap, ◌∙◌}
use solana_exporter.Exec.{Ran, returned, Exec, proceed, ◌>>=◌}

-- A run that returned `a`.
abbrev pub done : {S E A : Type 0} → A → List E → S → Ran S E A
done a es t = record { result = returned a; events = es; state = t }

pub bind-done :
    {S E A B : Type 0} (m : Exec S E A) (f : A → Exec S E B) (s t : S) (a : A) (es : List E)
    → m s ≡ done a es t
    → (m >>= f) s ≡ proceed (returned a) es t f
unfolding ◌>>=◌
bind-done m f s t a es h = ap (λ r. proceed r.result r.events r.state f) h

-- A run that returned, and what goes on from it.
pub then-done :
    {S E A B : Type 0} (m : Exec S E A) (f : A → Exec S E B) (s t u : S) (a : A) (b : B)
    (es fs : List E)
    → m s ≡ done a es t
    → f a t ≡ done b fs u
    → (m >>= f) s ≡ done b (es ++ fs) u
then-done m f s t u a b es fs h k =
    bind-done m f s t a es h
    ∙ ap (λ r. record { result = r.result; events = es ++ r.events; state = r.state }) k
