-- ===== src/Base/Orders.antt =====
-- Lists up to their order, as the order of a loop over a Go map is not known.
use mathlib.Core.Path.{◌≡◌, refl, ap, ◌∙◌, sym}
use mathlib.Core.Logic.{∥∥₁_map, ∥∥₁_elim}
use mathlib.Core.Bool.{Bool, true, ◌&&◌, ◌||◌}
use mathlib.Core.List.{List, [], ◌∷◌, ◌++◌, append_assoc, Perm, Permᴰ}
use mathlib.Core.List.Permᴰ
use native.Mathlib.Omega.{arith}
use solana_exporter.Base.Lists.{In}
use solana_exporter.Base.Equality.{Eq, ◌==◌, contains, contains-In, In-contains}

module _ {A B : Type 0} (f : A → List B) where
  -- The lists of the elements, one after the other.
  abbrev pub gather : List A → List B
  gather [] = []
  gather (x ∷ xs) = f x ++ gather xs

  exchanged : (a b c : List B) → Permᴰ (a ++ (b ++ c)) (b ++ (a ++ c))
  exchanged a b c =
      rw (sym (append_assoc a b c), sym (append_assoc b a c))
        (Permᴰ.append_right c (Permᴰ.append_comm a b))

  gather-Permᴰ : {xs ys : List A} → Permᴰ xs ys → Permᴰ (gather xs) (gather ys)
  gather-Permᴰ Permᴰ.nil = Permᴰ.nil
  gather-Permᴰ (Permᴰ.cons {b = b} {l₁ = xs} e d) = rw e (Permᴰ.append_left (f b) (gather-Permᴰ d))
  gather-Permᴰ (Permᴰ.swap {a = a} {b = b} {l = xs} e k) = rw (e, k) (exchanged _ _ (gather xs))
  gather-Permᴰ (Permᴰ.trans d g) = Permᴰ.trans (gather-Permᴰ d) (gather-Permᴰ g)

  pub gather-Perm : {xs ys : List A} → Perm xs ys → Perm (gather xs) (gather ys)
  gather-Perm {xs} {ys} p = ∥∥₁_map {B = Permᴰ (gather xs) (gather ys)} p gather-Permᴰ

module _ {A : Type 0} (test : A → Bool) where
  -- Every element passes the test.
  abbrev pub every : List A → Bool
  every [] = true
  every (x ∷ xs) = test x && every xs

  every-Permᴰ : {xs ys : List A} → Permᴰ xs ys → every xs ≡ every ys
  every-Permᴰ Permᴰ.nil = refl
  every-Permᴰ (Permᴰ.cons {b = b} e d) = rw e (ap (λ r. test b && r) (every-Permᴰ d))
  every-Permᴰ (Permᴰ.swap {a' = a'} {b' = b'} {l = xs} e k) = rw (e, k) (ground arith)
  every-Permᴰ (Permᴰ.trans d g) = every-Permᴰ d ∙ every-Permᴰ g

  pub every-Perm : {xs ys : List A} → Perm xs ys → every xs ≡ every ys
  every-Perm {xs} {ys} p = ∥∥₁_elim {P = every xs ≡ every ys} p (hlevel) every-Permᴰ

module _ {A : Type 0} ⦃eq : Eq A⦄ where
  contains-Permᴰ : (x : A) {xs ys : List A} → Permᴰ xs ys → contains xs x ≡ contains ys x
  contains-Permᴰ x Permᴰ.nil = refl
  contains-Permᴰ x (Permᴰ.cons {b = b} e d) = rw e (ap (λ r. b == x || r) (contains-Permᴰ x d))
  contains-Permᴰ x (Permᴰ.swap {a' = a'} {b' = b'} {l = xs} e k) = rw (e, k) (ground arith)
  contains-Permᴰ x (Permᴰ.trans d g) = contains-Permᴰ x d ∙ contains-Permᴰ x g

  -- The elements do not depend on the order.
  pub In-Perm : (x : A) {xs ys : List A} → Perm xs ys → In x xs → In x ys
  In-Perm x {xs} {ys} p m =
      let same = ∥∥₁_elim {P = contains xs x ≡ contains ys x} p (hlevel) (contains-Permᴰ x) in
      contains-In ys x (sym same ∙ In-contains xs x m)
