-- ===== src/Prelude/Result.antt =====
-- Fallible code: results, the operator `?` as `>>=`, early returns and loops over a list.
use mathlib.Core.Path.{◌≡◌, refl}
use mathlib.Core.Logic.{◌⊎◌, inl, inr}
use mathlib.Core.Bool.{Bool, true, false}
use mathlib.Core.List.{List, [], ◌∷◌}
use rust_app.Prelude.Lists.{All}

pub data Result (E A : Type 0) : Type 0 where
  ok : A → Result E A
  err : E → Result E A

infixl 5 ◌>>=◌ ◌>>◌
abbrev pub ◌>>=◌ : {E A B : Type 0} → Result E A → (A → Result E B) → Result E B
ok a >>= f = f a
err e >>= f = err e

abbrev pub ◌>>◌ : {E B : Type 0} → Result E (Unit {0}) → Result E B → Result E B
ok a >> k = k
err e >> k = err e

abbrev pub map_err : {E F A : Type 0} → (E → F) → Result E A → Result F A
map_err f (ok a) = ok a
map_err f (err e) = err (f e)

-- `if b { return Err(e); }`
abbrev pub reject_if : {E : Type 0} → Bool → E → Result E (Unit {0})
reject_if true e = err e
reject_if false e = ok tt

module _ {E A : Type 0} where
  pub then-ok :
      (m : Result E (Unit {0})) (k : Result E A) {a : A}
      → (m >> k) ≡ ok a
      → (m ≡ ok tt) × (k ≡ ok a)
  then-ok (ok _) k h = (refl, h)
  then-ok (err e) k h = cc

  pub reject_if-ok :
      (b : Bool) (e : E) (k : Result E A) {a : A}
      → (reject_if b e >> k) ≡ ok a
      → (b ≡ false) × (k ≡ ok a)
  reject_if-ok true e k h = cc
  reject_if-ok false e k h = (refl, h)

  -- The first error of two steps.
  pub then-err :
      (m : Result E (Unit {0})) (k : Result E A) {x : E}
      → (m >> k) ≡ err x
      → (m ≡ err x) ⊎ ((m ≡ ok tt) × (k ≡ err x))
  then-err (ok a) k h = inr (refl, h)
  then-err (err e) k h = inl (cc h)

  pub bind-ok :
      {B : Type 0} (m : Result E A) (f : A → Result E B) {b : B}
      → (m >>= f) ≡ ok b
      → (a : A) × (m ≡ ok a) × (f a ≡ ok b)
  bind-ok (ok a) f h = (a, refl, h)
  bind-ok (err e) f h = cc

pub reject_if-false : {E : Type 0} (b : Bool) (e : E) → reject_if b e ≡ ok tt → b ≡ false
reject_if-false true e h = cc h
reject_if-false false e h = refl

pub reject_if-err : {E : Type 0} (b : Bool) (e : E) {x : E} → reject_if b e ≡ err x → x ≡ e
reject_if-err true e h = cc h
reject_if-err false e h = cc h

pub map_err-ok :
    {E F A : Type 0} (f : E → F) (m : Result E A) {a : A} → map_err f m ≡ ok a → m ≡ ok a
map_err-ok f (ok a) h = cc h
map_err-ok f (err e) h = cc

module _ {E A : Type 0} where
  -- `for x in xs { f(x)?; }`
  unfoldable pub for_each : (A → Result E (Unit {0})) → List A → Result E (Unit {0})
  for_each f [] = ok tt
  for_each f (x ∷ xs) = f x >> for_each f xs

  pub for_each-ok :
      (f : A → Result E (Unit {0})) (xs : List A)
      → for_each f xs ≡ ok tt
      → All (λ x. f x ≡ ok tt) xs
  unfolding for_each
  for_each-ok f [] h = tt
  for_each-ok f (x ∷ xs) h =
      let (here, later) = then-ok (f x) (for_each f xs) h in (here, for_each-ok f xs later)

  pub for_each-All :
      (f : A → Result E (Unit {0})) (xs : List A)
      → All (λ x. f x ≡ ok tt) xs
      → for_each f xs ≡ ok tt
  unfolding for_each
  for_each-All f [] h = refl
  for_each-All f (x ∷ xs) (here, later) = rw here (for_each-All f xs later)
