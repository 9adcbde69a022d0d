-- ===== src/Service/Results.antt =====
-- What an action of the HTTP service that succeeds went through:
-- cert/beamscale-critical-section/infra-runtime-host/src/main.rs.
use rust_app.Prelude.{◌≡◌, refl, sym, ap, false, true, Bool}
use rust_app.Prelude.Result.{Result, ok, err, reject_if}
use rust_app.Host.Types
use rust_app.Host.State
use rust_app.Host.State.{RuntimeHost}
use rust_app.Service.Types.{ApiError}
use rust_app.Service.Checks.{Check}
use rust_app.Service.State.{AppState, Handler, continue, ◌>>=◌, ◌>>◌, check, answered, on_host}

continue-ok :
    {A B : Type 0} (p : Result ApiError A × AppState) (f : A → Handler B) {y : B} {t : AppState}
    → continue p f ≡ (ok y, t)
    → (x : A) × (s : AppState) × (p ≡ (ok x, s)) × (f x s ≡ (ok y, t))
unfolding continue
continue-ok (ok x, s) f e = (x, s, refl, e)
continue-ok (err x, s) f e = cc (ap (λ p. p.0) e)

module _ {A B : Type 0} where
  pub bind-ok :
      (m : Handler A) (f : A → Handler B) (s : AppState) {y : B} {t : AppState}
      → (m >>= f) s ≡ (ok y, t)
      → (x : A) × (u : AppState) × (m s ≡ (ok x, u)) × (f x u ≡ (ok y, t))
  unfolding ◌>>=◌
  bind-ok m f s e = continue-ok (m s) f e

  pub then-ok :
      (m : Handler A) (k : Handler B) (s : AppState) {y : B} {t : AppState}
      → (m >> k) s ≡ (ok y, t)
      → (x : A) × (u : AppState) × (m s ≡ (ok x, u)) × (k u ≡ (ok y, t))
  unfolding ◌>>◌
  then-ok m k s e = bind-ok m (λ _. k) s e

  -- A check leaves the state to what follows.
  pub check-ok :
      (r : Check A) (f : A → Handler B) (s : AppState) {y : B} {t : AppState}
      → (check r >>= f) s ≡ (ok y, t)
      → (x : A) × (r ≡ ok x) × (f x s ≡ (ok y, t))
  unfolding ◌>>=◌ continue
  check-ok (ok x) f s e = (x, refl, e)
  check-ok (err x) f s e = cc (ap (λ p. p.0) e)

  pub check-then :
      (r : Check A) (k : Handler B) (s : AppState) {y : B} {t : AppState}
      → (check r >> k) s ≡ (ok y, t)
      → (x : A) × (r ≡ ok x) × (k s ≡ (ok y, t))
  unfolding ◌>>◌
  check-then r k s e = check-ok r (λ _. k) s e

pub reject-ok : (b : Bool) (e : ApiError) {x : Unit {0}} → reject_if b e ≡ ok x → b ≡ false
reject-ok true e h = cc h
reject-ok false e h = refl

answered-ok : {A : Type 0} (r : Types.Result A) {x : A} → answered r ≡ ok x → r ≡ Types.ok x
answered-ok (Types.ok y) e = cc e
answered-ok (Types.err y) e = cc e

-- A method of the host that succeeds for a handler.
pub on_host-ok :
    {A : Type 0} (m : State.Action A) (s : AppState) {x : A} {t : AppState}
    → on_host m s ≡ (ok x, t)
    → ((m s.host).0 ≡ Types.ok x) × (t ≡ record s { host = (m s.host).1 })
unfolding on_host
on_host-ok m s e = (answered-ok _ (ap (λ p. p.0) e), sym (ap (λ p. p.1) e))
