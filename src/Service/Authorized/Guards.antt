-- ===== src/Service/Authorized/Guards.antt =====
-- The routes of the HTTP service that authorize their request first:
-- cert/beamscale-critical-section/infra-runtime-host/src/main.rs.
use mathlib.Core.Path.{subst}
use rust_app.Prelude.{◌∙◌, ℕ, ◌≡◌, refl, ap, ◌⊎◌, inl, inr, Option, none, some, List}
use rust_app.Prelude.Text.{Text, bytes}
use rust_app.Prelude.BTree.{text_key}
use rust_app.Prelude.Result.{Result, ok, err}
use rust_app.Auth
use rust_app.Auth.{AuthError, clock_before_epoch, RuntimeContract, SignedRequest, verify, now_unix}
use rust_app.Host.Types.{ExecutionClass, EnsureShardRequest, EpochRequest, TouchRequest}
use rust_app.Service.Types.{
  ActivateRequest, InvokeRequest, CriticalSectionRequest, RuntimeRequest, ensure_body, epoch_body,
  touch_body, activate_body, invoke_body, critical_section_body, ApiError, Answer,
}
use rust_app.Service.State.{World, Setup, AppState, Handler, continue, ◌>>=◌, ◌>>◌}
use rust_app.Service.Authority.{authorize_runtime_request}
use rust_app.Service.Handlers
use rust_app.Service.Invocations
use rust_app.Service.Guest.{
  HttpRequest, get_healthz, post_ensure, post_start, post_warm_idle, post_hibernate, post_terminate,
  post_activate, post_touch, post_invoke, post_critical_section, get_activation, get_metering,
  get_shard, activate, replying, serve,
}
use rust_app.Service.Steps.{Steady, bind-Steady, pure-Steady}
use rust_app.Service.Kept
use rust_app.Service.Kept.Guest as KeptGuest

-- The operation, the request and the contract that a route authorizes.
pub record Signed : Type 0 where
  pub operation : Text
  pub body : RuntimeRequest
  pub contract : RuntimeContract

abbrev pub signed : Text → RuntimeRequest → RuntimeContract → Option Signed
signed operation body contract =
    some (record { operation = operation; body = body; contract = contract })

abbrev pub signed_of : HttpRequest → Option Signed
signed_of (post_ensure r) = signed (bytes "ensure") (ensure_body r.request) r.contract
signed_of (post_start r) = signed (bytes "start") (epoch_body r.request) r.contract
signed_of (post_warm_idle r) = signed (bytes "warm_idle") (epoch_body r.request) r.contract
signed_of (post_hibernate r) = signed (bytes "hibernate") (epoch_body r.request) r.contract
signed_of (post_terminate r) = signed (bytes "terminate") (epoch_body r.request) r.contract
signed_of (post_activate r) = signed (bytes "activate") (activate_body r.request) r.contract
signed_of (post_touch r) = signed (bytes "touch") (touch_body r.request) r.contract
signed_of (post_invoke r) = signed (bytes "invoke") (invoke_body r.request) r.contract
signed_of (post_critical_section r) =
    signed (bytes "critical-section") (critical_section_body r.request) r.contract
signed_of _ = none

continue_assoc :
    {A B C : Type 0} (p : Result ApiError A × AppState) (f : A → Handler B) (g : B → Handler C)
    → continue (continue p f) g ≡ continue p (λ x. f x >>= g)
unfolding continue ◌>>=◌
continue_assoc (ok x, s) f g = refl
continue_assoc (err e, s) f g = refl

pub Result-cases :
    {A : Type 0} (r : Auth.Result A)
    → ((e : AuthError) × (r ≡ Auth.err e)) ⊎ ((x : A) × (r ≡ Auth.ok x))
Result-cases (Auth.err e) = inl (e, refl)
Result-cases (Auth.ok x) = inr (x, refl)

-- What an authorization leaves alone.
pub record Untouched (s t : AppState) : Type 0 where
  pub same_host : t.host ≡ s.host
  pub same_store : t.store_calls ≡ s.store_calls
  pub same_wire : t.wire_calls ≡ s.wire_calls
  pub same_observed : t.observed_activation ≡ s.observed_activation

pub untouched :
    {s : AppState} {reads : ℕ} {nonces : List (Text × ℕ)}
    → Untouched s (record s { clock_reads = reads; consumed_nonces = nonces })
untouched = record { same_host = refl; same_store = refl; same_wire = refl; same_observed = refl }

module _ (world : World) (setup : Setup) where
  abbrev pub authorize : Signed → Handler (Unit {0})
  authorize r = authorize_runtime_request world setup r.operation r.body r.contract

  -- A signed route authorizes its request first; what follows keeps what a step keeps.
  pub record IsGuarded (req : HttpRequest) (r : Signed) : Type 0 where
    pub rest : Handler Answer
    pub guarded : (s : AppState) → serve world setup req s ≡ continue (authorize r s) (λ _. rest)
    pub steady : Steady rest

  replied-IsGuarded :
      {A : Type 0} (req : HttpRequest) (r : Signed) (f : A → Answer) (m : Handler A)
      → serve world setup req ≡ replying f (authorize r >> m)
      → Steady m
      → IsGuarded req r
  unfolding ◌>>=◌ ◌>>◌
  replied-IsGuarded req r f m shape steady = record {
    rest = replying f m;
    guarded = λ s. ap (λ (h : Handler Answer). h s) shape ∙ continue_assoc (authorize r s) _ _;
    steady = bind-Steady m _ steady (λ x. pure-Steady _);
  }

  -- A route that takes no contract changes no more than what follows an authorization.
  abbrev Guard : HttpRequest → Option Signed → Type 0
  Guard req none = Steady (serve world setup req)
  Guard req (some r) = IsGuarded req r

  ensure-Guard :
      (q : SignedRequest EnsureShardRequest) → Guard (post_ensure q) (signed_of (post_ensure q))
  unfolding serve Handlers.ensure
  ensure-Guard q =
      replied-IsGuarded _ _ _ _ refl (Kept.ensure_admitted-Steady world setup q.request)

  start-Guard : (q : SignedRequest EpochRequest) → Guard (post_start q) (signed_of (post_start q))
  unfolding serve Handlers.start
  start-Guard q = replied-IsGuarded _ _ _ _ refl (Kept.start_admitted-Steady world setup q.request)

  warm_idle-Guard :
      (q : SignedRequest EpochRequest) → Guard (post_warm_idle q) (signed_of (post_warm_idle q))
  unfolding serve Handlers.warm_idle
  warm_idle-Guard q =
      replied-IsGuarded _ _ _ _ refl (Kept.warm_idle_admitted-Steady world setup q.request)

  hibernate-Guard :
      (q : SignedRequest EpochRequest) → Guard (post_hibernate q) (signed_of (post_hibernate q))
  unfolding serve Handlers.hibernate
  hibernate-Guard q =
      replied-IsGuarded _ _ _ _ refl (Kept.hibernate_admitted-Steady world setup q.request)

  terminate-Guard :
      (q : SignedRequest EpochRequest) → Guard (post_terminate q) (signed_of (post_terminate q))
  unfolding serve Handlers.terminate
  terminate-Guard q =
      replied-IsGuarded _ _ _ _ refl (Kept.terminate_admitted-Steady world setup q.request)

  activate-Guard :
      (q : SignedRequest ActivateRequest) → Guard (post_activate q) (signed_of (post_activate q))
  unfolding serve activate
  activate-Guard q =
      replied-IsGuarded _ _ _ _ refl (KeptGuest.activate_admitted-Steady world setup q.request)

  touch-Guard : (q : SignedRequest TouchRequest) → Guard (post_touch q) (signed_of (post_touch q))
  unfolding serve Handlers.touch
  touch-Guard q = replied-IsGuarded _ _ _ _ refl (Kept.touch_admitted-Steady world setup q.request)

  invoke-Guard :
      (q : SignedRequest InvokeRequest) → Guard (post_invoke q) (signed_of (post_invoke q))
  unfolding serve Invocations.invoke
  invoke-Guard q =
      replied-IsGuarded _ _ _ _ refl (KeptGuest.invoke_admitted-Steady world setup q.request)

  critical_section-Guard :
      (q : SignedRequest CriticalSectionRequest)
      → Guard (post_critical_section q) (signed_of (post_critical_section q))
  unfolding serve Invocations.critical_section
  critical_section-Guard q =
      replied-IsGuarded _ _ _ _ refl
        (KeptGuest.critical_section_admitted-Steady world setup q.request)

  activation-Steady :
      (class : ExecutionClass) (tenant id : Text)
      → Steady (serve world setup (get_activation class tenant id))
  unfolding serve
  activation-Steady class tenant id =
      bind-Steady _ _ (Kept.get_activation-Steady world setup class tenant id) (λ x. pure-Steady _)

  metering-Steady :
      (class : ExecutionClass) (tenant id : Text)
      → Steady (serve world setup (get_metering class tenant id))
  unfolding serve
  metering-Steady class tenant id =
      bind-Steady _ _ (Kept.get_metering-Steady world setup class tenant id) (λ x. pure-Steady _)

  shard-Steady :
      (class : ExecutionClass) (tenant id : Text)
      → Steady (serve world setup (get_shard class tenant id))
  unfolding serve
  shard-Steady class tenant id =
      bind-Steady _ _ (Kept.get_shard-Steady world setup class tenant id) (λ x. pure-Steady _)

  healthz-Steady : Steady (serve world setup get_healthz)
  unfolding serve
  healthz-Steady = pure-Steady _

  serve-Guard : (req : HttpRequest) → Guard req (signed_of req)
  serve-Guard (post_ensure q) = ensure-Guard q
  serve-Guard (post_start q) = start-Guard q
  serve-Guard (post_warm_idle q) = warm_idle-Guard q
  serve-Guard (post_hibernate q) = hibernate-Guard q
  serve-Guard (post_terminate q) = terminate-Guard q
  serve-Guard (post_activate q) = activate-Guard q
  serve-Guard (post_touch q) = touch-Guard q
  serve-Guard (post_invoke q) = invoke-Guard q
  serve-Guard (post_critical_section q) = critical_section-Guard q
  serve-Guard get_healthz = healthz-Steady
  serve-Guard (get_activation class tenant id) = activation-Steady class tenant id
  serve-Guard (get_metering class tenant id) = metering-Steady class tenant id
  serve-Guard (get_shard class tenant id) = shard-Steady class tenant id

  pub serve-IsGuarded : (req : HttpRequest) (r : Signed) → signed_of req ≡ some r → IsGuarded req r
  serve-IsGuarded req r e = subst (Guard req) e (serve-Guard req)

  pub open-Steady : (req : HttpRequest) → signed_of req ≡ none → Steady (serve world setup req)
  open-Steady req e = subst (Guard req) e (serve-Guard req)
