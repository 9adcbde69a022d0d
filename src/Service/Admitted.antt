-- ===== src/Service/Admitted.antt =====
-- The invocations that the HTTP service admits, and how it counts them:
-- cert/beamscale-critical-section/infra-runtime-host/src/main.rs.
pub mod Looked
use mathlib.Core.Path.{subst}
use rust_app.Prelude.{
  ◌∙◌, ℕ, ◌≡◌, ◌∷◌, refl, sym, ap, inl, inr, true, Bool, Option, none, some, arith, Option-cases,
}
use rust_app.Prelude.Text.{Text, text_eq_iff}
use rust_app.Prelude.Dict.{lookup, insert}
use rust_app.Prelude.BTree.{text_key, is_some}
use rust_app.Prelude.Result.{Result, ok, err}
use rust_app.Host.Types
use rust_app.Host.Types.{
  HostConfig, ShardKey, ShardRecord, ShardStatus, TouchRequest, LifecycleState, hot, warm_idle, pos,
  negsuc, shard_key_eq, backend_name,
}
use rust_app.Auth.Checks.{not-false}
use rust_app.Host.System.{Env, system_time}
use rust_app.Host.State
use rust_app.Host.State.{RuntimeHost, status_from}
use rust_app.Host.Sections.{touched, touch_section, touch_record}
use rust_app.Host.Validate.{validate_execution_request}
use rust_app.Host.Refusals.{at_epoch-current}
use rust_app.Host.Ops
use rust_app.Host.Ops.{touch_key}
use rust_app.Service.Types.{
  Message, RuntimeRequest, ObservedActivation, tenant_id, shard_id, execution_class,
  execution_backend, runtime_epoch, ApiError,
}
use rust_app.Service.Checks.{normalize_build_digest, check_runtime_epoch, is_running}
use rust_app.Service.State.{World, Setup, AppState, Handler, ◌>>=◌, on_host}
use rust_app.Service.Activations.{status_key, shard_epoch_key_eq, allowed_by, deployment_allowed}
use rust_app.Service.Handlers.{host_get}
use rust_app.Service.Invocations.{admit_found, admit, touch_request}
use rust_app.Service.Kept.{get-same}
use rust_app.Service.Results.{bind-ok, then-ok, check-ok, check-then, reject-ok, on_host-ok}
use rust_app.Service.Admitted.Looked.{get-ok, touch_record-writes, touch-ok}

contains-lookup : (o : Option (Unit {0})) → is_some o ≡ true → o ≡ some tt
contains-lookup none e = cc e
contains-lookup (some _) e = refl

same_epoch :
    (status : ShardStatus) {requested : ℕ} {x : Unit {0}}
    → check_runtime_epoch status requested ≡ ok x
    → status.runtime_epoch ≡ requested
unfolding check_runtime_epoch
same_epoch status e = ground arith

some_injective : {A : Type 0} {x y : A} → some x ≡ some y → x ≡ y
some_injective e = cc e

same_answer : {A : Type 0} {x y : A} → Path (Result ApiError A) (ok x) (ok y) → y ≡ x
same_answer e = cc e

-- The shard of a request.
abbrev pub request_key : RuntimeRequest → ShardKey
request_key req = record {
  execution_class = execution_class req;
  tenant_id = tenant_id req;
  shard_id = shard_id req;
}

-- A deployment that may be invoked: it is observed as loaded in the shard's epoch, or nothing is
-- observed and it is the one that the host holds.
abbrev pub IsAllowed : ShardStatus → Text → Option ObservedActivation → Type 0
IsAllowed status digest (some o) = lookup digest o.loaded_deployment_ids ≡ some tt
IsAllowed status digest none = normalize_build_digest status.deployment_digest ≡ ok digest

allowed_by-IsAllowed :
    (status : ShardStatus) (digest : Text) (o : Option ObservedActivation)
    → allowed_by status digest o ≡ ok true
    → IsAllowed status digest o
allowed_by-IsAllowed status digest (some o) e =
    contains-lookup (lookup digest o.loaded_deployment_ids) (cc e)
allowed_by-IsAllowed status digest none e =
    placed (normalize_build_digest status.deployment_digest) refl e
  where
    placed :
        (r : Result Message Text)
        → normalize_build_digest status.deployment_digest ≡ r
        → allowed_by status digest none ≡ ok true
        → normalize_build_digest status.deployment_digest ≡ ok digest
    placed (ok p) at e = ground (arith, text_eq_iff p digest)
    placed (err m) at e = cc (rw (at, allowed_by) at e)

decided :
    {B : Type 0} (status : ShardStatus) (digest : Text) (f : Bool → Handler B) (s : AppState)
    {y : B} {t : AppState}
    → (deployment_allowed status digest >>= f) s ≡ (ok y, t)
    → (b : Bool) × (allowed_by status digest (lookup (status_key status) s.observed_activation)
        ≡ ok b)
      × (f b s ≡ (ok y, t))
unfolding deployment_allowed ◌>>=◌
decided status digest f s e = check-ok (allowed_by status digest _) f s e

module _ (world : World) (setup : Setup) where
  host_get-ok :
      (key : ShardKey) (s s1 : AppState) {status : ShardStatus}
      → host_get world setup key.execution_class key.tenant_id key.shard_id s ≡ (ok status, s1)
      → (r : ShardRecord) × (lookup key s.host.shards ≡ some r)
        × (status ≡ status_from setup.config r)
        × (s1 ≡ s)
  host_get-ok key s s1 e =
      let (answer, after) = on_host-ok _ s e in
      let (r, at, same) = get-ok world.host setup.config key s.host answer in
      (
        r,
        at,
        same,
        after
            ∙ ap (λ h. record s { host = h })
                (get-same world setup key.execution_class key.tenant_id key.shard_id s.host),
      )

module _ (world : World) (setup : Setup) (req : RuntimeRequest) where
  -- An admission: the shard is there and runs, in the epoch of the request, with the deployment,
  -- and is touched.
  pub record Admitted (digest : Text) (n : ℕ) (s t : AppState) (target : Text × Option Text)
      : Type 0 where
    pub shard : ShardRecord
    pub found : lookup (request_key req) s.host.shards ≡ some shard
    pub same_epoch : shard.runtime_epoch ≡ runtime_epoch req
    pub hosted :
        validate_execution_request (execution_class req) (execution_backend req) ≡ Types.ok tt
    pub runs : is_running shard.state ≡ true
    pub same_target : target ≡ (backend_name setup.config.backend, shard.vsock_path)
    pub allowed :
        IsAllowed
          (status_from setup.config shard)
          digest
          (lookup (status_key (status_from setup.config shard)) s.observed_activation)
    pub now : ℕ
    pub counted_in :
        t.host.shards
        ≡ insert (request_key req) (touched (touch_request req (pos 1) n 0) now shard) s.host.shards

  admit_found-ok :
      (digest : Text) (n : ℕ) (status : ShardStatus) (s t : AppState) (target : Text × Option Text)
      → admit_found world setup req digest n status s ≡ (ok target, t)
      → (status.runtime_epoch ≡ runtime_epoch req)
        × (is_running status.state ≡ true)
        × (target ≡ (status.backend, status.vsock_path))
        × (allowed_by status digest (lookup (status_key status) s.observed_activation) ≡ ok true)
        × ((x : ShardStatus) × (on_host
                (Ops.touch world.host setup.config (touch_request req (pos 1) n 0))
                s
              ≡ (ok x, t)))
  unfolding admit_found
  admit_found-ok digest n status s t target e =
      let (_, epoch, e2) = check-then _ _ s e in
      let (_, class, e3) = check-then _ _ s e2 in
      let (_, running, e4) = check-then _ _ s e3 in
      let (loaded, allowed, e5) = decided status digest _ s e4 in
      let (_, accepted, e6) = check-then _ _ s e5 in
      let (x, u, touches, e7) = then-ok _ _ s e6 in
      (
        same_epoch status epoch,
        not-false _ (reject-ok _ _ running),
        same_answer (ap (λ p. p.0) e7),
        allowed ∙ ap ok (not-false loaded (reject-ok _ _ accepted)),
        (x, touches ∙ ap (λ v. (ok x, v)) (ap (λ p. p.1) e7)),
      )

  Admitted-from :
      (digest : Text) (n : ℕ) (s t : AppState) (target : Text × Option Text) (status : ShardStatus)
      (s1 : AppState)
      → host_get world setup (execution_class req) (tenant_id req) (shard_id req) s
        ≡ (ok status, s1)
      → (status.runtime_epoch ≡ runtime_epoch req)
        × (is_running status.state ≡ true)
        × (target ≡ (status.backend, status.vsock_path))
        × (allowed_by status digest (lookup (status_key status) s1.observed_activation) ≡ ok true)
        × ((x : ShardStatus) × (on_host
                (Ops.touch world.host setup.config (touch_request req (pos 1) n 0))
                s1
              ≡ (ok x, t)))
      → Admitted digest n s t target
  unfolding status_from touch_request
  Admitted-from digest n s t target status s1 looked (epoch, runs, same, allowed, (x, touches)) =
      let (r, at, st, same_s) = host_get-ok world setup (request_key req) s s1 looked in
      let (answer, after) = on_host-ok _ s1 touches in
      let touching = touch_request req (pos 1) n 0 in
      let (r', valid, at', _, writes) = touch-ok world.host setup.config touching s1.host answer in
      let (now, _, written) = touch_record-writes world.host setup.config touching s1.host r' in
      let same_shards : s1.host.shards ≡ s.host.shards = ap (λ u. u.host.shards) same_s in
      let same_r : r' ≡ r =
        some_injective (sym at' ∙ ap (lookup (request_key req)) same_shards ∙ at) in
      record {
        shard = r;
        found = at;
        same_epoch = sym (ap (λ v. v.runtime_epoch) st) ∙ epoch;
        hosted = valid;
        runs = sym (ap (λ v. is_running v.state) st) ∙ runs;
        same_target = same ∙ ap (λ v. (v.backend, v.vsock_path)) st;
        allowed =
            subst (λ v. IsAllowed v digest (lookup (status_key v) s.observed_activation)) st
              (subst
                (λ u. IsAllowed status digest (lookup (status_key status) u.observed_activation))
                same_s (allowed_by-IsAllowed status digest _ allowed));
        now = now;
        counted_in =
            ap (λ u. u.host.shards) after
            ∙ ap (λ v. v.1.shards) writes
            ∙ written
            ∙ ap (λ d. insert (request_key req) (touched touching now r') d) same_shards
            ∙ ap (λ v. insert (request_key req) (touched touching now v) s.host.shards) same_r;
      }

  -- An invocation that is admitted is for a shard of the request's epoch that is hot or warm and
  -- idle, on a host of its class and backend, and for a deployment that is observed as loaded in
  -- that epoch or, where nothing is observed, is the one that the host holds. The call goes to the
  -- shard's backend and socket, and the host has counted it and its bytes in, and nothing else.
  pub admit-Admitted :
      (digest : Text) (n : ℕ) (s t : AppState) (target : Text × Option Text)
      → admit world setup req digest n s ≡ (ok target, t)
      → Admitted digest n s t target
  unfolding admit
  admit-Admitted digest n s t target e =
      let (status, s1, looked, e1) = bind-ok _ _ s e in
      Admitted-from digest n s t target status s1 looked
        (admit_found-ok digest n status s1 t target e1)
