-- ===== src/Service/Counted.antt =====
-- How the HTTP service counts the invocations of a shard:
-- cert/beamscale-critical-section/infra-runtime-host/src/main.rs.

use rust_app.Prelude.{
  ◌∙◌, ℕ, ◌<◌, ◌≡◌, refl, sym, ap, true, false, Bool, if◌then◌else◌, Option, some, arith, u32_max,
}
use rust_app.Prelude.Text.{Text}
use rust_app.Prelude.Dict.{lookup, lookup-insert_self}
use rust_app.Prelude.Result.{Result, ok, err}
use rust_app.Host.Types
use rust_app.Host.Types.{ShardRecord, LifecycleState, hot, pos, negsuc, shard_key_eq}
use rust_app.Host.Validate.{validate_execution_request}
use rust_app.Host.Sections.{touched, saturating_add64}
use rust_app.Store
use rust_app.Store.{ArtifactStoreError}
use rust_app.Service.Types.{
  InvokeRequest, invoke_body, RuntimeRequest, ApiError, execution_class, execution_backend,
  runtime_epoch,
}
use rust_app.Service.Checks.{is_running}
use rust_app.Service.State.{
  World, Setup, AppState, Handler, attempt, on_store, on_wire, ◌>>=◌, ◌>>◌, continue, on_host,
}
use rust_app.Service.Invocations.{
  is_mock, speak, invoke_transport, admit, counted, count_out, touch_request, response_length,
}
use rust_app.Service.Admitted.Looked.{touch-at, touch_record-writes}
use rust_app.Service.Admitted.{request_key, Admitted, admit-Admitted}

-- A record that was counted in and out again: nothing is active any more than before, one request
-- has been counted, and the bytes of the request and of the response.
pub record Balanced (ingress egress : ℕ) (r v : ShardRecord) : Type 0 where
  pub same_active : v.active_invocations ≡ r.active_invocations
  pub one_request : v.request_count ≡ saturating_add64 r.request_count 1
  pub request_bytes : v.ingress_bytes ≡ saturating_add64 r.ingress_bytes ingress
  pub response_bytes : v.egress_bytes ≡ saturating_add64 r.egress_bytes egress
  pub runs_hot : v.state ≡ hot
  pub same_epoch : v.runtime_epoch ≡ r.runtime_epoch

touched-Balanced :
    (req : RuntimeRequest) (ingress egress now later : ℕ) (r : ShardRecord)
    → is_running r.state ≡ true
    → r.active_invocations < u32_max
    → Balanced ingress egress r (
        touched
          (touch_request req (negsuc 0) 0 egress)
          later
          (touched (touch_request req (pos 1) ingress 0) now r))
unfolding touched touch_request
touched-Balanced req ingress egress now later r runs room = ground arith

module _ (world : World) (setup : Setup) (req : RuntimeRequest) where
  -- A record that the host holds under the key of the request.
  abbrev pub Holds : ShardRecord → AppState → Type 0
  Holds r s = lookup (request_key req) s.host.shards ≡ some r

  mid_epoch :
      {digest : Text} {n : ℕ} {s t : AppState} {target : Text × Option Text}
      (a : Admitted world setup req digest n s t target)
      → runtime_epoch req ≡ (touched (touch_request req (pos 1) n 0) a.now a.shard).runtime_epoch
  unfolding touched
  mid_epoch a = let same = a.same_epoch in ground arith

  count_out-touched :
      (result : Result ApiError Text) (u : AppState) (r : ShardRecord)
      → validate_execution_request (execution_class req) (execution_backend req) ≡ Types.ok tt
      → Holds r u
      → r.runtime_epoch ≡ runtime_epoch req
      → (later : ℕ) × ((count_out world setup req result u).0 ≡ result)
        × Holds
            (touched (touch_request req (negsuc 0) 0 (response_length result)) later r)
            (count_out world setup req result u).1
  unfolding count_out ◌>>◌ ◌>>=◌ on_host continue touch_request
  count_out-touched result u r valid at same =
      let touching = touch_request req (negsuc 0) 0 (response_length result) in
      let moved = touch-at world.host setup.config touching u.host valid at (sym same) in
      let (later, done, written) = touch_record-writes world.host setup.config touching u.host r in
      (
        later,
        rw (moved, done),
        rw (moved, done) (ap (lookup (request_key req)) written ∙ lookup-insert_self _ _ _),
      )

  attempted :
      {A : Type 0} (m : Handler A) (k : Result ApiError A → Handler Text) (u : AppState)
      → (attempt m >>= k) u ≡ k (m u).0 (m u).1
  unfolding ◌>>=◌ continue
  attempted m k u = refl

  bound :
      {A B : Type 0} (m : Handler A) (f : A → Handler B) {s t : AppState} {x : A}
      → m s ≡ (ok x, t)
      → (m >>= f) s ≡ f x t
  unfolding ◌>>=◌ continue
  bound m f e = rw (e, continue)

  -- An admitted invocation whose transport does not call the host is counted out again, whatever
  -- came of it, with no other handler in between: the shard is hot, has as many active
  -- invocations as before, one more request and the bytes of the request and of the response, and
  -- the result is the transport's. There is room for one more invocation.
  pub counted-Balanced :
      (digest : Text) (n : ℕ) (transport : Text × Option Text → Handler Text) (s t : AppState)
      (target : Text × Option Text)
      → admit world setup req digest n s ≡ (ok target, t)
      → (transport target t).1.host ≡ t.host
      → ((r : ShardRecord) → Holds r s → r.active_invocations < u32_max)
      → (r v : ShardRecord) × Holds r s
        × Holds v (counted world setup req digest n transport s).1
        × Balanced n (response_length (transport target t).0) r v
        × ((counted world setup req digest n transport s).0 ≡ (transport target t).0)
  unfolding counted
  counted-Balanced digest n transport s t target admitted quiet room =
      let a = admit-Admitted world setup req digest n s t target admitted in
      let mid = touched (touch_request req (pos 1) n 0) a.now a.shard in
      let u = (transport target t).1 in
      let result = (transport target t).0 in
      let held : Holds mid u =
        ap (λ h. lookup (request_key req) h.shards) quiet
        ∙ ap (lookup (request_key req)) a.counted_in
        ∙ lookup-insert_self (request_key req) mid s.host.shards in
      let (later, done, at) = count_out-touched result u mid a.hosted held (sym (mid_epoch a)) in
      let through : counted world setup req digest n transport s
          ≡ count_out world setup req result u =
        bound _ _ admitted ∙ attempted (transport target) (count_out world setup req) t in
      (
        a.shard,
        touched (touch_request req (negsuc 0) 0 (response_length result)) later mid,
        a.found,
        ap (λ p. lookup (request_key req) p.1.host.shards) through ∙ at,
        touched-Balanced req n (response_length result) a.now later a.shard a.runs
            (room a.shard a.found),
        ap (λ p. p.0) through ∙ done,
      )

-- What leaves the host alone.
abbrev Quiet : {A : Type 0} → Handler A → Type 0
Quiet m = (s : AppState) → (m s).1.host ≡ s.host

module _ {A B : Type 0} where
  continue-Quiet :
      (s : AppState) (p : Result ApiError A × AppState) (f : A → Handler B)
      → p.1.host ≡ s.host
      → ((x : A) → Quiet (f x))
      → (continue p f).1.host ≡ s.host
  unfolding continue
  continue-Quiet s (ok x, t) f first later = later x t ∙ first
  continue-Quiet s (err e, t) f first later = first

  bind-Quiet :
      (m : Handler A) (f : A → Handler B) → Quiet m → ((x : A) → Quiet (f x)) → Quiet (m >>= f)
  unfolding ◌>>=◌
  bind-Quiet m f first later s = continue-Quiet s (m s) f (first s) later

  then-Quiet : (m : Handler A) (k : Handler B) → Quiet m → Quiet k → Quiet (m >> k)
  unfolding ◌>>◌
  then-Quiet m k first later = bind-Quiet m (λ _. k) first (λ _. later)

module _ (world : World) (setup : Setup) where
  speak-Quiet :
      (path content : Text) (timeout_ms : ℕ) → Quiet (speak world setup path content timeout_ms)
  unfolding on_wire
  speak-Quiet path content timeout_ms s = refl

  store-Quiet :
      {A : Type 0} (f : ArtifactStoreError → ApiError) (m : Store.Io A) → Quiet (on_store f m)
  unfolding on_store
  store-Quiet f m s = refl

  if-Quiet :
      {A : Type 0} (b : Bool) (m k : Handler A) → Quiet m → Quiet k → Quiet (if b then m else k)
  if-Quiet true m k first later = first
  if-Quiet false m k first later = later

  invoke_transport-Quiet :
      (req : InvokeRequest) (digest content : Text) (target : Text × Option Text)
      → Quiet (invoke_transport world setup req digest content target)
  unfolding invoke_transport
  invoke_transport-Quiet req digest content (backend, path) =
      if-Quiet (is_mock backend) _ _ (λ s. refl)
        (then-Quiet _ _ (store-Quiet _ _)
          (bind-Quiet _ _ (λ s. refl) λ found. speak-Quiet found content req.timeout_ms))

  -- An invocation that is admitted is counted out again, whatever came of its transport, with no
  -- other handler in between: the shard is hot, has as many active invocations as before, one more
  -- request and the bytes of the request and of the response, and the result is the transport's.
  -- There is room for one more invocation.
  pub invoke-Balanced :
      (req : InvokeRequest) (digest content : Text) (n : ℕ) (s t : AppState)
      (target : Text × Option Text)
      → admit world setup (invoke_body req) digest n s ≡ (ok target, t)
      → ((r : ShardRecord)
          → Holds world setup (invoke_body req) r s
          → r.active_invocations < u32_max)
      → let result = (invoke_transport world setup req digest content target t).0 in
        let end =
          counted world setup
            (invoke_body req)
            digest
            n
            (invoke_transport world setup req digest content)
            s in
        (r v : ShardRecord) × Holds world setup (invoke_body req) r s
        × Holds world setup (invoke_body req) v end.1
        × Balanced n (response_length result) r v
        × (end.0 ≡ result)
  invoke-Balanced req digest content n s t target admitted room =
      counted-Balanced world setup (invoke_body req) digest n
        (invoke_transport world setup req digest content) s t target admitted
        (invoke_transport-Quiet req digest content target t) room
