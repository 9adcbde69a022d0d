-- ===== src/Service/Busy.antt =====
-- Shards with active invocations, and the HTTP service's two ways to end them:
-- cert/beamscale-critical-section/infra-runtime-host/src/main.rs.
use rust_app.Prelude.{◌<◌, ◌≡◌, ◌≢◌, true, false, some, arith, nat_eq}
use rust_app.Prelude.Dict.{lookup}
use rust_app.Prelude.Result.{Result, ok, err}
use rust_app.Host.Types
use rust_app.Host.Types.{ShardRecord, ShardStatus, EpochRequest, draining, terminated, shard_key_eq}
use rust_app.Host.Validate.{validate_execution_request}
use rust_app.Host.State.{RuntimeHost, status_from}
use rust_app.Host.Sections.{no_runtime}
use rust_app.Host.Ops
use rust_app.Host.Ops.{epoch_key}
use rust_app.Host.Refusals.{with_record-some}
use rust_app.Host.Outcomes.{Torn, terminate_ends, hibernate-terminate}
use rust_app.Service.Types.{conflict, still_active, refused, ApiError}
use rust_app.Service.Checks.{validate_shard_identity, check_runtime_epoch}
use rust_app.Service.State.{World, Setup, AppState, answered, on_host, ◌>>=◌, ◌>>◌, continue}
use rust_app.Service.Handlers.{terminate_admitted, hibernate_admitted}

module _ (world : World) (setup : Setup) (req : EpochRequest) (s : AppState) (r : ShardRecord) where
  got :
      lookup (epoch_key req) s.host.shards ≡ some r
      → Ops.get world.host setup.config req.execution_class req.tenant_id req.shard_id s.host
        ≡ (Types.ok (status_from setup.config r), s.host)
  unfolding Ops.get
  got at = with_record-some (epoch_key req) s.host at _

  busy_terminate :
      validate_shard_identity req.tenant_id req.shard_id ≡ ok tt
      → lookup (epoch_key req) s.host.shards ≡ some r
      → req.runtime_epoch ≡ r.runtime_epoch
      → 0 < r.active_invocations
      → terminate_admitted world setup req s ≡ (refused conflict still_active, s)
  unfolding terminate_admitted on_host check_runtime_epoch ◌>>=◌ ◌>>◌ continue status_from
  busy_terminate valid at same busy =
      let fits : nat_eq r.runtime_epoch req.runtime_epoch ≡ true = ground arith in
      let active : nat_eq r.active_invocations 0 ≡ false = ground arith in
      rw (valid, continue) (rw (got at) (rw (fits, active)))

  -- How the shard ends: terminated and without process and sockets where the route answers with
  -- success, draining and otherwise as it was where it fails.
  pub Ended : Result ApiError ShardStatus × AppState → Type 0
  Ended (ok status, t) =
      lookup (epoch_key req) t.host.shards ≡ some (record (no_runtime r) { state = terminated })
  Ended (err e, t) = lookup (epoch_key req) t.host.shards ≡ some (record r { state = draining })

  answered-Ended :
      (answer : Types.Result ShardStatus) (h : RuntimeHost)
      → Torn (epoch_key req) (record r { state = draining }) (answer, h)
      → Ended (answered answer, record s { host = h })
  unfolding Torn Ended
  answered-Ended (Types.ok status) h torn = torn
  answered-Ended (Types.err e) h torn = torn

  -- A shard with active invocations that is not terminated, of a policy that forbids snapshots: the
  -- route that terminates refuses a valid request of the shard's epoch and changes nothing, but the
  -- route that hibernates, with no other method in between, ends with the shard terminated and
  -- without process and sockets, or fails and leaves it draining; and it leaves what is observed
  -- of the shard's activation as it was.
  pub busy_hibernate :
      validate_shard_identity req.tenant_id req.shard_id ≡ ok tt
      → validate_execution_request req.execution_class req.execution_backend ≡ Types.ok tt
      → lookup (epoch_key req) s.host.shards ≡ some r
      → req.runtime_epoch ≡ r.runtime_epoch
      → 0 < r.active_invocations
      → r.policy.snapshot_enabled ≡ false
      → r.state ≢ terminated
      → (terminate_admitted world setup req s ≡ (refused conflict still_active, s))
        × Ended (hibernate_admitted world setup req s)
        × ((hibernate_admitted world setup req s).1.observed_activation ≡ s.observed_activation)
  unfolding hibernate_admitted on_host ◌>>◌ ◌>>=◌ continue
  busy_hibernate valid hosted at same busy off live =
      let ended = hibernate-terminate world.host setup.config req s.host r hosted at same off in
      let torn = terminate_ends world.host setup.config req s.host r hosted at same live in
      (
        busy_terminate valid at same busy,
        rw (valid, continue) (rw ended (answered-Ended _ _ torn)),
        rw (valid, continue),
      )
