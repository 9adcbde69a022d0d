-- ===== src/Service/Handlers.antt =====
-- The handlers of shards of the HTTP service,
-- cert/beamscale-critical-section/infra-runtime-host/src/main.rs: each authorizes its request,
-- checks it, and calls the host. The handlers that speak with a guest are in Service/Guest.antt.
use rust_app.Prelude.{Bool, true, false, not, ◌&&◌, ◌||◌, nat_eq, if◌then◌else◌}
use rust_app.Prelude.Text.{Text, bytes, text_eq}
use rust_app.Prelude.Result.{ok, err, reject_if}
use rust_app.Prelude.Dict.{lookup}
use rust_app.Host.Types
use rust_app.Host.Types.{
  ExecutionClass, ShardStatus, MeteringSample, EnsureShardRequest, EpochRequest, TouchRequest,
  LifecycleState, cold, terminated, unknown_shard,
}
use rust_app.Host.Ops
use rust_app.Host.Metering
use rust_app.Host.Sweep
use rust_app.Auth.{SignedRequest}
use rust_app.Service.Types.{
  ensure_body, epoch_body, touch_body, bad_request, conflict, activate_required, active_delta_range,
  still_active, api_error, refused, ActivationStatus,
}
use rust_app.Service.Checks.{
  Check, validate_shard_identity, requested_digest, is_unit_delta, check_runtime_epoch, map_err,
}
use rust_app.Service.Activations.{
  clear_observed_for_shard, shard_epoch_key, shard_epoch_key_eq, placement_digest,
  activation_status,
}
use rust_app.Service.Authority.{authorize_runtime_request}
use rust_app.Service.State.{World, Setup, AppState, Handler, ◌>>=◌, ◌>>◌, pure, check, on_host}

abbrev pub is_stopped : LifecycleState → Bool
is_stopped cold = true
is_stopped terminated = true
is_stopped _ = false

-- `ensure` of a shard that is there: whether what was observed of it is cleared.
unfoldable pub check_replacement : EnsureShardRequest → Text → ShardStatus → Check Bool
check_replacement req requested current = elim (placement_digest current) [
  | err e ↦ err e
  | ok placement ↦
      let digest_changed = not (text_eq requested placement) in
      if nat_eq current.runtime_epoch req.runtime_epoch
        && digest_changed
        && not (is_stopped current.state)
      then refused conflict activate_required
      else ok (not (nat_eq current.runtime_epoch req.runtime_epoch) || digest_changed)
]

-- The `match` on what the host knows of the shard, and the check that follows.
unfoldable pub check_existing : EnsureShardRequest → Text → Types.Result ShardStatus → Check Bool
check_existing req requested (Types.ok current) = check_replacement req requested current
check_existing req requested (Types.err unknown_shard) = ok true
check_existing req requested (Types.err e) = err (map_err e)

module _ (world : World) (setup : Setup) where
  abbrev pub host_get : ExecutionClass → Text → Text → Handler ShardStatus
  host_get class tenant shard = on_host (Ops.get world.host setup.config class tenant shard)

  -- The same with the error of the host as a value.
  abbrev pub host_look : ExecutionClass → Text → Text → Handler (Types.Result ShardStatus)
  host_look class tenant shard s =
      let (r, host) = Ops.get world.host setup.config class tenant shard s.host in
      (ok r, record s { host = host })

  abbrev pub clear_if : Bool → ExecutionClass → Text → Text → Handler (Unit {0})
  clear_if true class tenant shard = clear_observed_for_shard class tenant shard
  clear_if false class tenant shard = pure tt

  unfoldable pub ensure_admitted : EnsureShardRequest → Handler ShardStatus
  ensure_admitted req = do
    check (validate_shard_identity req.tenant_id req.shard_id)
    requested ← check (requested_digest req.deployment_digest)
    existing ← host_look req.execution_class req.tenant_id req.shard_id
    clear_observed ← check (check_existing req requested existing)
    status ← on_host (Ops.ensure world.host setup.config req)
    clear_if clear_observed req.execution_class req.tenant_id req.shard_id
    pure status

  unfoldable pub ensure : SignedRequest EnsureShardRequest → Handler ShardStatus
  ensure signed = do
    authorize_runtime_request world setup (bytes "ensure") (ensure_body signed.request)
        signed.contract
    ensure_admitted signed.request

  unfoldable pub start_admitted : EpochRequest → Handler ShardStatus
  start_admitted req = do
    check (validate_shard_identity req.tenant_id req.shard_id)
    on_host (Ops.start world.host setup.config req)

  unfoldable pub start : SignedRequest EpochRequest → Handler ShardStatus
  start signed = do
    authorize_runtime_request world setup (bytes "start") (epoch_body signed.request)
        signed.contract
    start_admitted signed.request

  unfoldable pub touch_admitted : TouchRequest → Handler ShardStatus
  touch_admitted req = do
    check (validate_shard_identity req.tenant_id req.shard_id)
    check (
        reject_if (not (is_unit_delta req.active_delta)) (api_error bad_request active_delta_range))
    on_host (Ops.touch world.host setup.config req)

  unfoldable pub touch : SignedRequest TouchRequest → Handler ShardStatus
  touch signed = do
    authorize_runtime_request world setup (bytes "touch") (touch_body signed.request)
        signed.contract
    touch_admitted signed.request

  unfoldable pub warm_idle_admitted : EpochRequest → Handler ShardStatus
  warm_idle_admitted req = do
    check (validate_shard_identity req.tenant_id req.shard_id)
    on_host (Ops.mark_warm_idle world.host setup.config req)

  unfoldable pub warm_idle : SignedRequest EpochRequest → Handler ShardStatus
  warm_idle signed = do
    authorize_runtime_request world setup (bytes "warm_idle") (epoch_body signed.request)
        signed.contract
    warm_idle_admitted signed.request

  unfoldable pub hibernate_admitted : EpochRequest → Handler ShardStatus
  hibernate_admitted req = do
    check (validate_shard_identity req.tenant_id req.shard_id)
    on_host (Ops.hibernate world.host setup.config req)

  unfoldable pub hibernate : SignedRequest EpochRequest → Handler ShardStatus
  hibernate signed = do
    authorize_runtime_request world setup (bytes "hibernate") (epoch_body signed.request)
        signed.contract
    hibernate_admitted signed.request

  unfoldable pub terminate_admitted : EpochRequest → Handler ShardStatus
  terminate_admitted req = do
    check (validate_shard_identity req.tenant_id req.shard_id)
    current ← host_get req.execution_class req.tenant_id req.shard_id
    check (check_runtime_epoch current req.runtime_epoch)
    check (reject_if (not (nat_eq current.active_invocations 0)) (api_error conflict still_active))
    status ← on_host (Ops.terminate world.host setup.config req)
    clear_observed_for_shard req.execution_class req.tenant_id req.shard_id
    pure status

  unfoldable pub terminate : SignedRequest EpochRequest → Handler ShardStatus
  terminate signed = do
    authorize_runtime_request world setup (bytes "terminate") (epoch_body signed.request)
        signed.contract
    terminate_admitted signed.request

  unfoldable pub get_activation : ExecutionClass → Text → Text → Handler ActivationStatus
  get_activation class tenant shard = do
    check (validate_shard_identity tenant shard)
    status ← host_get class tenant shard
    λ s.
        let key = shard_epoch_key class tenant shard status.runtime_epoch in
        (ok (activation_status status (lookup key s.observed_activation)), s)

  unfoldable pub get_metering : ExecutionClass → Text → Text → Handler MeteringSample
  get_metering class tenant shard = do
    check (validate_shard_identity tenant shard)
    on_host (Metering.metering world.host setup.config class tenant shard)

  unfoldable pub get_shard : ExecutionClass → Text → Text → Handler ShardStatus
  get_shard class tenant shard = do
    check (validate_shard_identity tenant shard)
    host_get class tenant shard

  -- One round of the sweeper's loop.
  unfoldable pub sweep : AppState → AppState
  sweep s = record s { host = Sweep.sweep_once world.host setup.config s.host }
