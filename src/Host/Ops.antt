-- ===== src/Host/Ops.antt =====
-- The public methods of `RuntimeHost`, in
-- cert/beamscale-critical-section/infra-runtime-host/src/lib.rs: each validates its request, and
-- goes through its sections (Host/Sections.antt) and, between them, the work on the virtual
-- machine (Host/Vm.antt).
use rust_app.Prelude.{Bool, true, false}
use rust_app.Prelude.Text.{Text, bytes}
use rust_app.Host.Types.{
  RuntimeHandles, err, ok, Result, ShardKey, ShardRecord, ShardStatus, HostConfig,
  EnsureShardRequest, EpochRequest, TouchRequest, hibernated, terminated, ExecutionClass,
}
use rust_app.Host.System.{Env}
use rust_app.Host.Validate.{
  validate, validate_resource_id, validate_runtime_subject, validate_execution_request,
  validate_execution_target, validate_digest,
}
use rust_app.Host.Vm.{
  boot_vm, restore_vm, snapshot_has_files, snapshot_and_stop, stop_vm, cleanup_terminated_jail,
}
use rust_app.Host.State.{
  checked, Action, pure, outside, attempt, ◌>>=◌, ◌>>◌, with_record, status_from,
}
use rust_app.Host.Sections.{
  Plan, answered, proceed, ensure_section, start_begin, start_commit, idle_section, touch_section,
  hibernate_policy, hibernate_begin, stopped_commit, terminate_begin,
}

abbrev pub ensure_key : EnsureShardRequest → ShardKey
ensure_key req = record {
  execution_class = req.execution_class;
  tenant_id = req.tenant_id;
  shard_id = req.shard_id;
}

abbrev pub epoch_key : EpochRequest → ShardKey
epoch_key req = record {
  execution_class = req.execution_class;
  tenant_id = req.tenant_id;
  shard_id = req.shard_id;
}

abbrev pub touch_key : TouchRequest → ShardKey
touch_key req = record {
  execution_class = req.execution_class;
  tenant_id = req.tenant_id;
  shard_id = req.shard_id;
}

-- `first?; next`.
unfoldable pub and_then : Result (Unit {0}) → Result (Unit {0}) → Result (Unit {0})
and_then (ok _) next = next
and_then (err e) next = err e

-- The checks at the head of `ensure`.
unfoldable pub ensure_checks : EnsureShardRequest → Result (Unit {0})
ensure_checks req =
    and_then
      (validate_execution_target req.execution_class req.execution_backend req.tenant_isolation)
      (and_then (validate req.policy) (
        and_then (validate_digest req.deployment_digest) (
          and_then (validate_resource_id (bytes "tenant_id") req.tenant_id) (
            and_then (validate_resource_id (bytes "shard_id") req.shard_id) (
              and_then (validate_runtime_subject (bytes "user_id") req.user_id) (
                and_then (validate_runtime_subject (bytes "tenant_id") req.tenant_id) (
                  and_then (validate_runtime_subject (bytes "shard_id") req.shard_id) (
                    validate_runtime_subject (bytes "root_deployment_id")
                      req.root_deployment_id))))))))

-- A plan that answers ends the method, and one that proceeds goes on.
unfoldable pub follow : {A : Type 0} → (A → Action ShardStatus) → Plan A → Action ShardStatus
follow next (answered status) = pure status
follow next (proceed work) = next work

module _ (env : Env) (config : HostConfig) where
  unfoldable pub ensure : EnsureShardRequest → Action ShardStatus
  ensure req = checked (ensure_checks req) (ensure_section env config (ensure_key req) req)

  -- Between the sections of `start`: whether a snapshot is restored, and the machine's start.
  unfoldable pub restore_choice : ShardRecord → Bool → Action Bool
  restore_choice snapshot true = outside (snapshot_has_files env config snapshot)
  restore_choice snapshot false = pure false

  unfoldable pub launch_vm : ShardRecord → Bool → Action (Result RuntimeHandles)
  launch_vm snapshot true = attempt (restore_vm env config snapshot)
  launch_vm snapshot false = attempt (boot_vm env config snapshot)

  unfoldable pub bring_up : ShardKey → ShardRecord × Bool → Action ShardStatus
  bring_up key (snapshot, should_restore) = do
    restore ← restore_choice snapshot should_restore
    result ← launch_vm snapshot restore
    start_commit env config key result

  unfoldable pub start : EpochRequest → Action ShardStatus
  start req = checked (validate_execution_request req.execution_class req.execution_backend) do
    plan ← start_begin env config (epoch_key req) req.runtime_epoch
    follow (bring_up (epoch_key req)) plan

  unfoldable pub mark_warm_idle : EpochRequest → Action ShardStatus
  mark_warm_idle req =
      checked (validate_execution_request req.execution_class req.execution_backend)
        (idle_section env config (epoch_key req) req.runtime_epoch)

  unfoldable pub touch : TouchRequest → Action ShardStatus
  touch req =
      checked (validate_execution_request req.execution_class req.execution_backend)
        (touch_section env config (touch_key req) req)

  -- Between the sections of `terminate`.
  unfoldable pub tear_down : ShardKey → ShardRecord → Action ShardStatus
  tear_down key snapshot = do
    outside (stop_vm env config snapshot)
    outside (cleanup_terminated_jail env config snapshot)
    stopped_commit env config terminated key

  unfoldable pub terminate : EpochRequest → Action ShardStatus
  terminate req = checked (validate_execution_request req.execution_class req.execution_backend) do
    plan ← terminate_begin env config (epoch_key req) req.runtime_epoch
    follow (tear_down (epoch_key req)) plan

  -- Between the last sections of `hibernate`.
  unfoldable pub put_to_sleep : ShardKey → ShardRecord → Action ShardStatus
  put_to_sleep key snapshot = do
    outside (snapshot_and_stop env config snapshot)
    stopped_commit env config hibernated key

  -- `hibernate`, by the policy of the shard.
  unfoldable pub hibernate_if : EpochRequest → Bool → Action ShardStatus
  hibernate_if req false = terminate req
  hibernate_if req true = do
    plan ← hibernate_begin env config (epoch_key req) req.runtime_epoch
    follow (put_to_sleep (epoch_key req)) plan

  unfoldable pub hibernate : EpochRequest → Action ShardStatus
  hibernate req = checked (validate_execution_request req.execution_class req.execution_backend) do
    enabled ← hibernate_policy env config (epoch_key req) req.runtime_epoch
    hibernate_if req enabled

  unfoldable pub get : ExecutionClass → Text → Text → Action ShardStatus
  get execution_class tenant_id shard_id = do
    let key : ShardKey = record {
      execution_class = execution_class;
      tenant_id = tenant_id;
      shard_id = shard_id;
    }
    with_record key λ r. pure (status_from config r)
