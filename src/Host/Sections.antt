-- ===== src/Host/Sections.antt =====
-- The sections of the methods of `RuntimeHost` that run while the lock on the shards is held, in
-- cert/beamscale-critical-section/infra-runtime-host/src/lib.rs. Between two sections of one
-- method other methods may run.
use rust_app.Prelude.{
  ℕ, suc, ◌+◌, ◌-◌, min, Bool, true, false, not, ◌&&◌, ◌||◌, Option, none, some, ltb, nat_eq,
  if◌then◌else◌, u32_max, u64_max, u128_max,
}
use rust_app.Prelude.Text.{text_eq}
use rust_app.Host.Types.{
  ShardKey, ShardRecord, ShardStatus, HostConfig, LifecycleState, cold, starting, hot, warm_idle,
  hibernated, draining, terminated, EnsureShardRequest, TouchRequest, ℤ, pos, negsuc, stale_epoch,
  epoch_replacement_conflict, identity_conflict, identity_changed, invalid_state, Result, ok, err,
  RuntimeHandles, shard_key_eq,
}
use rust_app.Prelude.Dict.{lookup}
use rust_app.Host.System.{Env}
use rust_app.Host.State.{
  Action, pure, raise, ◌>>=◌, ◌>>◌, with_record, at_epoch, set_record, new_record, status_from,
  now_ms,
}

abbrev pub is_terminated : LifecycleState → Bool
is_terminated terminated = true
is_terminated _ = false

abbrev pub is_warm_idle : LifecycleState → Bool
is_warm_idle warm_idle = true
is_warm_idle _ = false

-- `saturating_add` on `u32`, `u64` and `u128`, and `saturating_sub`, which is `◌-◌`.
abbrev pub saturating_add32 : ℕ → ℕ → ℕ
saturating_add32 x y = min (x + y) u32_max

abbrev pub saturating_add64 : ℕ → ℕ → ℕ
saturating_add64 x y = min (x + y) u64_max

abbrev pub saturating_add128 : ℕ → ℕ → ℕ
saturating_add128 x y = min (x + y) u128_max

-- A section answers the caller at once, or hands on what the unlocked part works with.
pub data Plan (A : Type 0) : Type 0 where
  answered : ShardStatus → Plan A
  proceed : A → Plan A

abbrev pub no_runtime : ShardRecord → ShardRecord
no_runtime r = record r { process_pid = none; api_socket = none; vsock_path = none }

-- The invocation counters after a touch by `active_delta`.
touched_counters : ℤ → ShardRecord → ShardRecord
touched_counters (pos delta) r = record r {
  active_invocations = saturating_add32 r.active_invocations delta;
  request_count = saturating_add64 r.request_count delta;
}
touched_counters (negsuc n) r = record r { active_invocations = r.active_invocations - suc n }

touched_state : ShardRecord → ShardRecord
touched_state r =
    if ltb 0 r.active_invocations && is_warm_idle r.state then record r { state = hot } else r

unfoldable pub touched : TouchRequest → ℕ → ShardRecord → ShardRecord
unfolding touched_counters touched_state
touched req now r =
    let t = touched_counters req.active_delta r in
    touched_state (record t {
      ingress_bytes = saturating_add64 r.ingress_bytes req.ingress_bytes;
      egress_bytes = saturating_add64 r.egress_bytes req.egress_bytes;
      last_active_unix_ms = now;
    })

module _ (env : Env) (config : HostConfig) where
  abbrev pub answer : ShardRecord → Action ShardStatus
  answer r = pure (status_from config r)

  -- A new record for the key, in place of what is there.
  unfoldable pub fresh : ShardKey → EnsureShardRequest → Action ShardStatus
  unfolding ◌>>=◌ ◌>>◌
  fresh key req = do
    now ← now_ms env
    let r =
        new_record key req.runtime_epoch req.deployment_digest req.user_id req.root_deployment_id
          req.policy now
    set_record key r
    answer r

  -- The same epoch: the identity must be the same, the deployment and the policy may change.
  unfoldable pub refresh : ShardKey → EnsureShardRequest → ShardRecord → Action ShardStatus
  unfolding ◌>>=◌ ◌>>◌
  refresh key req r = do
    now ← now_ms env
    let u = record r {
      deployment_digest = req.deployment_digest;
      policy = req.policy;
      last_active_unix_ms = now;
    }
    set_record key u
    answer u

  unfoldable pub ensure_existing : ShardKey → EnsureShardRequest → ShardRecord → Action ShardStatus
  ensure_existing key req r =
      if ltb req.runtime_epoch r.runtime_epoch
      then raise (stale_epoch req.runtime_epoch r.runtime_epoch)
      else if ltb r.runtime_epoch req.runtime_epoch
      then (if not (is_terminated r.state) then raise epoch_replacement_conflict else fresh key req)
      else if not (text_eq r.user_id req.user_id)
          || not (text_eq r.root_deployment_id req.root_deployment_id)
      then raise (identity_conflict identity_changed)
      else refresh key req r

  unfoldable pub ensure_found :
      ShardKey → EnsureShardRequest → Option ShardRecord → Action ShardStatus
  ensure_found key req none = fresh key req
  ensure_found key req (some r) = ensure_existing key req r

  -- `ensure`, once the request is validated.
  unfoldable pub ensure_section : ShardKey → EnsureShardRequest → Action ShardStatus
  ensure_section key req s = ensure_found key req (lookup key s.shards) s

  unfoldable pub launch : ShardKey → Bool → ShardRecord → Action (Plan (ShardRecord × Bool))
  unfolding ◌>>=◌ ◌>>◌
  launch key should_restore r = do
    let u = record r { state = starting; last_error = none }
    set_record key u
    pure (proceed (u, should_restore))

  -- The `match record.state` of `start`.
  unfoldable pub start_from :
      LifecycleState → ShardKey → ShardRecord → Action (Plan (ShardRecord × Bool))
  start_from hot key r = pure (answered (status_from config r))
  start_from starting key r = pure (answered (status_from config r))
  start_from cold key r = launch key false r
  start_from hibernated key r = launch key true r
  start_from terminated key r = launch key false r
  start_from state key r = raise (invalid_state state)

  unfoldable pub start_begin : ShardKey → ℕ → Action (Plan (ShardRecord × Bool))
  start_begin key epoch = at_epoch key epoch λ r. start_from r.state key r

  -- The `match result` of `start`.
  unfoldable pub start_result : ShardKey → Result RuntimeHandles → ShardRecord → Action ShardStatus
  unfolding ◌>>=◌ ◌>>◌
  start_result key (ok runtime) r = do
    now ← now_ms env
    let u = record r {
      state = hot;
      process_pid = runtime.pid;
      api_socket = runtime.api_socket;
      vsock_path = runtime.vsock_path;
      last_active_unix_ms = now;
      last_meter_unix_ms = now;
    }
    set_record key u
    answer u
  start_result key (err e) r = do
    set_record key (record r { state = cold; last_error = some e })
    raise e

  -- The second section of `start`, on what booting or restoring gave. It looks at neither the
  -- epoch nor the state of the record.
  unfoldable pub start_commit : ShardKey → Result RuntimeHandles → Action ShardStatus
  start_commit key result = with_record key λ r. start_result key result r

  -- The `match record.state` of `mark_warm_idle`.
  unfoldable pub idle_from : LifecycleState → ShardKey → ShardRecord → Action ShardStatus
  unfolding ◌>>=◌ ◌>>◌
  idle_from hot key r = do
    set_record key (record r { state = warm_idle })
    answer (record r { state = warm_idle })
  idle_from warm_idle key r = do
    set_record key (record r { state = warm_idle })
    answer (record r { state = warm_idle })
  idle_from state key r = raise (invalid_state state)

  unfoldable pub idle_section : ShardKey → ℕ → Action ShardStatus
  idle_section key epoch = at_epoch key epoch λ r.
      if nat_eq r.active_invocations 0
      then idle_from r.state key r
      else raise (invalid_state r.state)

  unfoldable pub touch_record : ShardKey → TouchRequest → ShardRecord → Action ShardStatus
  unfolding ◌>>=◌ ◌>>◌
  touch_record key req r = do
    now ← now_ms env
    set_record key (touched req now r)
    answer (touched req now r)

  unfoldable pub touch_section : ShardKey → TouchRequest → Action ShardStatus
  touch_section key req = at_epoch key req.runtime_epoch λ r. touch_record key req r

  -- The first section of `hibernate`, under a read lock.
  unfoldable pub hibernate_policy : ShardKey → ℕ → Action Bool
  hibernate_policy key epoch = at_epoch key epoch λ r. pure r.policy.snapshot_enabled

  -- The `match record.state` of `hibernate`.
  unfoldable pub hibernate_from : LifecycleState → ShardRecord → Action (Plan ShardRecord)
  hibernate_from hot r = pure (proceed r)
  hibernate_from warm_idle r = pure (proceed r)
  hibernate_from hibernated r = pure (answered (status_from config r))
  hibernate_from state r = raise (invalid_state state)

  unfoldable pub hibernate_begin : ShardKey → ℕ → Action (Plan ShardRecord)
  hibernate_begin key epoch = at_epoch key epoch λ r.
      if nat_eq r.active_invocations 0
      then hibernate_from r.state r
      else raise (invalid_state r.state)

  unfoldable pub stop_record : LifecycleState → ShardKey → ShardRecord → Action ShardStatus
  unfolding ◌>>=◌ ◌>>◌
  stop_record state key r = do
    set_record key (record (no_runtime r) { state = state })
    answer (record (no_runtime r) { state = state })

  -- The last sections of `hibernate` and of `terminate`.
  unfoldable pub stopped_commit : LifecycleState → ShardKey → Action ShardStatus
  stopped_commit state key = with_record key λ r. stop_record state key r

  unfoldable pub drain_record : ShardKey → ShardRecord → Action (Plan ShardRecord)
  unfolding ◌>>=◌ ◌>>◌
  drain_record key r = do
    set_record key (record r { state = draining })
    pure (proceed (record r { state = draining }))

  unfoldable pub terminate_begin : ShardKey → ℕ → Action (Plan ShardRecord)
  terminate_begin key epoch = at_epoch key epoch λ r.
      if is_terminated r.state then pure (answered (status_from config r)) else drain_record key r
