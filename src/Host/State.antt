-- ===== src/Host/State.antt =====
-- The state of a runtime host and the actions on it: `RuntimeHost`, `ShardRecord::new`,
-- `check_epoch` and `status_from` of
-- cert/beamscale-critical-section/infra-runtime-host/src/lib.rs. The map of shards is an
-- association list; the lock is not modelled here, but the sections in which it is held are
-- functions of their own (Host/Sections.antt).
use rust_app.Prelude.{Option, ℕ, true, false, none, some, List, [], ◌∷◌, nat_eq}
use rust_app.Prelude.Text.{Text}
use rust_app.Prelude.Dict.{lookup, insert}
use rust_app.Host.Types.{
  ShardKey, ShardRecord, ShardStatus, RuntimePolicy, HostConfig, HostError, LifecycleState,
  ExecutionBackend, unknown_shard, stale_epoch, shard_key_eq, Result, ok, err, backend_name,
}
use rust_app.Host.System.{History, Call, Env, Io}

abbrev pub Shards : Type 0
Shards = List (ShardKey × ShardRecord)

pub record RuntimeHost : Type 0 where
  pub calls : History
  pub shards : Shards

-- The state comes back after an error too: what was written stays written.
abbrev pub Action : Type 0 → Type 0
Action A = RuntimeHost → Result A × RuntimeHost

module _ {A : Type 0} where
  abbrev pub pure : A → Action A
  pure x s = (ok x, s)

  abbrev pub raise : HostError → Action A
  raise e s = (err e, s)

  -- A check that reads and writes nothing.
  abbrev pub lift : Result A → Action A
  lift r s = (r, s)

  -- Calls of the environment leave the shards alone.
  abbrev pub outside : Io A → Action A
  outside m s = let (r, h) = m s.calls in (r, record s { calls = h })

  -- The same with the result as a value, where the caller looks at the error.
  abbrev pub attempt : Io A → Action (Result A)
  attempt m s = let (r, h) = m s.calls in (ok r, record s { calls = h })

-- What follows a call that ended in the given way.
unfoldable pub continue :
    {A B : Type 0} → Result A × RuntimeHost → (A → Action B) → Result B × RuntimeHost
continue (ok x, s) f = f x s
continue (err e, s) f = (err e, s)

infixl 5 ◌>>=◌ ◌>>◌
unfoldable pub ◌>>=◌ : {A B : Type 0} → Action A → (A → Action B) → Action B
unfolding continue
◌>>=◌ m f s = continue (m s) f

unfoldable pub ◌>>◌ : {A B : Type 0} → Action A → Action B → Action B
unfolding ◌>>=◌
m >> k = m >>= λ _. k

-- A write through the reference that `get_mut` gave, or `shards.insert(key, record)`.
abbrev pub set_record : ShardKey → ShardRecord → Action (Unit {0})
set_record key r s = (ok tt, record s { shards = insert key r s.shards })

-- `RuntimeHost::new`.
unfoldable pub new_host : History → RuntimeHost
new_host calls = record { calls = calls; shards = [] }

unfoldable pub new_record : ShardKey → ℕ → Text → Text → Text → RuntimePolicy → ℕ → ShardRecord
new_record key runtime_epoch deployment_digest user_id root_deployment_id policy now = record {
  key = key;
  runtime_epoch = runtime_epoch;
  deployment_digest = deployment_digest;
  user_id = user_id;
  root_deployment_id = root_deployment_id;
  state = LifecycleState.cold;
  policy = policy;
  active_invocations = 0;
  last_active_unix_ms = now;
  process_pid = none;
  api_socket = none;
  vsock_path = none;
  last_error = none;
  request_count = 0;
  ingress_bytes = 0;
  egress_bytes = 0;
  memory_byte_ms = 0;
  last_meter_unix_ms = now;
}

unfoldable pub check_epoch : ShardRecord → ℕ → Result (Unit {0})
check_epoch r requested = elim (nat_eq requested r.runtime_epoch) [
  | true ↦ ok tt
  | false ↦ err (stale_epoch requested r.runtime_epoch)
]

-- What is done with the entry that `get_mut` finds: `ok_or(HostError::UnknownShard)?`.
unfoldable pub found : {A : Type 0} → Option ShardRecord → (ShardRecord → Action A) → Action A
found none body = raise unknown_shard
found (some r) body = body r

-- `let record = shards.get_mut(&key).ok_or(HostError::UnknownShard)?`, and what follows.
unfoldable pub with_record : {A : Type 0} → ShardKey → (ShardRecord → Action A) → Action A
with_record key body s = found (lookup key s.shards) body s

-- A check with `?`, and what follows.
unfoldable pub checked : {A : Type 0} → Result (Unit {0}) → Action A → Action A
checked (ok _) next = next
checked (err e) next = raise e

-- The same as `with_record`, after `check_epoch(record, epoch)?`.
unfoldable pub at_epoch : {A : Type 0} → ShardKey → ℕ → (ShardRecord → Action A) → Action A
at_epoch key epoch body = with_record key λ r. checked (check_epoch r epoch) (body r)

unfoldable pub status_from : HostConfig → ShardRecord → ShardStatus
status_from config r = record {
  tenant_id = r.key.tenant_id;
  shard_id = r.key.shard_id;
  execution_class = r.key.execution_class;
  execution_backend = ExecutionBackend.firecracker;
  runtime_epoch = r.runtime_epoch;
  deployment_digest = r.deployment_digest;
  state = r.state;
  backend = backend_name config.backend;
  vcpu_count = r.policy.vcpu_count;
  memory_mib = r.policy.memory_mib;
  active_invocations = r.active_invocations;
  last_active_unix_ms = r.last_active_unix_ms;
  process_pid = r.process_pid;
  api_socket = r.api_socket;
  vsock_path = r.vsock_path;
  last_error = r.last_error;
}

-- `now_ms`.
abbrev pub now_ms : Env → Action ℕ
now_ms env s = let h = Call.system_time ∷ s.calls in (ok (env.clock h), record s { calls = h })
