-- ===== src/Host/Examples.antt =====
-- The theorems on the runtime host at concrete hosts and requests.
use rust_app.Prelude.{
  ◌≤◌, ◌+◌, ℕ, ◌*◌, ◌≡◌, inl, refl, true, false, none, some, List, [], ◌∷◌, arith,
}
use rust_app.Prelude.Lists.{length}
use rust_app.Prelude.Text.{starts_with, Text, bytes, text_eq}
use rust_app.Prelude.Dict.{lookup, insert}
use rust_app.Host.Types.{
  key_eq, ShardKey, ShardRecord, HostConfig, BackendKind, EnsureShardRequest, EpochRequest,
  TouchRequest, RuntimePolicy, RuntimeHandles, cold, hot, draining, terminated, phoenix,
  ExecutionBackend, ok, pos, shard_key_eq,
}
use rust_app.Host.System.{Env, Call, done}
use rust_app.Host.Validate.{
  validate, validate_digest, validate_execution_request, validate_execution_target, raw_digest,
  validate_resource_id, validate_runtime_subject,
}
use rust_app.Host.Layout.{JailedRuntime}
use rust_app.Host.Vm.{boot_jailed}
use rust_app.Host.State.{
  at_epoch, with_record, found, checked, check_epoch, ◌>>=◌, ◌>>◌, continue, RuntimeHost,
}
use rust_app.Host.Sections.{
  touch_section, terminate_begin, touch_record, touched, drain_record, ensure_section, start_commit,
  stopped_commit,
}
use rust_app.Host.Ops
use rust_app.Host.Ops.{ensure_checks, start, mark_warm_idle, touch, terminate, hibernate}
use rust_app.Host.Sweep.{sweep_once}
use rust_app.Host.Invariant.{insert-Sound, empty-Sound, IsSound, Follows, Sound}
use rust_app.Host.Spared.{HasDistinctKeys, sweep_once-spares}
use rust_app.Host.Interleaving.{
  Move, touch_move, terminate_begin_move, interleave, interleave-IsSound, interleave-Follows,
}
use rust_app.Host.Stale.{Refuses, stale_refused}
use rust_app.Host.Outcomes.{Settled, Torn, start_settles, terminate_ends}
use rust_app.Host.Races.{late_start_takes_epoch}
use rust_app.Host.Waiting.{IsSteady, Ended, wait_for_socket-Ended}
use rust_app.Host.Files.{wait_for_socket}
use rust_app.Host.Rollback.{Launched, boot_jailed-Launched}

-- An environment in which each call succeeds, and time passes with the calls.
abbrev quiet : Env
quiet = record {
  clock = λ h. length h * 10;
  flag = λ _. true;
  outcome = λ _. done tt;
  path = λ _. done (bytes "/bin/ip");
  metadata = λ _. done (record { is_symlink = false; is_file = true; mode = 0o644 });
  text = λ _. done (bytes "HTTP/1.1 204 No Content");
  exit = λ _. done true;
  child = λ _. done (some 42);
  sha256 = λ _. 18 ∷ 171 ∷ [];
  json = λ _. bytes "{}";
}

abbrev host_config : HostConfig
host_config = record {
  backend = BackendKind.mock;
  firecracker_bin = bytes "/bin/firecracker";
  jailer_bin = bytes "/bin/jailer";
  jailer_chroot_base = bytes "/srv/jailer";
  jailer_uid = 65534;
  jailer_gid = 65534;
  ip_bin = bytes "/bin/ip";
  netns_root = bytes "/run/netns";
  kernel_image = bytes "/opt/vmlinux";
  rootfs_image = bytes "/opt/rootfs.ext4";
  runtime_dir = bytes "/var/runtime";
  cgroup_root = bytes "/sys/cgroup";
  identity_root = bytes "/run/identities";
  identity_writer_bin = bytes "/bin/writer";
  vmm_overhead_mib = 96;
  boot_args = bytes "console=ttyS0";
  api_socket_timeout_ms = 5000;
}

abbrev policy : RuntimePolicy
policy = record {
  vcpu_count = 1;
  memory_mib = 128;
  snapshot_enabled = false;
  warm_idle_ms = 10000;
  hibernate_after_ms = 60000;
  destroy_after_ms = 900000;
}

abbrev digest : Text
digest = bytes "0123456789abcdef0123456789abcdef0123456789abcdef0123456789abcdef"

abbrev key : ShardKey
key = record { execution_class = phoenix; tenant_id = bytes "t1"; shard_id = bytes "s1" }

abbrev shard : ShardRecord
shard = record {
  key = key;
  runtime_epoch = 3;
  deployment_digest = digest;
  user_id = bytes "u1";
  root_deployment_id = bytes "d1";
  state = cold;
  policy = policy;
  active_invocations = 2;
  last_active_unix_ms = 0;
  process_pid = none;
  api_socket = none;
  vsock_path = none;
  last_error = none;
  request_count = 5;
  ingress_bytes = 0;
  egress_bytes = 0;
  memory_byte_ms = 0;
  last_meter_unix_ms = 0;
}

abbrev host : RuntimeHost
host = record { calls = []; shards = (key, shard) ∷ [] }

at_key : lookup key host.shards ≡ some shard
unfolding lookup text_eq key_eq
at_key = refl

policy-valid : validate policy ≡ ok tt
unfolding validate
policy-valid = refl

digest-valid : validate_digest digest ≡ ok tt
unfolding validate_digest starts_with
digest-valid = refl

shard-IsSound : IsSound key shard
shard-IsSound = record {
  same_key = refl;
  policy_valid = policy-valid;
  digest_valid = digest-valid;
  idle = λ e. cc;
  active_u32 = omega arith;
  requests_u64 = omega arith;
  ingress_u64 = omega arith;
  egress_u64 = omega arith;
  memory_u128 = omega arith;
}

host-Sound : Sound host.shards
unfolding insert
host-Sound = insert-Sound key shard [] shard-IsSound empty-Sound

abbrev epoch_request : ℕ → EpochRequest
epoch_request epoch = record {
  tenant_id = bytes "t1";
  shard_id = bytes "s1";
  execution_class = phoenix;
  execution_backend = ExecutionBackend.firecracker;
  runtime_epoch = epoch;
}

abbrev touch_request : ℕ → TouchRequest
touch_request epoch = record {
  tenant_id = bytes "t1";
  shard_id = bytes "s1";
  execution_class = phoenix;
  execution_backend = ExecutionBackend.firecracker;
  runtime_epoch = epoch;
  active_delta = pos 1;
  ingress_bytes = 7;
  egress_bytes = 0;
}

abbrev later_request : EnsureShardRequest
later_request = record {
  user_id = bytes "u2";
  tenant_id = bytes "t1";
  shard_id = bytes "s1";
  execution_class = phoenix;
  execution_backend = ExecutionBackend.firecracker;
  tenant_isolation = bytes "single_tenant_microvm";
  runtime_epoch = 4;
  root_deployment_id = bytes "d2";
  deployment_digest = digest;
  policy = policy;
}

abbrev machine : RuntimeHandles
machine = record { pid = some 42; api_socket = some (bytes "/a"); vsock_path = none }

class_valid : validate_execution_request phoenix ExecutionBackend.firecracker ≡ ok tt
unfolding validate_execution_request
class_valid = refl

abbrev moves : List Move
moves = touch_move key (touch_request 3) ∷ terminate_begin_move key 3 ∷ []

abbrev drained : ShardRecord
drained = record shard {
  active_invocations = 3;
  request_count = 6;
  ingress_bytes = 7;
  last_active_unix_ms = 10;
  state = draining;
}

moved : lookup key (interleave quiet host_config moves host).shards ≡ some drained
unfolding interleave touch_section terminate_begin at_epoch with_record found checked check_epoch
    touch_record touched drain_record lookup insert text_eq key_eq ◌>>=◌ ◌>>◌ continue
moved = refl

interleave-IsSound_example : IsSound key drained
interleave-IsSound_example =
    interleave-IsSound quiet host_config moves host key drained host-Sound moved

interleave-Follows_example :
    (t : ShardRecord) × (lookup key (interleave quiet host_config moves host).shards ≡ some t)
    × Follows shard t
interleave-Follows_example =
    interleave-Follows quiet host_config moves host key shard host-Sound at_key

-- A hot shard that has not been touched for long, but has active invocations.
abbrev busy_shard : ShardRecord
busy_shard = record shard { state = hot }

-- An environment whose clock is far beyond every threshold.
abbrev late : Env
late = record quiet { clock = λ h. 1000000000 }

abbrev busy_host : RuntimeHost
busy_host = record { calls = []; shards = (key, busy_shard) ∷ [] }

busy_at_key : lookup key busy_host.shards ≡ some busy_shard
unfolding lookup text_eq key_eq
busy_at_key = refl

busy_shard-IsSound : IsSound key busy_shard
busy_shard-IsSound = record {
  same_key = refl;
  policy_valid = policy-valid;
  digest_valid = digest-valid;
  idle = λ e. cc;
  active_u32 = omega arith;
  requests_u64 = omega arith;
  ingress_u64 = omega arith;
  egress_u64 = omega arith;
  memory_u128 = omega arith;
}

busy-Sound : Sound busy_host.shards
unfolding insert
busy-Sound = insert-Sound key busy_shard [] busy_shard-IsSound empty-Sound

busy-HasDistinctKeys : HasDistinctKeys busy_host.shards
unfolding lookup
busy-HasDistinctKeys = (refl, tt)

sweep_once-spares_example :
    lookup key (sweep_once late host_config busy_host).shards ≡ some busy_shard
sweep_once-spares_example =
    sweep_once-spares late host_config busy_host key busy_shard busy-Sound busy-HasDistinctKeys
      busy_at_key (λ d. let none_active : 2 ≡ 0 = d.quiet in omega arith)

start_settles_example : Settled host_config key (start quiet host_config (epoch_request 3) host)
start_settles_example =
    start_settles quiet host_config (epoch_request 3) host shard class_valid at_key refl (inl refl)

terminate_ends_example :
    Torn key
      (record shard { state = draining })
      (terminate quiet host_config (epoch_request 3) host)
terminate_ends_example =
    terminate_ends quiet host_config (epoch_request 3) host shard class_valid at_key refl (λ e. cc)

abbrev older_request : EnsureShardRequest
older_request = record later_request { runtime_epoch = 2 }

older-valid : ensure_checks older_request ≡ ok tt
unfolding ensure_checks validate_execution_target validate_execution_request validate
    validate_digest raw_digest starts_with validate_resource_id validate_runtime_subject text_eq
    Ops.and_then
older-valid = refl

stale_refused_example :
    (t : ShardRecord) × (lookup key (interleave quiet host_config moves host).shards ≡ some t)
    × (3 ≤ t.runtime_epoch)
    × Refuses quiet host_config
        (interleave quiet host_config moves host)
        t
        (epoch_request 2)
        (touch_request 1)
        older_request
stale_refused_example =
    stale_refused quiet host_config moves host shard (epoch_request 2) (touch_request 1)
      older_request host-Sound at_key refl refl class_valid class_valid older-valid (omega arith)
      (omega arith) (omega arith)

late_start_takes_epoch_example :
    let torn = (stopped_commit quiet host_config terminated key host).1 in
    let renewed = (ensure_section quiet host_config key later_request torn).1 in
    (t : ShardRecord) × (lookup key
        (start_commit quiet host_config key (ok machine) renewed).1.shards
      ≡ some t)
    × (t.runtime_epoch ≡ 4)
    × (t.user_id ≡ bytes "u2")
    × (t.state ≡ hot)
    × (t.process_pid ≡ some 42)
late_start_takes_epoch_example =
    late_start_takes_epoch quiet host_config key machine later_request host shard at_key
      (omega arith)

abbrev jail : JailedRuntime
jail = record {
  pid = 42;
  id = bytes "bmscl-12ab";
  instance_dir = bytes "/srv/jailer/firecracker/bmscl-12ab";
  root = bytes "/srv/jailer/firecracker/bmscl-12ab/root";
  api_socket = bytes "/srv/jailer/firecracker/bmscl-12ab/root/api.socket";
  vsock_path = bytes "/srv/jailer/firecracker/bmscl-12ab/root/control.vsock";
  kernel = bytes "/srv/jailer/firecracker/bmscl-12ab/root/vmlinux";
  rootfs = bytes "/srv/jailer/firecracker/bmscl-12ab/root/rootfs.ext4";
  snapshot_state = bytes "/srv/jailer/firecracker/bmscl-12ab/root/snapshot/vm.state";
  snapshot_mem = bytes "/srv/jailer/firecracker/bmscl-12ab/root/snapshot/vm.mem";
  netns_name = bytes "bmscl-12ab";
  netns_path = bytes "/run/netns/bmscl-12ab";
}

boot_jailed-Launched_example :
    Launched quiet host_config jail (boot_jailed quiet host_config shard jail [])
boot_jailed-Launched_example = boot_jailed-Launched quiet host_config jail shard []

-- An environment in which the socket never appears.
abbrev silent : Env
silent = record quiet { flag = λ _. false }

silent-IsSteady : IsSteady silent
silent-IsSteady = record { forward = λ p h. omega arith; sleeps = λ p h. omega arith }

wait_for_socket-Ended_example :
    Ended silent
      (bytes "/api.socket")
      (silent.clock (Call.instant ∷ []) + 60)
      (wait_for_socket silent (bytes "/api.socket") 60 [])
wait_for_socket-Ended_example =
    wait_for_socket-Ended silent silent-IsSteady (bytes "/api.socket") 60 []
