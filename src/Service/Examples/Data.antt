-- ===== src/Service/Examples/Data.antt =====
-- A concrete service, with a shard, requests and contracts.
use rust_app.Prelude.{ℕ, ◌+◌, ◌*◌, ◌%◌, true, false, none, some, [], ◌∷◌}
use rust_app.Prelude.Lists.{length}
use rust_app.Prelude.Text.{Text, bytes}
use rust_app.Prelude.Result.{ok, err}
use rust_app.Host.Types.{
  ShardKey, ShardRecord, HostConfig, BackendKind, EpochRequest, RuntimePolicy, hot, durable_actor,
  ExecutionBackend, ShardStatus,
}
use rust_app.Host.System
use rust_app.Host.System.{done}
use rust_app.Host.State.{status_from}
use rust_app.Store
use rust_app.Store.{ArtifactStore, AdmittedArtifact}
use rust_app.Auth
use rust_app.Auth.{RuntimeContract, SignedRequest, contract_version, signature_for, Outside}
use rust_app.Service.Json.{Value, string, unsigned, json, bool}
use rust_app.Service.Types.{ActivateRequest, InvokeRequest, CriticalSectionRequest, acquire}
use rust_app.Service.Stream
use rust_app.Service.Stream.{Wire}
use rust_app.Service.Transfer.{Codec}
use rust_app.Service.State.{World, Setup, AppState}

abbrev pub host_env : System.Env
host_env = record {
  clock = λ h. length h * 10;
  flag = λ _. true;
  outcome = λ _. done tt;
  path = λ _. done (bytes "/bin/ip");
  metadata = λ _. done (record { is_symlink = false; is_file = true; mode = 0o644 });
  text = λ _. done (bytes "0");
  exit = λ _. done true;
  child = λ _. done (some 42);
  sha256 = λ x. length x % 256 ∷ [];
  json = λ _. bytes "{}";
}

abbrev pub host_config : HostConfig
host_config = record {
  backend = BackendKind.mock;
  firecracker_bin = bytes "/bin/firecracker";
  jailer_bin = bytes "/bin/jailer";
  jailer_chroot_base = bytes "/srv/jailer";
  jailer_uid = 65534;
  jailer_gid = 65534;
  ip_bin = bytes "/bin/ip";
  netns_root = bytes "/run/netns";
  kernel_image = bytes "/opt/vmlinux";
  rootfs_image = bytes "/opt/rootfs.ext4";
  runtime_dir = bytes "/var/runtime";
  cgroup_root = bytes "/sys/cgroup";
  identity_root = bytes "/run/identities";
  identity_writer_bin = bytes "/bin/writer";
  vmm_overhead_mib = 96;
  boot_args = bytes "console=ttyS0";
  api_socket_timeout_ms = 5000;
}

abbrev pub store_env : Store.Env
store_env = record {
  metadata = λ _. done (record { is_file = true; is_dir = false; is_symlink = false; len = 3 });
  path = λ _. done (bytes "/r");
  content = λ _. done (1 ∷ []);
  opened = λ _. done tt;
  chunk = λ _. done [];
  listing = λ _. done [];
  joined = λ _. true;
  sha256 = λ x. length x % 256 ∷ [];
  from_slice = λ _. err (bytes "no record");
  tar_gz = λ _. done (1 ∷ []);
}

abbrev pub digest : Text
digest = bytes "0123456789abcdef0123456789abcdef0123456789abcdef0123456789abcdef"

abbrev pub artifact : AdmittedArtifact
artifact = record {
  build_sha256 = digest;
  archive_name = bytes "worker.tar.gz";
  archive_sha256 = digest;
  archive_bytes = 5;
  bytes = 1 ∷ 2 ∷ 3 ∷ 4 ∷ 5 ∷ [];
}

abbrev pub stored : Value
stored = json (
    (bytes "op", string (bytes "put_artifact_result"))
    ∷ (bytes "ok", bool true)
    ∷ (bytes "build_sha256", string digest)
    ∷ (bytes "archive_sha256", string digest)
    ∷ (bytes "archive_bytes", unsigned 5)
    ∷ (bytes "state", string (bytes "stored"))
    ∷ [])

abbrev pub activated_value : Value
activated_value = json (
    (bytes "op", string (bytes "activate_artifact_result"))
    ∷ (bytes "ok", bool true)
    ∷ (bytes "deployment_id", string digest)
    ∷ (bytes "active_deployment_id", string digest)
    ∷ [])

-- Every value is written as `{}`, and read back as the given one.
abbrev pub codec : Value → Codec
codec value = record { to_vec = λ _. ok (bytes "{}"); from_slice = λ _. ok value }

-- The guest greets with OK, and answers with a frame of two bytes.
abbrev pub greeting : Stream.History → Stream.Reply ℕ
greeting (Stream.read_u8 ∷ Stream.read_u8 ∷ Stream.read_u8 ∷ Stream.read_u8 ∷ h) = Stream.done 10
greeting (Stream.read_u8 ∷ Stream.read_u8 ∷ Stream.read_u8 ∷ h) = Stream.done b' '
greeting (Stream.read_u8 ∷ Stream.read_u8 ∷ h) = Stream.done b'K'
greeting (Stream.read_u8 ∷ h) = Stream.done b'O'
greeting h = Stream.done 2

abbrev pub wire : Wire
wire = record {
  sent = λ _. Stream.done tt;
  number = greeting;
  content = λ _. Stream.done (bytes "{}");
}

abbrev pub secret : Text
secret = bytes "0123456789abcdef0123456789abcdef"

abbrev pub setup : Setup
setup = record {
  config = host_config;
  store = record { root = bytes "/r"; max_archive_bytes = 20 };
  guest_vsock_port = 5000;
  guest_max_frame_bytes = 1000;
  guest_max_artifact_chunk_bytes = 2;
  runtime_control_secret = secret;
}

-- The world with a clock.
abbrev pub world_at : (ℕ → ℕ) → World
world_at time = record {
  host = host_env;
  store = store_env;
  wire = wire;
  codec = codec activated_value;
  clock = λ n. some (time n);
  sha256 = λ x. length x % 256 ∷ [];
  body = λ _. Auth.ok (bytes "{}");
}

abbrev pub steady_time : ℕ → ℕ
steady_time n = 1700000010

-- Ten seconds pass between two readings.
abbrev pub moving_time : ℕ → ℕ
moving_time n = 1700000010 + n * 10

abbrev pub policy : RuntimePolicy
policy = record {
  vcpu_count = 1;
  memory_mib = 128;
  snapshot_enabled = false;
  warm_idle_ms = 10000;
  hibernate_after_ms = 60000;
  destroy_after_ms = 900000;
}

abbrev pub key : ShardKey
key = record { execution_class = durable_actor; tenant_id = bytes "t1"; shard_id = bytes "s1" }

abbrev pub shard : ShardRecord
shard = record {
  key = key;
  runtime_epoch = 3;
  deployment_digest = digest;
  user_id = bytes "u1";
  root_deployment_id = bytes "d1";
  state = hot;
  policy = policy;
  active_invocations = 2;
  last_active_unix_ms = 0;
  process_pid = none;
  api_socket = none;
  vsock_path = none;
  last_error = none;
  request_count = 5;
  ingress_bytes = 0;
  egress_bytes = 0;
  memory_byte_ms = 0;
  last_meter_unix_ms = 0;
}

abbrev pub service : AppState
service = record {
  host = record { calls = []; shards = (key, shard) ∷ [] };
  store_calls = [];
  wire_calls = [];
  clock_reads = 0;
  observed_activation = [];
  consumed_nonces = [];
}

abbrev pub epoch_request : EpochRequest
epoch_request = record {
  tenant_id = bytes "t1";
  shard_id = bytes "s1";
  execution_class = durable_actor;
  execution_backend = ExecutionBackend.firecracker;
  runtime_epoch = 3;
}

abbrev pub unsigned_contract : RuntimeContract
unsigned_contract = record {
  version = contract_version;
  operation = bytes "start";
  tenant_id = bytes "t1";
  shard_id = bytes "s1";
  execution_class = bytes "durable_actor";
  execution_backend = bytes "firecracker";
  runtime_epoch = 3;
  request_sha256 = bytes "02";
  issued_at_unix = 1700000000;
  expires_at_unix = 1700000030;
  nonce = bytes "nonce-1234567890";
  signature = [];
}

abbrev pub outside : Outside
outside = record { clock = none; secret_var = none; sha256 = λ x. length x % 256 ∷ [] }

abbrev pub contract : RuntimeContract
contract = record unsigned_contract {
  signature = signature_for outside secret unsigned_contract (bytes "02");
}

abbrev pub signed_start : SignedRequest EpochRequest
signed_start = record { contract = contract; request = epoch_request }

abbrev pub activate_request : ActivateRequest
activate_request = record {
  tenant_id = bytes "t1";
  shard_id = bytes "s1";
  execution_class = durable_actor;
  execution_backend = ExecutionBackend.firecracker;
  runtime_epoch = 3;
  deployment_id = digest;
  timeout_ms = 1000;
}

abbrev pub invoke_request : InvokeRequest
invoke_request = record {
  tenant_id = bytes "t1";
  shard_id = bytes "s1";
  execution_class = durable_actor;
  execution_backend = ExecutionBackend.firecracker;
  runtime_epoch = 3;
  invocation_id = bytes "i1";
  deployment_id = digest;
  request = json [];
  context = json [];
  capability_refs = [];
  timeout_ms = 1000;
}

abbrev pub acquire_request : CriticalSectionRequest
acquire_request = record {
  tenant_id = bytes "t1";
  shard_id = bytes "s1";
  execution_class = durable_actor;
  execution_backend = ExecutionBackend.firecracker;
  runtime_epoch = 3;
  deployment_id = digest;
  operation = acquire;
  namespace = bytes "orders";
  object_key = bytes "42";
  holder = bytes "worker-1";
  request_id = some (bytes "r1");
  lease_ms = some 5000;
  token = none;
  timeout_ms = 10000;
}

abbrev pub status : ShardStatus
status = status_from host_config shard
