-- ===== src/Host/Types.antt =====
-- The data of the runtime host: the types of
-- cert/beamscale-critical-section/infra-runtime-host/src/lib.rs. A string is the list of its
-- bytes; a message of an error is a constructor of `Reason` that stands for its format string.
use rust_app.Prelude.{ℕ, Bool, true, false, ◌&&◌, Option}
use rust_app.Prelude.Text.{Text, bytes, text_eq, text_eq_iff}
use rust_app.Prelude.Dict.{Eq}
use rust_app.Prelude.{◌≡◌, ◌↔◌, arith}

pub data ExecutionClass : Type 0 where
  faas phoenix durable_actor : ExecutionClass

pub data ExecutionBackend : Type 0 where
  bare_process firecracker : ExecutionBackend

pub record ShardKey : Type 0 where
  pub execution_class : ExecutionClass
  pub tenant_id : Text
  pub shard_id : Text

pub data LifecycleState : Type 0 where
  cold starting hot warm_idle hibernated draining terminated : LifecycleState

pub record RuntimePolicy : Type 0 where
  pub vcpu_count : ℕ
  pub memory_mib : ℕ
  pub snapshot_enabled : Bool
  pub warm_idle_ms : ℕ
  pub hibernate_after_ms : ℕ
  pub destroy_after_ms : ℕ

pub record EnsureShardRequest : Type 0 where
  pub user_id : Text
  pub tenant_id : Text
  pub shard_id : Text
  pub execution_class : ExecutionClass
  pub execution_backend : ExecutionBackend
  pub tenant_isolation : Text
  pub runtime_epoch : ℕ
  pub root_deployment_id : Text
  pub deployment_digest : Text
  pub policy : RuntimePolicy

pub record EpochRequest : Type 0 where
  pub tenant_id : Text
  pub shard_id : Text
  pub execution_class : ExecutionClass
  pub execution_backend : ExecutionBackend
  pub runtime_epoch : ℕ

-- An `i32`: `pos n`, or `negsuc n` for -(n + 1).
pub data ℤ : Type 0 where
  pos : ℕ → ℤ
  negsuc : ℕ → ℤ

pub record TouchRequest : Type 0 where
  pub tenant_id : Text
  pub shard_id : Text
  pub execution_class : ExecutionClass
  pub execution_backend : ExecutionBackend
  pub runtime_epoch : ℕ
  pub active_delta : ℤ
  pub ingress_bytes : ℕ
  pub egress_bytes : ℕ

-- What an `std::io::Error` is asked for: whether its kind is `NotFound`.
pub data IoError : Type 0 where
  not_found other : IoError

pub data Reason : Type 0 where
  vcpu_range memory_floor thresholds_order : Reason
  resource_id_shape subject_shape : Text → Reason
  digest_shape identity_changed : Reason
  wrong_backend wrong_class wrong_isolation : Reason
  required_file not_regular writable_file : Text → Reason
  bin_file_name bin_relative paths_relative : Reason
  spawn_jailer : Text → Reason
  no_pid : Reason
  interior_nul chown_failed resolve_ip : Text → Reason
  create_netns create_netns_status delete_netns delete_netns_status : Text → Reason
  kill_status : ℕ → Reason
  socket_timeout connect_failed : Text → Reason
  malformed_response : Text → Reason
  returned_status : Text → Text → ℕ → Reason
  cgroup_create cgroup_write : Text → Reason
  cpu_stat_read cpu_stat_missing memory_read memory_parse : Reason
  launch_writer writer_failed : Text → Reason

pub data HostError : Type 0 where
  invalid_policy : Reason → HostError
  unknown_shard : HostError
  stale_epoch : ℕ → ℕ → HostError
  epoch_replacement_conflict : HostError
  invalid_state : LifecycleState → HostError
  firecracker : Reason → HostError
  cgroup : Reason → HostError
  invalid_identity : Reason → HostError
  identity_conflict : Reason → HostError
  invalid_execution_target : Reason → HostError
  identity : Reason → HostError
  io : IoError → HostError

pub data Result (A : Type 0) : Type 0 where
  ok : A → Result A
  err : HostError → Result A

-- `last_error` holds the text of an error; here it holds the error that the text prints.
pub record ShardRecord : Type 0 where
  pub key : ShardKey
  pub runtime_epoch : ℕ
  pub deployment_digest : Text
  pub user_id : Text
  pub root_deployment_id : Text
  pub state : LifecycleState
  pub policy : RuntimePolicy
  pub active_invocations : ℕ
  pub last_active_unix_ms : ℕ
  pub process_pid : Option ℕ
  pub api_socket : Option Text
  pub vsock_path : Option Text
  pub last_error : Option HostError
  pub request_count : ℕ
  pub ingress_bytes : ℕ
  pub egress_bytes : ℕ
  pub memory_byte_ms : ℕ
  pub last_meter_unix_ms : ℕ

pub record ShardStatus : Type 0 where
  pub tenant_id : Text
  pub shard_id : Text
  pub execution_class : ExecutionClass
  pub execution_backend : ExecutionBackend
  pub runtime_epoch : ℕ
  pub deployment_digest : Text
  pub state : LifecycleState
  pub backend : Text
  pub vcpu_count : ℕ
  pub memory_mib : ℕ
  pub active_invocations : ℕ
  pub last_active_unix_ms : ℕ
  pub process_pid : Option ℕ
  pub api_socket : Option Text
  pub vsock_path : Option Text
  pub last_error : Option HostError

pub record MeteringSample : Type 0 where
  pub tenant_id : Text
  pub shard_id : Text
  pub execution_class : ExecutionClass
  pub execution_backend : ExecutionBackend
  pub runtime_epoch : ℕ
  pub request_count : ℕ
  pub cpu_ns : ℕ
  pub memory_current_bytes : ℕ
  pub memory_byte_ms : ℕ
  pub ingress_bytes : ℕ
  pub egress_bytes : ℕ

pub data BackendKind : Type 0 where
  firecracker mock : BackendKind

unfoldable pub backend_name : BackendKind → Text
backend_name BackendKind.firecracker = bytes "firecracker"
backend_name BackendKind.mock = bytes "mock"

pub record HostConfig : Type 0 where
  pub backend : BackendKind
  pub firecracker_bin : Text
  pub jailer_bin : Text
  pub jailer_chroot_base : Text
  pub jailer_uid : ℕ
  pub jailer_gid : ℕ
  pub ip_bin : Text
  pub netns_root : Text
  pub kernel_image : Text
  pub rootfs_image : Text
  pub runtime_dir : Text
  pub cgroup_root : Text
  pub identity_root : Text
  pub identity_writer_bin : Text
  pub vmm_overhead_mib : ℕ
  pub boot_args : Text
  pub api_socket_timeout_ms : ℕ

pub record RuntimeHandles : Type 0 where
  pub pid : Option ℕ
  pub api_socket : Option Text
  pub vsock_path : Option Text

-- The derived equality of `ShardKey`.
abbrev pub class_eq : ExecutionClass → ExecutionClass → Bool
class_eq ExecutionClass.faas ExecutionClass.faas = true
class_eq ExecutionClass.phoenix ExecutionClass.phoenix = true
class_eq ExecutionClass.durable_actor ExecutionClass.durable_actor = true
class_eq _ _ = false

unfoldable pub key_eq : ShardKey → ShardKey → Bool
key_eq j k =
    class_eq j.execution_class k.execution_class
    && text_eq j.tenant_id k.tenant_id
    && text_eq j.shard_id k.shard_id

key_eq→≡ : (j k : ShardKey) → key_eq j k ≡ true → j ≡ k
unfolding key_eq
key_eq→≡ j k h =
    ground (arith, text_eq_iff j.tenant_id k.tenant_id, text_eq_iff j.shard_id k.shard_id)

key_eq_refl : (k : ShardKey) → key_eq k k ≡ true
unfolding key_eq
key_eq_refl k =
    ground (arith, text_eq_iff k.tenant_id k.tenant_id, text_eq_iff k.shard_id k.shard_id)

pub key_eq_iff : (j k : ShardKey) → (key_eq j k ≡ true) ↔ (j ≡ k)
key_eq_iff j k = (key_eq→≡ j k, λ e. rw e (key_eq_refl k))

instance abbrev pub shard_key_eq : Eq ShardKey
shard_key_eq = record { beq = key_eq; beq_iff = key_eq_iff }
