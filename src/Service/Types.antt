-- ===== src/Service/Types.antt =====
-- The data of the runtime host's HTTP service,
-- cert/beamscale-critical-section/infra-runtime-host/src/main.rs: the requests and who they are
-- for, the answers, and the errors with their status. A text of an error is a constructor.
use rust_app.Prelude.{ℕ, Bool, Option, List}
use rust_app.Prelude.Text.{Text, bytes}
use rust_app.Prelude.BTree.{BTreeMap}
use rust_app.Prelude.Result.{Result, err}
use rust_app.Host.Types.{
  ExecutionClass, ExecutionBackend, EnsureShardRequest, EpochRequest, TouchRequest, ShardStatus,
  MeteringSample, HostError, LifecycleState, faas, phoenix, durable_actor, bare_process,
}
use rust_app.Store.{ArtifactStoreError}
use rust_app.Auth.{AuthError}
use rust_app.Service.Json.{Value}

pub record ShardEpochKey : Type 0 where
  pub execution_class : ExecutionClass
  pub tenant_id : Text
  pub shard_id : Text
  pub runtime_epoch : ℕ

-- A BTreeSet is a BTreeMap of its elements.
pub record ObservedActivation : Type 0 where
  pub root_active_deployment_id : Option Text
  pub loaded_deployment_ids : BTreeMap (Unit {0})

pub record CapabilityRef : Type 0 where
  pub name : Text
  pub token_ref : Text

pub record InvokeRequest : Type 0 where
  pub tenant_id : Text
  pub shard_id : Text
  pub execution_class : ExecutionClass
  pub execution_backend : ExecutionBackend
  pub runtime_epoch : ℕ
  pub invocation_id : Text
  pub deployment_id : Text
  pub request : Value
  pub context : Value
  pub capability_refs : List CapabilityRef
  pub timeout_ms : ℕ

pub data CriticalSectionOperation : Type 0 where
  acquire renew release : CriticalSectionOperation

pub record CriticalSectionToken : Type 0 where
  pub runtime_epoch : ℕ
  pub owner_epoch : ℕ
  pub sequence : ℕ

pub record CriticalSectionRequest : Type 0 where
  pub tenant_id : Text
  pub shard_id : Text
  pub execution_class : ExecutionClass
  pub execution_backend : ExecutionBackend
  pub runtime_epoch : ℕ
  pub deployment_id : Text
  pub operation : CriticalSectionOperation
  pub namespace : Text
  pub object_key : Text
  pub holder : Text
  pub request_id : Option Text
  pub lease_ms : Option ℕ
  pub token : Option CriticalSectionToken
  pub timeout_ms : ℕ

pub record ActivateRequest : Type 0 where
  pub tenant_id : Text
  pub shard_id : Text
  pub execution_class : ExecutionClass
  pub execution_backend : ExecutionBackend
  pub runtime_epoch : ℕ
  pub deployment_id : Text
  pub timeout_ms : ℕ

pub record ActivationStatus : Type 0 where
  pub tenant_id : Text
  pub shard_id : Text
  pub execution_class : ExecutionClass
  pub execution_backend : ExecutionBackend
  pub runtime_epoch : ℕ
  pub placement_deployment_id : Text
  pub observed : Bool
  pub root_active_deployment_id : Option Text
  pub loaded_deployment_ids : List Text

-- The implementers of `RuntimeRequestIdentity`, and its methods.
pub data RuntimeRequest : Type 0 where
  ensure_body : EnsureShardRequest → RuntimeRequest
  epoch_body : EpochRequest → RuntimeRequest
  touch_body : TouchRequest → RuntimeRequest
  activate_body : ActivateRequest → RuntimeRequest
  invoke_body : InvokeRequest → RuntimeRequest
  critical_section_body : CriticalSectionRequest → RuntimeRequest

unfoldable pub tenant_id : RuntimeRequest → Text
tenant_id (ensure_body req) = req.tenant_id
tenant_id (epoch_body req) = req.tenant_id
tenant_id (touch_body req) = req.tenant_id
tenant_id (activate_body req) = req.tenant_id
tenant_id (invoke_body req) = req.tenant_id
tenant_id (critical_section_body req) = req.tenant_id

unfoldable pub shard_id : RuntimeRequest → Text
shard_id (ensure_body req) = req.shard_id
shard_id (epoch_body req) = req.shard_id
shard_id (touch_body req) = req.shard_id
shard_id (activate_body req) = req.shard_id
shard_id (invoke_body req) = req.shard_id
shard_id (critical_section_body req) = req.shard_id

unfoldable pub execution_class : RuntimeRequest → ExecutionClass
execution_class (ensure_body req) = req.execution_class
execution_class (epoch_body req) = req.execution_class
execution_class (touch_body req) = req.execution_class
execution_class (activate_body req) = req.execution_class
execution_class (invoke_body req) = req.execution_class
execution_class (critical_section_body req) = req.execution_class

unfoldable pub execution_backend : RuntimeRequest → ExecutionBackend
execution_backend (ensure_body req) = req.execution_backend
execution_backend (epoch_body req) = req.execution_backend
execution_backend (touch_body req) = req.execution_backend
execution_backend (activate_body req) = req.execution_backend
execution_backend (invoke_body req) = req.execution_backend
execution_backend (critical_section_body req) = req.execution_backend

unfoldable pub runtime_epoch : RuntimeRequest → ℕ
runtime_epoch (ensure_body req) = req.runtime_epoch
runtime_epoch (epoch_body req) = req.runtime_epoch
runtime_epoch (touch_body req) = req.runtime_epoch
runtime_epoch (activate_body req) = req.runtime_epoch
runtime_epoch (invoke_body req) = req.runtime_epoch
runtime_epoch (critical_section_body req) = req.runtime_epoch

unfoldable pub execution_class_name : ExecutionClass → Text
execution_class_name faas = bytes "faas"
execution_class_name phoenix = bytes "phoenix"
execution_class_name durable_actor = bytes "durable_actor"

unfoldable pub execution_backend_name : ExecutionBackend → Text
execution_backend_name bare_process = bytes "bare_process"
execution_backend_name ExecutionBackend.firecracker = bytes "firecracker"

pub data StatusCode : Type 0 where
  bad_request unauthorized not_found conflict payload_too_large : StatusCode
  internal_server_error bad_gateway service_unavailable : StatusCode

-- What may go wrong on the stream to the guest. `elapsed` is the deadline of `timeout`, which may
-- pass at any call.
pub data StreamError : Type 0 where
  system : Text → StreamError
  guest_frame_length host_frame_length : ℕ → StreamError
  non_utf8_ack : StreamError
  handshake_failed : Text → StreamError
  elapsed : StreamError

-- The texts of the `Err(String)`s.
pub data GuestError : Type 0 where
  transport_timed_out artifact_timed_out chunk_size byte_count_changed : GuestError
  transport_failed artifact_failed : StreamError → GuestError
  serialize_header invalid_critical_section invalid_activation invalid_artifact : Text → GuestError
  wrong_type operation_mismatch missing_ok : GuestError
  wrong_activation activation_rejected : GuestError
  missing_field invalid_field other_field : Text → GuestError
  wrong_artifact artifact_rejected build_mismatch archive_mismatch : GuestError
  bytes_mismatch missing_state invalid_state : GuestError

-- What handlers say in several texts of one meaning is one constructor.
pub data Message : Type 0 where
  auth : AuthError → Message
  host : HostError → Message
  guest : GuestError → Message
  serde : Text → Message
  replay_detected non_canonical_digest activate_required : Message
  tenant_id_shape shard_id_shape digest_shape timeout_range : Message
  firecracker_only hosted_class_only target_mismatch : Message
  stale_runtime_epoch : ℕ → ℕ → Message
  not_activatable not_runnable : LifecycleState → Message
  frame_too_large active_delta_range durable_actor_only : Message
  namespace_shape object_key_shape holder_shape invalid_arguments : Message
  invocation_id_range objects_required : Message
  too_many_capabilities capability_name_shape token_ref_range capability_twice : Message
  deployment_not_loaded missing_vsock_path missing_artifact still_active : Message
  artifact_preflight : Text → ArtifactStoreError → Message

pub record ApiError : Type 0 where
  pub status : StatusCode
  pub message : Message

abbrev pub api_error : StatusCode → Message → ApiError
api_error status message = record { status = status; message = message }

abbrev pub refused : {A : Type 0} → StatusCode → Message → Result ApiError A
refused status message = err (api_error status message)

-- The bodies of the answers.
pub data Answer : Type 0 where
  ok_text : Answer
  shard : ShardStatus → Answer
  activation : ActivationStatus → Answer
  metering : MeteringSample → Answer
  json : Value → Answer
