-- ===== src/Service/Checks.antt =====
-- The checks that the HTTP service makes of requests and of shards:
-- cert/beamscale-critical-section/infra-runtime-host/src/main.rs.
use rust_app.Prelude.{
  ℕ, Bool, true, false, not, ◌&&◌, ◌||◌, Option, none, some, List, [], ◌∷◌, ltb, leb, nat_eq,
  if◌then◌else◌,
}
use rust_app.Prelude.Lists.{length, all, is_empty}
use rust_app.Prelude.Text.{Text, bytes, text_eq, starts_with}
use rust_app.Prelude.Result.{Result, ok, err, ◌>>◌, reject_if}
use rust_app.Host.Types
use rust_app.Host.Types.{
  ExecutionClass, ExecutionBackend, ShardStatus, HostError, LifecycleState, hot, warm_idle, faas,
  phoenix, durable_actor, bare_process, class_eq, ℤ, pos, negsuc,
}
use rust_app.Host.Path.{is_alphanumeric}
use rust_app.Host.Validate.{is_subject_byte, is_lower_hex, raw_digest}
use rust_app.Service.Types.{
  CapabilityRef, CriticalSectionOperation, acquire, renew, release, CriticalSectionToken,
  CriticalSectionRequest, StatusCode, bad_request, not_found, conflict, service_unavailable,
  Message, host, digest_shape, tenant_id_shape, shard_id_shape, timeout_range, firecracker_only,
  hosted_class_only, target_mismatch, stale_runtime_epoch, namespace_shape, object_key_shape,
  holder_shape, invalid_arguments, too_many_capabilities, capability_name_shape, token_ref_range,
  capability_twice, ApiError, api_error, refused,
}

abbrev pub Check : Type 0 → Type 0
Check A = Result ApiError A

-- `valid_runtime_identifier`.
unfoldable pub valid_runtime_identifier : Text → Bool
valid_runtime_identifier value =
    not (is_empty value) && leb (length value) 128 && all is_subject_byte value

unfoldable pub validate_shard_identity : Text → Text → Check (Unit {0})
validate_shard_identity tenant shard = do
  reject_if (not (valid_runtime_identifier tenant)) (api_error bad_request tenant_id_shape)
  reject_if (not (valid_runtime_identifier shard)) (api_error bad_request shard_id_shape)

unfoldable pub normalize_build_digest : Text → Result Message Text
normalize_build_digest value =
    if nat_eq (length (raw_digest value)) 64 && all is_lower_hex (raw_digest value)
    then ok (raw_digest value)
    else err digest_shape

-- The same where a refusal is answered as a bad request.
abbrev pub requested_digest : Text → Check Text
requested_digest value = elim (normalize_build_digest value) [
  | ok digest ↦ ok digest
  | err message ↦ refused bad_request message
]

-- `(1..=n).contains(&timeout_ms)`.
abbrev pub check_timeout : ℕ → ℕ → Check (Unit {0})
check_timeout greatest timeout_ms =
    reject_if (nat_eq timeout_ms 0 || ltb greatest timeout_ms) (api_error bad_request timeout_range)

-- `(-1..=1).contains(&active_delta)`.
unfoldable pub is_unit_delta : ℤ → Bool
is_unit_delta (pos n) = leb n 1
is_unit_delta (negsuc n) = nat_eq n 0

abbrev is_capability_byte : ℕ → Bool
is_capability_byte b = is_alphanumeric b || nat_eq b b'.' || nat_eq b b'_' || nat_eq b b'-'

unfoldable pub valid_capability_name : Text → Bool
valid_capability_name name =
    if leb (length name) 4 || ltb 128 (length name) || not (starts_with (bytes "ctx.") name)
    then false
    else all is_capability_byte name

-- `contains` of a set of strings that is the list of its elements.
unfoldable pub holds_text : Text → List Text → Bool
holds_text name [] = false
holds_text name (other ∷ names) = text_eq name other || holds_text name names

-- The loop of `validate_capability_refs`, with the names that it has met.
unfoldable pub check_capabilities : List Text → List CapabilityRef → Result Message (Unit {0})
check_capabilities names [] = ok tt
check_capabilities names (capability ∷ refs) = do
  reject_if (not (valid_capability_name capability.name)) capability_name_shape
  reject_if (is_empty capability.token_ref || ltb 256 (length capability.token_ref)) token_ref_range
  reject_if (holds_text capability.name names) capability_twice
  check_capabilities (capability.name ∷ names) refs

unfoldable pub validate_capability_refs : List CapabilityRef → Result Message (Unit {0})
validate_capability_refs refs = do
  reject_if (ltb 64 (length refs)) too_many_capabilities
  check_capabilities [] refs

-- `contains('\0')`.
unfoldable pub contains_nul : Text → Bool
contains_nul [] = false
contains_nul (b ∷ s) = nat_eq b 0 || contains_nul s

abbrev pub max_critical_section_sequence : ℕ
max_critical_section_sequence = 9007199254740991

abbrev pub lease_ok : Option ℕ → Bool
lease_ok none = false
lease_ok (some lease) = leb 1 lease && leb lease 300000

abbrev pub request_id_ok : Option Text → Bool
request_id_ok none = false
request_id_ok (some id) = not (is_empty id) && leb (length id) 256 && not (contains_nul id)

abbrev pub token_ok : Option CriticalSectionToken → Bool
token_ok none = false
token_ok (some token) =
    ltb 0 token.runtime_epoch
    && ltb 0 token.owner_epoch
    && ltb 0 token.sequence
    && leb token.sequence max_critical_section_sequence

abbrev pub is_none : {A : Type 0} → Option A → Bool
is_none none = true
is_none (some x) = false

-- The `match req.operation` of the request's validation.
unfoldable pub arguments_ok : CriticalSectionOperation → CriticalSectionRequest → Bool
arguments_ok acquire req =
    lease_ok req.lease_ms && request_id_ok req.request_id && is_none req.token
arguments_ok renew req = lease_ok req.lease_ms && is_none req.request_id && token_ok req.token
arguments_ok release req = is_none req.lease_ms && is_none req.request_id && token_ok req.token

unfoldable pub validate_critical_section_request : CriticalSectionRequest → Check (Unit {0})
validate_critical_section_request req = do
  check_timeout 60000 req.timeout_ms
  reject_if (not (valid_runtime_identifier req.namespace)) (api_error bad_request namespace_shape)
  reject_if
      (is_empty req.object_key || ltb 4096 (length req.object_key) || contains_nul req.object_key)
      (api_error bad_request object_key_shape)
  reject_if (is_empty req.holder || ltb 256 (length req.holder) || contains_nul req.holder)
      (api_error bad_request holder_shape)
  reject_if (not (arguments_ok req.operation req)) (api_error bad_request invalid_arguments)

abbrev pub backend_eq : ExecutionBackend → ExecutionBackend → Bool
backend_eq bare_process bare_process = true
backend_eq ExecutionBackend.firecracker ExecutionBackend.firecracker = true
backend_eq _ _ = false

abbrev pub is_hosted_class : ExecutionClass → Bool
is_hosted_class faas = false
is_hosted_class phoenix = true
is_hosted_class durable_actor = true

unfoldable pub validate_firecracker_target : ExecutionClass → ExecutionBackend → Check (Unit {0})
validate_firecracker_target class backend = do
  reject_if (not (backend_eq backend ExecutionBackend.firecracker))
      (api_error bad_request firecracker_only)
  reject_if (not (is_hosted_class class)) (api_error bad_request hosted_class_only)

unfoldable pub check_execution_target :
    ShardStatus → ExecutionClass → ExecutionBackend → Check (Unit {0})
check_execution_target status class backend = do
  validate_firecracker_target class backend
  reject_if
      (not (class_eq status.execution_class class)
        || not (backend_eq status.execution_backend backend))
      (api_error conflict target_mismatch)

unfoldable pub check_runtime_epoch : ShardStatus → ℕ → Check (Unit {0})
check_runtime_epoch status requested =
    reject_if (not (nat_eq status.runtime_epoch requested))
      (api_error conflict (stale_runtime_epoch requested status.runtime_epoch))

-- `LifecycleState::Hot | LifecycleState::WarmIdle`.
abbrev pub is_running : LifecycleState → Bool
is_running hot = true
is_running warm_idle = true
is_running _ = false

-- `map_err`: the status of an error of the host.
unfoldable pub status_of : HostError → StatusCode
status_of Types.unknown_shard = not_found
status_of (Types.stale_epoch _ _) = conflict
status_of Types.epoch_replacement_conflict = conflict
status_of (Types.invalid_state _) = conflict
status_of (Types.identity_conflict _) = conflict
status_of (Types.invalid_policy _) = bad_request
status_of (Types.invalid_identity _) = bad_request
status_of (Types.invalid_execution_target _) = bad_request
status_of (Types.firecracker _) = service_unavailable
status_of (Types.cgroup _) = service_unavailable
status_of (Types.identity _) = service_unavailable
status_of (Types.io _) = service_unavailable

unfoldable pub map_err : HostError → ApiError
map_err e = api_error (status_of e) (host e)
