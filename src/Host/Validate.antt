-- ===== src/Host/Validate.antt =====
-- The checks that the runtime host makes of a request before it looks at its shards:
-- `RuntimePolicy::validate` and the `validate_*` functions of
-- cert/beamscale-critical-section/infra-runtime-host/src/lib.rs.
use rust_app.Prelude.{ℕ, Bool, true, false, not, ◌&&◌, ◌||◌, ltb, leb, nat_eq, if◌then◌else◌}
use rust_app.Prelude.Lists.{length, all, is_empty}
use rust_app.Prelude.Text.{Text, bytes, text_eq, starts_with, strip}
use rust_app.Host.Types.{
  ExecutionClass, ExecutionBackend, RuntimePolicy, invalid_policy, invalid_identity,
  invalid_execution_target, vcpu_range, memory_floor, thresholds_order, resource_id_shape,
  subject_shape, digest_shape, wrong_backend, wrong_class, wrong_isolation, Result, ok, err,
}
use rust_app.Host.Path.{is_alphanumeric, is_digit}

-- `RuntimePolicy::validate`.
unfoldable pub validate : RuntimePolicy → Result (Unit {0})
validate p =
    if nat_eq p.vcpu_count 0 || ltb 32 p.vcpu_count
    then err (invalid_policy vcpu_range)
    else if ltb p.memory_mib 64
    then err (invalid_policy memory_floor)
    else if nat_eq p.warm_idle_ms 0
        || leb p.hibernate_after_ms p.warm_idle_ms
        || leb p.destroy_after_ms p.hibernate_after_ms
    then err (invalid_policy thresholds_order)
    else ok tt

abbrev pub is_resource_byte : ℕ → Bool
is_resource_byte c = is_alphanumeric c || nat_eq c b'-' || nat_eq c b'_'

unfoldable pub validate_resource_id : Text → Text → Result (Unit {0})
validate_resource_id name value =
    if is_empty value || ltb 128 (length value) || not (all is_resource_byte value)
    then err (invalid_policy (resource_id_shape name))
    else ok tt

abbrev pub is_subject_byte : ℕ → Bool
is_subject_byte c = is_alphanumeric c || nat_eq c b'.' || nat_eq c b'_' || nat_eq c b'-'

unfoldable pub validate_runtime_subject : Text → Text → Result (Unit {0})
validate_runtime_subject name value =
    if not (is_empty value) && leb (length value) 128 && all is_subject_byte value
    then ok tt
    else err (invalid_identity (subject_shape name))

abbrev is_firecracker : ExecutionBackend → Bool
is_firecracker ExecutionBackend.firecracker = true
is_firecracker ExecutionBackend.bare_process = false

abbrev is_hosted_class : ExecutionClass → Bool
is_hosted_class ExecutionClass.faas = false
is_hosted_class _ = true

unfoldable pub validate_execution_request : ExecutionClass → ExecutionBackend → Result (Unit {0})
validate_execution_request execution_class execution_backend =
    if not (is_firecracker execution_backend)
    then err (invalid_execution_target wrong_backend)
    else if not (is_hosted_class execution_class)
    then err (invalid_execution_target wrong_class)
    else ok tt

unfoldable pub validate_execution_target :
    ExecutionClass → ExecutionBackend → Text → Result (Unit {0})
unfolding validate_execution_request
validate_execution_target execution_class execution_backend tenant_isolation =
    elim (validate_execution_request execution_class execution_backend) [
      | err e ↦ err e
      | ok _ ↦
          if not (text_eq tenant_isolation (bytes "single_tenant_microvm"))
          then err (invalid_execution_target wrong_isolation)
          else ok tt
    ]

-- `is_ascii_hexdigit() && !is_ascii_uppercase()`.
abbrev pub is_lower_hex : ℕ → Bool
is_lower_hex c = is_digit c || (leb b'a' c && leb c b'f')

-- `value.strip_prefix("sha256:").unwrap_or(value)`.
unfoldable pub raw_digest : Text → Text
raw_digest value =
    if starts_with (bytes "sha256:") value then strip (bytes "sha256:") value else value

unfoldable pub validate_digest : Text → Result (Unit {0})
unfolding raw_digest
validate_digest value =
    if nat_eq (length (raw_digest value)) 64 && all is_lower_hex (raw_digest value)
    then ok tt
    else err (invalid_policy digest_shape)
