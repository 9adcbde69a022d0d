-- ===== src/Service/Transfer.antt =====
-- What the HTTP service sends to a guest, and how it reads the answers:
-- `put_artifact_over_vsock`, the envelopes and the `validate_*_response` functions of
-- cert/beamscale-critical-section/infra-runtime-host/src/main.rs.
use rust_app.Prelude.{
  ℕ, zero, suc, ◌-◌, Bool, true, false, not, ◌||◌, Option, none, some, List, [], ◌∷◌, ltb, nat_eq,
  if◌then◌else◌,
}
use rust_app.Prelude.Lists.{length}
use rust_app.Prelude.Text.{Text, bytes, text_eq}
use rust_app.Prelude.Result.{Result, ok, err, ◌>>=◌, ◌>>◌, reject_if, map_err}
use rust_app.Host.Types.{ShardStatus}
use rust_app.Store.{AdmittedArtifact}
use rust_app.Service.Json.{
  Value, unsigned, string, array, json, values_of, or_null, get, as_str, as_bool, as_u64,
}
use rust_app.Service.Types.{
  CapabilityRef, InvokeRequest, CriticalSectionOperation, acquire, renew, release,
  CriticalSectionToken, CriticalSectionRequest, execution_class_name, execution_backend_name,
  GuestError, artifact_timed_out, chunk_size, byte_count_changed, artifact_failed, serialize_header,
  invalid_critical_section, invalid_activation, invalid_artifact, wrong_type, operation_mismatch,
  missing_ok, wrong_activation, activation_rejected, missing_field, invalid_field, other_field,
  wrong_artifact, artifact_rejected, build_mismatch, archive_mismatch, bytes_mismatch,
  missing_state, invalid_state,
}
use rust_app.Service.Checks.{normalize_build_digest}
use rust_app.Service.Stream
use rust_app.Service.Stream.{
  Wire, History, Io, connect_vsock_proxy, write_frame, read_frame, within_deadline,
}

-- The text of `serde_json`, and what it reads from a text.
pub record Codec : Type 0 where
  pub to_vec : Value → Result Text Text
  pub from_slice : Text → Result Text Value

-- `slice::chunks`: the next chunk still takes `room` bytes, and the ones after it `size`.
unfoldable pub chunks_from : ℕ → ℕ → Text → List Text
chunks_from size room [] = []
chunks_from size room (b ∷ []) = (b ∷ []) ∷ []
chunks_from size zero (b ∷ c ∷ s) = (b ∷ []) ∷ chunks_from size (size - 1) (c ∷ s)
chunks_from size (suc room) (b ∷ c ∷ s) = elim (chunks_from size room (c ∷ s)) [
  | [] ↦ (b ∷ []) ∷ []
  | chunk ∷ rest ↦ (b ∷ chunk) ∷ rest
]

abbrev pub chunks : ℕ → Text → List Text
chunks size content = chunks_from size (size - 1) content

abbrev pub operation_name : CriticalSectionOperation → Text
operation_name acquire = bytes "acquire"
operation_name renew = bytes "renew"
operation_name release = bytes "release"

abbrev pub token_value : CriticalSectionToken → Value
token_value token = json (
    (bytes "runtime_epoch", unsigned token.runtime_epoch)
    ∷ (bytes "owner_epoch", unsigned token.owner_epoch)
    ∷ (bytes "sequence", unsigned token.sequence)
    ∷ [])

unfoldable pub critical_section_envelope : CriticalSectionRequest → Value
critical_section_envelope req = json (
    (bytes "op", string (bytes "critical_section"))
    ∷ (bytes "operation", string (operation_name req.operation))
    ∷ (bytes "execution_class", string (execution_class_name req.execution_class))
    ∷ (bytes "execution_backend", string (execution_backend_name req.execution_backend))
    ∷ (bytes "tenant_id", string req.tenant_id)
    ∷ (bytes "namespace", string req.namespace)
    ∷ (bytes "object_key", string req.object_key)
    ∷ (bytes "runtime_epoch", unsigned req.runtime_epoch)
    ∷ (bytes "holder", string req.holder)
    ∷ (bytes "request_id", or_null string req.request_id)
    ∷ (bytes "lease_ms", or_null unsigned req.lease_ms)
    ∷ (bytes "token", or_null token_value req.token)
    ∷ [])

unfoldable pub capability_values : List CapabilityRef → List Value
capability_values [] = []
capability_values (capability ∷ refs) =
    json (
      (bytes "name", string capability.name)
      ∷ (bytes "token_ref", string capability.token_ref)
      ∷ [])
    ∷ capability_values refs

unfoldable pub guest_invocation_envelope : InvokeRequest → Text → Value
guest_invocation_envelope req deployment_id = json (
    (bytes "op", string (bytes "invoke"))
    ∷ (bytes "invocation_id", string req.invocation_id)
    ∷ (bytes "deployment_id", string deployment_id)
    ∷ (bytes "execution_class", string (execution_class_name req.execution_class))
    ∷ (bytes "execution_backend", string (execution_backend_name req.execution_backend))
    ∷ (bytes "tenant_id", string req.tenant_id)
    ∷ (bytes "runtime_epoch", unsigned req.runtime_epoch)
    ∷ (bytes "request", req.request)
    ∷ (bytes "context", req.context)
    ∷ (bytes "capability_refs", array (values_of (capability_values req.capability_refs)))
    ∷ (bytes "timeout_ms", unsigned req.timeout_ms)
    ∷ [])

unfoldable pub artifact_header : ShardStatus → AdmittedArtifact → ℕ → Value
artifact_header shard artifact chunk_bytes = json (
    (bytes "op", string (bytes "put_artifact"))
    ∷ (bytes "execution_class", string (execution_class_name shard.execution_class))
    ∷ (bytes "execution_backend", string (execution_backend_name shard.execution_backend))
    ∷ (bytes "tenant_id", string shard.tenant_id)
    ∷ (bytes "runtime_epoch", unsigned shard.runtime_epoch)
    ∷ (bytes "build_sha256", string artifact.build_sha256)
    ∷ (bytes "archive_sha256", string artifact.archive_sha256)
    ∷ (bytes "archive_name", string artifact.archive_name)
    ∷ (bytes "archive_bytes", unsigned artifact.archive_bytes)
    ∷ (bytes "chunk_bytes", unsigned chunk_bytes)
    ∷ [])

-- `== Some(expected)` of the two kinds of fields.
abbrev pub is_text : Text → Option Text → Bool
is_text expected none = false
is_text expected (some text) = text_eq text expected

abbrev pub is_true : Option Bool → Bool
is_true (some true) = true
is_true _ = false

abbrev pub is_number : ℕ → Option ℕ → Bool
is_number expected none = false
is_number expected (some n) = nat_eq n expected

abbrev pub ok_or : {A : Type 0} → GuestError → Option A → Result GuestError A
ok_or e none = err e
ok_or e (some x) = ok x

-- One round of the loop over the two fields of an activation's answer.
unfoldable pub check_deployment_field : Value → Text → Text → Result GuestError (Unit {0})
check_deployment_field response expected_deployment_id field = do
  value ← ok_or (missing_field field) (as_str (get field response))
  normalized ← map_err (λ _. invalid_field field) (normalize_build_digest value)
  reject_if (not (text_eq normalized expected_deployment_id)) (other_field field)

module _ (wire : Wire) where
  -- `for chunk in ..`: a frame for each chunk.
  unfoldable pub write_chunks : ℕ → List Text → Io (Unit {0})
  write_chunks chunk_bytes [] = Stream.pure tt
  write_chunks chunk_bytes (chunk ∷ rest) =
      Stream.◌>>◌ (write_frame wire chunk chunk_bytes) (write_chunks chunk_bytes rest)

  unfoldable pub transfer : Text → ℕ → Text → Text → ℕ → ℕ → Io Text
  transfer vsock_path guest_port header content max_frame_bytes chunk_bytes =
      Stream.◌>>◌ (connect_vsock_proxy wire vsock_path guest_port) (
        Stream.◌>>◌ (write_frame wire header max_frame_bytes) (
          Stream.◌>>◌ (write_chunks chunk_bytes (chunks chunk_bytes content))
            (read_frame wire max_frame_bytes)))

module _ (codec : Codec) where
  unfoldable pub validate_critical_section_response :
      Text → CriticalSectionOperation → Result GuestError Value
  validate_critical_section_response content expected_operation = do
    response ← map_err invalid_critical_section (codec.from_slice content)
    reject_if (not (is_text (bytes "critical_section_result") (as_str (get (bytes "op") response))))
        wrong_type
    reject_if
        (not
          (is_text (operation_name expected_operation) (as_str (get (bytes "operation") response))))
        operation_mismatch
    present ← ok_or missing_ok (as_bool (get (bytes "ok") response))
    ok response

  unfoldable pub validate_activation_response : Text → Text → Result GuestError (Unit {0})
  validate_activation_response content expected_deployment_id = do
    response ← map_err invalid_activation (codec.from_slice content)
    reject_if
        (not (is_text (bytes "activate_artifact_result") (as_str (get (bytes "op") response))))
        wrong_activation
    reject_if (not (is_true (as_bool (get (bytes "ok") response)))) activation_rejected
    check_deployment_field response expected_deployment_id (bytes "deployment_id")
    check_deployment_field response expected_deployment_id (bytes "active_deployment_id")

  unfoldable pub validate_put_artifact_response :
      Text → AdmittedArtifact → Result GuestError (Unit {0})
  validate_put_artifact_response content artifact = do
    response ← map_err invalid_artifact (codec.from_slice content)
    reject_if (not (is_text (bytes "put_artifact_result") (as_str (get (bytes "op") response))))
        wrong_artifact
    reject_if (not (is_true (as_bool (get (bytes "ok") response)))) artifact_rejected
    reject_if (not (is_text artifact.build_sha256 (as_str (get (bytes "build_sha256") response))))
        build_mismatch
    reject_if
        (not (is_text artifact.archive_sha256 (as_str (get (bytes "archive_sha256") response))))
        archive_mismatch
    reject_if
        (not (is_number artifact.archive_bytes (as_u64 (get (bytes "archive_bytes") response))))
        bytes_mismatch
    state ← ok_or missing_state (as_str (get (bytes "state") response))
    reject_if (not (text_eq state (bytes "stored") || text_eq state (bytes "already_present")))
        invalid_state

  module _ (wire : Wire) where
    -- The transfer and the check of its answer, once the header is there.
    unfoldable pub send_artifact :
        Text
        → ℕ
        → AdmittedArtifact
        → ℕ
        → ℕ
        → Text
        → History
        → Result GuestError (Unit {0}) × History
    send_artifact vsock_path guest_port artifact max_frame_bytes chunk_bytes header h =
        let (r, g) =
          transfer wire vsock_path guest_port header artifact.bytes max_frame_bytes chunk_bytes h in
        (
          (within_deadline artifact_timed_out artifact_failed r >>= λ response.
              validate_put_artifact_response response artifact),
          g,
        )

    unfoldable pub put_artifact_over_vsock :
        Text
        → ℕ
        → ShardStatus
        → AdmittedArtifact
        → ℕ
        → ℕ
        → History
        → Result GuestError (Unit {0}) × History
    put_artifact_over_vsock vsock_path guest_port shard artifact max_frame_bytes chunk_bytes h =
        if nat_eq chunk_bytes 0 || ltb max_frame_bytes chunk_bytes
        then (err chunk_size, h)
        else if not (nat_eq artifact.archive_bytes (length artifact.bytes))
        then (err byte_count_changed, h)
        else elim (codec.to_vec (artifact_header shard artifact chunk_bytes)) [
          | err text ↦ (err (serialize_header text), h)
          | ok header ↦
              send_artifact vsock_path guest_port artifact max_frame_bytes chunk_bytes header h
        ]
