-- ===== src/Service/Invocations.antt =====
-- The invocations of the HTTP service: `invoke` and `critical_section` of
-- cert/beamscale-critical-section/infra-runtime-host/src/main.rs.
use rust_app.Prelude.{ℕ, ◌||◌, Bool, true, not, Option, none, some, [], ◌∷◌, ltb, if◌then◌else◌}
use rust_app.Prelude.Lists.{length, is_empty}
use rust_app.Prelude.Text.{Text, bytes, text_eq}
use rust_app.Prelude.Result.{Result, ok, err, reject_if}
use rust_app.Host.Types.{
  ShardStatus, ShardStatus, TouchRequest, ℤ, pos, negsuc, durable_actor, class_eq,
}
use rust_app.Host.Ops
use rust_app.Store.{ArtifactStoreError}
use rust_app.Store.Archive.{resolve}
use rust_app.Auth.{SignedRequest}
use rust_app.Service.Json.{Value, string, unsigned, bool, null, json, or_null, is_object}
use rust_app.Service.Types.{
  RuntimeRequest, invoke_body, critical_section_body, tenant_id, shard_id, execution_class,
  execution_backend, runtime_epoch, InvokeRequest, CriticalSectionRequest, CriticalSectionOperation,
  acquire, renew, release, StatusCode, bad_request, conflict, payload_too_large,
  internal_server_error, bad_gateway, service_unavailable, Message, not_runnable, frame_too_large,
  durable_actor_only, invocation_id_range, objects_required, deployment_not_loaded,
  missing_vsock_path, artifact_preflight, ApiError, api_error, refused,
}
use rust_app.Service.Checks.{
  Check, validate_shard_identity, requested_digest, check_timeout, validate_firecracker_target,
  check_execution_target, check_runtime_epoch, is_running, validate_capability_refs,
  validate_critical_section_request,
}
use rust_app.Service.Stream.{invoke_over_vsock}
use rust_app.Service.Transfer.{
  operation_name, token_value, critical_section_envelope, guest_invocation_envelope,
  validate_critical_section_response,
}
use rust_app.Service.Activations.{deployment_allowed, shard_epoch_key_eq}
use rust_app.Service.Authority.{authorize_runtime_request}
use rust_app.Service.State.{
  World, Setup, Handler, ◌>>=◌, ◌>>◌, pure, check, attempt, on_host, on_store, on_wire,
  serde_answer, guest_answer,
}
use rust_app.Service.Handlers.{host_get}

-- The path that the mock backend does not need.
abbrev pub path_or_refuse : Option Text → Check Text
path_or_refuse none = refused service_unavailable missing_vsock_path
path_or_refuse (some path) = ok path

abbrev pub is_mock : Text → Bool
is_mock backend = text_eq backend (bytes "mock")

-- The `TouchRequest` of an invocation's beginning or end.
unfoldable pub touch_request : RuntimeRequest → ℤ → ℕ → ℕ → TouchRequest
touch_request req active_delta ingress egress = record {
  tenant_id = tenant_id req;
  shard_id = shard_id req;
  execution_class = execution_class req;
  execution_backend = execution_backend req;
  runtime_epoch = runtime_epoch req;
  active_delta = active_delta;
  ingress_bytes = ingress;
  egress_bytes = egress;
}

abbrev pub preflight_error : Text → ArtifactStoreError → ApiError
preflight_error digest e = api_error service_unavailable (artifact_preflight digest e)

abbrev pub response_length : Result ApiError Text → ℕ
response_length (ok content) = length content
response_length (err e) = 0

abbrev pub bad_message : Result Message (Unit {0}) → Check (Unit {0})
bad_message (ok _) = ok tt
bad_message (err message) = refused bad_request message

abbrev pub read_response : Result Text Value → Check Value
read_response (ok value) = ok value
read_response (err text) = refused bad_gateway (Message.serde text)

unfoldable pub mock_invocation : InvokeRequest → Value
mock_invocation req = json (
    (bytes "invocation_id", string req.invocation_id)
    ∷ (bytes "ok", bool true)
    ∷ (bytes "payload_encoding", string (bytes "mock"))
    ∷ (bytes "payload_etf_base64", null)
    ∷ [])

unfoldable pub mock_critical_section : CriticalSectionOperation → CriticalSectionRequest → Value
mock_critical_section release req = json (
    (bytes "op", string (bytes "critical_section_result"))
    ∷ (bytes "operation", string (operation_name release))
    ∷ (bytes "ok", bool true)
    ∷ [])
mock_critical_section acquire req = json (
    (bytes "op", string (bytes "critical_section_result"))
    ∷ (bytes "operation", string (operation_name acquire))
    ∷ (bytes "ok", bool true)
    ∷ (
      bytes "token",
      token_value (record {
        runtime_epoch = req.runtime_epoch;
        owner_epoch = req.runtime_epoch;
        sequence = 1;
      }),
    )
    ∷ (bytes "expires_at_ms", unsigned 1)
    ∷ [])
mock_critical_section renew req = json (
    (bytes "op", string (bytes "critical_section_result"))
    ∷ (bytes "operation", string (operation_name renew))
    ∷ (bytes "ok", bool true)
    ∷ (bytes "token", or_null token_value req.token)
    ∷ (bytes "expires_at_ms", unsigned 1)
    ∷ [])

module _ (world : World) (setup : Setup) where
  abbrev pub serialize : StatusCode → Value → Handler Text
  serialize status value = check (serde_answer status (world.codec.to_vec value))

  -- The bytes for the guest, where they fit in a frame.
  unfoldable pub framed : Value → Handler Text
  framed envelope = do
    request_bytes ← serialize bad_request envelope
    check (
        reject_if (ltb setup.guest_max_frame_bytes (length request_bytes))
          (api_error payload_too_large frame_too_large))
    pure request_bytes

  abbrev pub speak : Text → Text → ℕ → Handler Text
  speak path request_bytes timeout_ms = on_wire service_unavailable (
      invoke_over_vsock world.wire path setup.guest_vsock_port request_bytes
        setup.guest_max_frame_bytes)

  -- What `invoke` and `critical_section` do while they hold the shard's gate, once the host has
  -- told the shard's status: the invocation is counted in. The result is the backend and the path
  -- to the guest.
  unfoldable pub admit_found :
      RuntimeRequest → Text → ℕ → ShardStatus → Handler (Text × Option Text)
  admit_found req deployment_id request_length status = do
    check (check_runtime_epoch status (runtime_epoch req))
    check (check_execution_target status (execution_class req) (execution_backend req))
    check
        (reject_if (not (is_running status.state)) (api_error conflict (not_runnable status.state)))
    allowed ← deployment_allowed status deployment_id
    check (reject_if (not allowed) (api_error conflict deployment_not_loaded))
    on_host (Ops.touch world.host setup.config (touch_request req (pos 1) request_length 0))
    pure (status.backend, status.vsock_path)

  unfoldable pub admit : RuntimeRequest → Text → ℕ → Handler (Text × Option Text)
  admit req deployment_id request_length = do
    status ← host_get world setup (execution_class req) (tenant_id req) (shard_id req)
    admit_found req deployment_id request_length status

  -- The invocation is counted out, whatever came of it.
  unfoldable pub count_out : RuntimeRequest → Result ApiError Text → Handler Text
  count_out req result = do
    on_host (
        Ops.touch world.host setup.config (touch_request req (negsuc 0) 0 (response_length result)))
    check result

  unfoldable pub invoke_transport : InvokeRequest → Text → Text → Text × Option Text → Handler Text
  invoke_transport req deployment_id request_bytes (backend, vsock_path) =
      if is_mock backend then serialize internal_server_error (mock_invocation req) else do
        on_store (preflight_error deployment_id) (resolve world.store setup.store deployment_id)
        path ← check (path_or_refuse vsock_path)
        speak path request_bytes req.timeout_ms

  -- The checks at the head of `invoke`, after the authorization.
  unfoldable pub check_invocation : InvokeRequest → Handler (Unit {0})
  check_invocation req = do
    check (validate_shard_identity req.tenant_id req.shard_id)
    check (validate_firecracker_target req.execution_class req.execution_backend)
    check (
        reject_if (is_empty req.invocation_id || ltb 128 (length req.invocation_id))
          (api_error bad_request invocation_id_range))
    check (check_timeout 300000 req.timeout_ms)
    check (
        reject_if (not (is_object req.request) || not (is_object req.context))
          (api_error bad_request objects_required))
    check (bad_message (validate_capability_refs req.capability_refs))

  -- The invocation between its two counts, and after them.
  unfoldable pub counted :
      RuntimeRequest → Text → ℕ → (Text × Option Text → Handler Text) → Handler Text
  counted req deployment_id request_length transport = do
    target ← admit req deployment_id request_length
    result ← attempt (transport target)
    count_out req result

  unfoldable pub invoke_admitted : InvokeRequest → Handler Value
  invoke_admitted req = do
    check_invocation req
    deployment_id ← check (requested_digest req.deployment_id)
    request_bytes ← framed (guest_invocation_envelope req deployment_id)
    response_bytes ←
        counted (invoke_body req) deployment_id (length request_bytes)
          (invoke_transport req deployment_id request_bytes)
    check (read_response (world.codec.from_slice response_bytes))

  unfoldable pub invoke : SignedRequest InvokeRequest → Handler Value
  invoke signed = do
    authorize_runtime_request world setup (bytes "invoke") (invoke_body signed.request)
        signed.contract
    invoke_admitted signed.request

  unfoldable pub critical_section_transport :
      CriticalSectionRequest → Text → Text × Option Text → Handler Text
  critical_section_transport req request_bytes (backend, vsock_path) =
      if is_mock backend
      then serialize internal_server_error (mock_critical_section req.operation req)
      else do path ← check (path_or_refuse vsock_path); speak path request_bytes req.timeout_ms

  unfoldable pub critical_section_admitted : CriticalSectionRequest → Handler Value
  critical_section_admitted req = do
    check (validate_shard_identity req.tenant_id req.shard_id)
    check (validate_firecracker_target req.execution_class req.execution_backend)
    check (
        reject_if (not (class_eq req.execution_class durable_actor))
          (api_error bad_request durable_actor_only))
    check (validate_critical_section_request req)
    deployment_id ← check (requested_digest req.deployment_id)
    request_bytes ← framed (critical_section_envelope req)
    response_bytes ←
        counted (critical_section_body req) deployment_id (length request_bytes)
          (critical_section_transport req request_bytes)
    check (
        guest_answer bad_gateway
          (validate_critical_section_response world.codec response_bytes req.operation))

  unfoldable pub critical_section : SignedRequest CriticalSectionRequest → Handler Value
  critical_section signed = do
    authorize_runtime_request world setup (bytes "critical-section")
        (critical_section_body signed.request) signed.contract
    critical_section_admitted signed.request
