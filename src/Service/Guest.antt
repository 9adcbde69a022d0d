-- ===== src/Service/Guest.antt =====
-- The activation of a deployment by the HTTP service, and the routes of the service:
-- `activate` and the `Router` of cert/beamscale-critical-section/infra-runtime-host/src/main.rs.
use rust_app.Prelude.{true, not, Option, none, some, List, [], ◌∷◌, if◌then◌else◌}
use rust_app.Prelude.Text.{Text, bytes}
use rust_app.Prelude.Dict.{lookup, insert}
use rust_app.Prelude.Result.{ok, reject_if}
use rust_app.Host.Types.{
  ShardStatus, ExecutionClass, EnsureShardRequest, EpochRequest, TouchRequest,
}
use rust_app.Store.{AdmittedArtifact}
use rust_app.Store.Bundle.{resolve_admitted_bundle}
use rust_app.Auth.{SignedRequest}
use rust_app.Service.Json.{Value, string, unsigned, bool, json}
use rust_app.Service.Types.{
  activate_body, execution_class_name, execution_backend_name, ActivateRequest, InvokeRequest,
  CriticalSectionRequest, ActivationStatus, conflict, internal_server_error, bad_gateway,
  service_unavailable, not_activatable, missing_artifact, api_error, refused, Answer, ok_text,
  shard, activation, metering,
}
use rust_app.Service.Checks.{
  Check, validate_shard_identity, requested_digest, check_timeout, validate_firecracker_target,
  check_execution_target, check_runtime_epoch, is_running,
}
use rust_app.Service.Transfer.{validate_activation_response, put_artifact_over_vsock}
use rust_app.Service.Activations.{
  shard_epoch_key, shard_epoch_key_eq, or_default, activated, activation_status,
}
use rust_app.Service.Authority.{authorize_runtime_request}
use rust_app.Service.State.{
  AppState, World, Setup, Handler, ◌>>=◌, ◌>>◌, pure, check, on_store, on_wire, guest_answer,
}
use rust_app.Service.Handlers
use rust_app.Service.Handlers.{host_get, sweep}
use rust_app.Service.Invocations.{
  path_or_refuse, is_mock, preflight_error, serialize, framed, speak, invoke, critical_section,
}

unfoldable pub activation_envelope : ActivateRequest → Text → Value
activation_envelope req deployment_id = json (
    (bytes "op", string (bytes "activate_artifact"))
    ∷ (bytes "deployment_id", string deployment_id)
    ∷ (bytes "execution_class", string (execution_class_name req.execution_class))
    ∷ (bytes "execution_backend", string (execution_backend_name req.execution_backend))
    ∷ (bytes "tenant_id", string req.tenant_id)
    ∷ (bytes "runtime_epoch", unsigned req.runtime_epoch)
    ∷ [])

unfoldable pub mock_activation : Text → Value
mock_activation deployment_id = json (
    (bytes "op", string (bytes "activate_artifact_result"))
    ∷ (bytes "ok", bool true)
    ∷ (bytes "deployment_id", string deployment_id)
    ∷ (bytes "active_deployment_id", string deployment_id)
    ∷ [])

abbrev pub artifact_or_refuse : Option AdmittedArtifact → Check AdmittedArtifact
artifact_or_refuse none = refused internal_server_error missing_artifact
artifact_or_refuse (some artifact) = ok artifact

module _ (world : World) (setup : Setup) where
  -- The archive is packaged before the shard's gate is taken, unless the backend is the mock.
  unfoldable pub preflight : Text → Text → Handler (Option AdmittedArtifact)
  preflight backend deployment_id = if is_mock backend then pure none else do
    artifact ←
        on_store (preflight_error deployment_id)
          (resolve_admitted_bundle world.store setup.store deployment_id)
    pure (some artifact)

  -- The answer of the guest to the activation, which has the artifact first.
  unfoldable pub ask_guest :
      ActivateRequest → ShardStatus → Text → Option AdmittedArtifact → Text → Handler Text
  ask_guest req status deployment_id admitted request_bytes =
      if is_mock status.backend
      then serialize world setup internal_server_error (mock_activation deployment_id)
      else do
        path ← check (path_or_refuse status.vsock_path)
        artifact ← check (artifact_or_refuse admitted)
        on_wire service_unavailable (
            put_artifact_over_vsock world.codec world.wire path setup.guest_vsock_port status
              artifact setup.guest_max_frame_bytes setup.guest_max_artifact_chunk_bytes)
        speak world setup path request_bytes req.timeout_ms

  -- The end of `activate`: what was activated is written down under the epoch of the request.
  unfoldable pub observe : ActivateRequest → ShardStatus → Text → Handler ActivationStatus
  observe req status deployment_id s =
      let key = shard_epoch_key req.execution_class req.tenant_id req.shard_id req.runtime_epoch in
      let observed =
        activated status deployment_id (or_default (lookup key s.observed_activation)) in
      (
        ok (activation_status status (some observed)),
        record s { observed_activation = insert key observed s.observed_activation },
      )

  -- What `activate` does while it holds the shard's gate.
  unfoldable pub activate_gated :
      ActivateRequest → Text → Option AdmittedArtifact → Text → Handler ActivationStatus
  activate_gated req deployment_id admitted request_bytes = do
    status ← host_get world setup req.execution_class req.tenant_id req.shard_id
    check (check_runtime_epoch status req.runtime_epoch)
    check (check_execution_target status req.execution_class req.execution_backend)
    check (
        reject_if (not (is_running status.state))
          (api_error conflict (not_activatable status.state)))
    response_bytes ← ask_guest req status deployment_id admitted request_bytes
    check (
        guest_answer bad_gateway
          (validate_activation_response world.codec response_bytes deployment_id))
    observe req status deployment_id

  unfoldable pub activate_admitted : ActivateRequest → Handler ActivationStatus
  activate_admitted req = do
    check (validate_shard_identity req.tenant_id req.shard_id)
    check (validate_firecracker_target req.execution_class req.execution_backend)
    check (check_timeout 60000 req.timeout_ms)
    deployment_id ← check (requested_digest req.deployment_id)
    preliminary ← host_get world setup req.execution_class req.tenant_id req.shard_id
    check (check_runtime_epoch preliminary req.runtime_epoch)
    admitted ← preflight preliminary.backend deployment_id
    request_bytes ← framed world setup (activation_envelope req deployment_id)
    activate_gated req deployment_id admitted request_bytes

  unfoldable pub activate : SignedRequest ActivateRequest → Handler ActivationStatus
  activate signed = do
    authorize_runtime_request world setup (bytes "activate") (activate_body signed.request)
        signed.contract
    activate_admitted signed.request

-- A request that a route of the service takes, as its extractors give it.
pub data HttpRequest : Type 0 where
  get_healthz : HttpRequest
  post_ensure : SignedRequest EnsureShardRequest → HttpRequest
  post_start post_warm_idle post_hibernate post_terminate : SignedRequest EpochRequest → HttpRequest
  post_activate : SignedRequest ActivateRequest → HttpRequest
  post_touch : SignedRequest TouchRequest → HttpRequest
  post_invoke : SignedRequest InvokeRequest → HttpRequest
  post_critical_section : SignedRequest CriticalSectionRequest → HttpRequest
  get_activation get_metering get_shard : ExecutionClass → Text → Text → HttpRequest

pub data Event : Type 0 where
  request : HttpRequest → Event
  sweep_round : Event

-- The answer of a handler as a body.
abbrev pub replying : {A : Type 0} → (A → Answer) → Handler A → Handler Answer
replying f m = m >>= λ x. pure (f x)

module _ (world : World) (setup : Setup) where
  unfoldable pub serve : HttpRequest → Handler Answer
  serve get_healthz = pure ok_text
  serve (post_ensure signed) = replying shard (Handlers.ensure world setup signed)
  serve (post_start signed) = replying shard (Handlers.start world setup signed)
  serve (post_warm_idle signed) = replying shard (Handlers.warm_idle world setup signed)
  serve (post_hibernate signed) = replying shard (Handlers.hibernate world setup signed)
  serve (post_terminate signed) = replying shard (Handlers.terminate world setup signed)
  serve (post_activate signed) = replying activation (activate world setup signed)
  serve (post_touch signed) = replying shard (Handlers.touch world setup signed)
  serve (post_invoke signed) = replying Answer.json (invoke world setup signed)
  serve (post_critical_section signed) = replying Answer.json (critical_section world setup signed)
  serve (get_activation class tenant id) =
      replying activation (Handlers.get_activation world setup class tenant id)
  serve (get_metering class tenant id) =
      replying metering (Handlers.get_metering world setup class tenant id)
  serve (get_shard class tenant id) =
      replying shard (Handlers.get_shard world setup class tenant id)

  -- What may happen to the service: a request is served, or the sweeper makes a round.
  unfoldable pub handle : Event → AppState → AppState
  handle (request req) s = (serve req s).1
  handle sweep_round s = sweep world setup s

  unfoldable pub run : List Event → AppState → AppState
  run [] s = s
  run (event ∷ events) s = run events (handle event s)
