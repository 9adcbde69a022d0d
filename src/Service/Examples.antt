-- ===== src/Service/Examples.antt =====
-- The theorems on the HTTP service at a concrete service and concrete requests.
mod Data
mod Shards
use rust_app.Prelude.{
  ℕ, sym, ◌∙◌, ◌<◌, u32_max, ◌≡◌, ◌↔◌, ◌⊎◌, Option, refl, ap, true, none, some, [], ◌∷◌, inl, arith,
}
use rust_app.Prelude.Text.{Text, bytes, text_eq, starts_with, strip}
use rust_app.Prelude.Result.{ok}
use rust_app.Host.Types.{ShardRecord, key_eq, shard_key_eq}
use rust_app.Host.Validate.{validate, validate_digest, raw_digest, validate_execution_request}
use rust_app.Host.State as HostState
use rust_app.Host.Ops
use rust_app.Service.Stream
use rust_app.Host.Invariant.{IsSound, Sound, insert-Sound, empty-Sound}
use rust_app.Auth
use rust_app.Auth.{
  verify, verified_at, signed, same_identity, out_of_window, bad_nonce, constant_time_eq, diff_from,
  hmac_sha256, hmac_key, padded, signature_for, canonical, line, hex_lower, request_sha256,
  now_unix,
}
use rust_app.Host.Path.{decimal}
use rust_app.Service.Types
use rust_app.Service.Types.{epoch_body, invoke_body, refused, conflict, still_active}
use rust_app.Service.Checks.{
  validate_shard_identity, valid_runtime_identifier, validate_critical_section_request,
}
use rust_app.Service.State.{AppState, on_host}
use rust_app.Prelude.Dict.{lookup, insert}
use rust_app.Service.Authority.{retain_unexpired, outside_at, expected_request}
use rust_app.Service.Handlers.{terminate_admitted, hibernate_admitted}
use rust_app.Service.Busy.{busy_hibernate}
use rust_app.Service.Invocations.{admit}
use rust_app.Service.Guest.{
  post_start, get_healthz, serve, sweep_round, request, run, activate_admitted,
}
use rust_app.Service.Authorized.Guards.{Signed, authorize}
use rust_app.Service.Admission.{Refusal, Admission, serve_authorized}
use rust_app.Service.Replay.{ReadsBy}
use rust_app.Service.Once.{authorize-accepts, replay_refused, replay_at_expiry}
use rust_app.Service.Requests.{Acceptable, validate_critical_section_request_iff}
use rust_app.Service.Counted.{Holds, Balanced, invoke-Balanced}
use rust_app.Service.Admitted.{Admitted, admit-Admitted}
use rust_app.Service.Activated.{activation_key, activate-allowed}
use rust_app.Service.Delivery.Framing.{Transferred}
use rust_app.Service.Delivery.{Confirmed}
use rust_app.Prelude.Utf8.{is_utf8}
use rust_app.Service.Stream.{
  write_frame, read_frame, connect_vsock_proxy, read_ack, ends_in_newline,
}
use rust_app.Service.Transfer.{
  put_artifact_over_vsock, send_artifact, transfer, write_chunks, chunks_from,
  validate_put_artifact_response, validate_activation_response, check_deployment_field,
  artifact_header,
}
use rust_app.Service.Json.{get, find_member}
use rust_app.Service.Activations.{
  status_key, deployment_allowed, activated, activation_status, epoch_key_eq, shard_epoch_key_eq,
}
use rust_app.Service.Guest.{activate_gated, preflight, ask_guest, observe}
use rust_app.Service.Invocations.{
  admit_found, counted, framed, invoke_transport, response_length, touch_request,
}
use rust_app.Prelude.BTree.{put, text_compare}
use rust_app.Prelude.Lists.{length}
use rust_app.Service.Types.{ActivationStatus}
use rust_app.Service.Checks.{
  check_runtime_epoch, check_execution_target, validate_firecracker_target, normalize_build_digest,
  requested_digest,
}
use rust_app.Service.State.{Handler, ◌>>=◌, ◌>>◌, continue}
use rust_app.Host.Sections.{touch_section, touch_record, touched}
use rust_app.Host.Types.{ShardStatus, backend_name, durable_actor, ExecutionBackend}
use rust_app.Service.Lasting.{run-IsSound}
use rust_app.Service.Observations.{Observed, IsObservation, Observed-insert}
use rust_app.Service.Activations.{or_default}
use rust_app.Service.Types.{ShardEpochKey, ObservedActivation}
use rust_app.Service.Guest.{handle}
use rust_app.Service.Handlers.{sweep}
use rust_app.Prelude.Dict.{lookup-insert_self}
use rust_app.Host.Invariant.{Follows}
use rust_app.Service.Examples.Data.{
  activate_request, codec, stored, wire, status, artifact, host_env, host_config, key, shard,
  digest, invoke_request, world_at, steady_time, moving_time, setup, service, signed_start,
  epoch_request, contract, acquire_request,
}

abbrev start_signed : Signed
start_signed = record {
  operation = bytes "start";
  body = epoch_body epoch_request;
  contract = contract;
}

serve_authorized_example :
    Refusal
      (world_at steady_time)
      setup
      service
      (serve (world_at steady_time) setup (post_start signed_start) service)
    ⊎ Admission
        (world_at steady_time)
        setup
        start_signed
        service
        (serve (world_at steady_time) setup (post_start signed_start) service).1
serve_authorized_example =
    serve_authorized (world_at steady_time) setup (post_start signed_start) start_signed service
      refl (omega arith)

steady_clock : (first last : ℕ) → ReadsBy (world_at steady_time).clock first last 1700000030
steady_clock first last n now after before at = let read : 1700000010 ≡ now = cc at in omega arith

abbrev IsVerified : (ℕ → ℕ) → ℕ → Type 0
IsVerified time n =
    verify (world_at time).body (outside_at (world_at time) n) setup.runtime_control_secret
      (expected_request (bytes "start") (epoch_body epoch_request)) (epoch_body epoch_request)
      contract
    ≡ Auth.ok 1700000030

steady-IsVerified : IsVerified steady_time 0
unfolding verify verified_at signed same_identity out_of_window bad_nonce constant_time_eq diff_from
    hmac_sha256 hmac_key padded signature_for canonical line hex_lower request_sha256 now_unix
    decimal outside_at expected_request Types.tenant_id Types.shard_id Types.execution_class
    Types.execution_backend Types.runtime_epoch Types.execution_class_name
    Types.execution_backend_name text_eq
steady-IsVerified = refl

accepted_first : (authorize (world_at steady_time) setup start_signed service).0 ≡ ok tt
unfolding retain_unexpired lookup
accepted_first =
    ap (λ q. q.0)
      (authorize-accepts (world_at steady_time) setup start_signed service 1700000030 1700000010
        steady-IsVerified refl refl)

replay_refused_example :
    Refusal
      (world_at steady_time)
      setup
      (run
        (world_at steady_time)
        setup
        (sweep_round ∷ request get_healthz ∷ [])
        (serve (world_at steady_time) setup (post_start signed_start) service).1)
      (serve (world_at steady_time) setup (post_start signed_start) (
        run
          (world_at steady_time)
          setup
          (sweep_round ∷ request get_healthz ∷ [])
          (serve (world_at steady_time) setup (post_start signed_start) service).1))
replay_refused_example =
    replay_refused (world_at steady_time) setup (post_start signed_start) (post_start signed_start)
      start_signed start_signed service (sweep_round ∷ request get_healthz ∷ []) refl refl refl
      (omega arith) accepted_first (tt, ((λ r e n. cc e), tt)) (steady_clock _ _)

moving-IsVerified : IsVerified moving_time 0
unfolding verify verified_at signed same_identity out_of_window bad_nonce constant_time_eq diff_from
    hmac_sha256 hmac_key padded signature_for canonical line hex_lower request_sha256 now_unix
    decimal outside_at expected_request Types.tenant_id Types.shard_id Types.execution_class
    Types.execution_backend Types.runtime_epoch Types.execution_class_name
    Types.execution_backend_name text_eq
moving-IsVerified = refl

still-IsVerified : IsVerified moving_time 2
unfolding verify verified_at signed same_identity out_of_window bad_nonce constant_time_eq diff_from
    hmac_sha256 hmac_key padded signature_for canonical line hex_lower request_sha256 now_unix
    decimal outside_at expected_request Types.tenant_id Types.shard_id Types.execution_class
    Types.execution_backend Types.runtime_epoch Types.execution_class_name
    Types.execution_backend_name text_eq
still-IsVerified = refl

-- The service after the contract was accepted.
abbrev started : AppState
started = record service { clock_reads = 2; consumed_nonces = (contract.nonce, 1700000030) ∷ [] }

accepted_moving : authorize (world_at moving_time) setup start_signed service ≡ (ok tt, started)
unfolding retain_unexpired lookup insert
accepted_moving =
    authorize-accepts (world_at moving_time) setup start_signed service 1700000030 1700000020
      moving-IsVerified refl refl

replay_at_expiry_example : (authorize (world_at moving_time) setup start_signed started).0 ≡ ok tt
replay_at_expiry_example =
    replay_at_expiry (world_at moving_time) setup start_signed service started 1700000030 1700000040
      accepted_moving still-IsVerified refl (omega arith)
