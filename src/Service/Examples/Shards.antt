-- ===== src/Service/Examples/Shards.antt =====
-- The theorems on the shards, invocations and transfers of the HTTP service at a concrete service.
use rust_app.Prelude.{
  sym, ◌∙◌, ◌<◌, u32_max, ◌≡◌, ◌↔◌, Option, refl, true, none, some, [], ◌∷◌, arith,
}
use rust_app.Prelude.Text.{Text, bytes, text_eq, starts_with, strip}
use rust_app.Prelude.Result.{ok}
use rust_app.Host.Types.{ShardKey, ShardRecord, key_eq, shard_key_eq}
use rust_app.Host.Validate.{validate, validate_digest, raw_digest, validate_execution_request}
use rust_app.Host.State as HostState
use rust_app.Host.Ops
use rust_app.Service.Stream
use rust_app.Host.Invariant.{IsSound, Sound, insert-Sound, empty-Sound}
use rust_app.Service.Types
use rust_app.Service.Types.{epoch_body, invoke_body, refused, conflict, still_active}
use rust_app.Service.Checks.{
  validate_shard_identity, valid_runtime_identifier, validate_critical_section_request,
}
use rust_app.Service.State.{AppState, on_host}
use rust_app.Prelude.Dict.{lookup, insert}
use rust_app.Service.Handlers.{terminate_admitted, hibernate_admitted}
use rust_app.Service.Busy.{Ended, busy_hibernate}
use rust_app.Service.Invocations.{admit}
use rust_app.Service.Guest.{sweep_round, run, activate_admitted}
use rust_app.Service.Requests.{Acceptable, validate_critical_section_request_iff}
use rust_app.Service.Counted.{Holds, Balanced, invoke-Balanced}
use rust_app.Service.Admitted.{Admitted, admit-Admitted}
use rust_app.Service.Activated.{activation_key, activate-allowed}
use rust_app.Service.Transfer.{
  put_artifact_over_vsock, validate_activation_response, check_deployment_field,
}
use rust_app.Service.Json.{get, find_member}
use rust_app.Service.Activations.{
  status_key, deployment_allowed, activated, activation_status, epoch_key_eq, shard_epoch_key_eq,
}
use rust_app.Service.Guest.{activate_gated, preflight, ask_guest, observe}
use rust_app.Service.Invocations.{
  admit_found, counted, framed, invoke_transport, response_length, touch_request,
}
use rust_app.Prelude.BTree.{put, text_compare}
use rust_app.Service.Types.{ActivationStatus}
use rust_app.Service.Checks.{
  check_runtime_epoch, check_execution_target, validate_firecracker_target, normalize_build_digest,
  requested_digest,
}
use rust_app.Service.State.{Handler, ◌>>=◌, ◌>>◌, continue}
use rust_app.Host.Sections.{touch_section, touch_record, touched}
use rust_app.Host.Types.{ShardStatus, backend_name, durable_actor, ExecutionBackend}
use rust_app.Service.Lasting.{run-IsSound}
use rust_app.Service.Observations.{Observed, Observed-insert}
use rust_app.Service.Activations.{or_default}
use rust_app.Service.Types.{ShardEpochKey, ObservedActivation}
use rust_app.Service.Guest.{handle}
use rust_app.Service.Handlers.{sweep}
use rust_app.Prelude.Dict.{lookup-insert_self}
use rust_app.Host.Invariant.{Follows}
use rust_app.Service.Examples.Data.{
  activate_request, codec, stored, wire, status, artifact, key, shard, digest, invoke_request,
  world_at, steady_time, setup, service, epoch_request, acquire_request,
}

validate_critical_section_request_iff_example :
    (validate_critical_section_request acquire_request ≡ ok tt) ↔ Acceptable acquire_request
validate_critical_section_request_iff_example =
    validate_critical_section_request_iff acquire_request

found_shard : lookup key service.host.shards ≡ some shard
unfolding lookup key_eq text_eq
found_shard = refl

busy_hibernate_example :
    (terminate_admitted (world_at steady_time) setup epoch_request service
      ≡ (refused conflict still_active, service))
    × Ended
        (world_at steady_time)
        setup
        epoch_request
        service
        shard
        (hibernate_admitted (world_at steady_time) setup epoch_request service)
    × ((hibernate_admitted (world_at steady_time) setup epoch_request service).1.observed_activation
        ≡ [])
unfolding validate_shard_identity valid_runtime_identifier validate_execution_request
busy_hibernate_example =
    busy_hibernate (world_at steady_time) setup epoch_request service shard refl refl found_shard
      refl (omega arith) refl (λ e. cc)

shard-IsSound : IsSound key shard
unfolding validate validate_digest raw_digest starts_with
shard-IsSound = record {
  same_key = refl;
  policy_valid = refl;
  digest_valid = refl;
  idle = λ e. cc;
  active_u32 = omega arith;
  requests_u64 = omega arith;
  ingress_u64 = omega arith;
  egress_u64 = omega arith;
  memory_u128 = omega arith;
}

service-Sound : Sound service.host.shards
unfolding insert
service-Sound = insert-Sound key shard [] shard-IsSound empty-Sound

-- The service while an invocation is active.
abbrev invoked : AppState
invoked = (admit (world_at steady_time) setup (invoke_body invoke_request) digest 2 service).1

admitted_invocation :
    admit (world_at steady_time) setup (invoke_body invoke_request) digest 2 service
    ≡ (ok (bytes "mock", none), invoked)
unfolding admit admit_found ◌>>=◌ ◌>>◌ continue on_host Ops.get HostState.with_record
    HostState.found lookup check_runtime_epoch check_execution_target validate_firecracker_target
    deployment_allowed normalize_build_digest raw_digest starts_with strip HostState.status_from
    backend_name touch_request Types.tenant_id Types.shard_id Types.execution_class
    Types.execution_backend Types.runtime_epoch Ops.touch touch_section HostState.at_epoch
    HostState.checked HostState.check_epoch touch_record HostState.◌>>=◌ HostState.◌>>◌
    HostState.continue validate_execution_request touched key_eq epoch_key_eq text_eq
admitted_invocation = refl

room :
    (r : ShardRecord)
    → Holds (world_at steady_time) setup (invoke_body invoke_request) r service
    → r.active_invocations < u32_max
unfolding Types.tenant_id Types.shard_id Types.execution_class
room r at =
    let same : shard.active_invocations ≡ r.active_invocations =
      some_active (sym found_shard ∙ at) in
    omega arith
  where
    some_active : some shard ≡ some r → shard.active_invocations ≡ r.active_invocations
    some_active e = cc e

abbrev carry : Text × Option Text → Handler Text
carry = invoke_transport (world_at steady_time) setup invoke_request digest (bytes "{}")

invoke-Balanced_example :
    (r v : ShardRecord) × Holds (world_at steady_time) setup (invoke_body invoke_request) r service
    × Holds
        (world_at steady_time)
        setup
        (invoke_body invoke_request)
        v
        (counted (world_at steady_time) setup (invoke_body invoke_request) digest 2 carry service).1
    × Balanced 2 (response_length (carry (bytes "mock", none) invoked).0) r v
    × ((counted (world_at steady_time) setup (invoke_body invoke_request) digest 2 carry service).0
        ≡ (carry (bytes "mock", none) invoked).0)
invoke-Balanced_example =
    invoke-Balanced (world_at steady_time) setup invoke_request digest (bytes "{}") 2 service
      invoked (bytes "mock", none) admitted_invocation room

admit-Admitted_example :
    Admitted
      (world_at steady_time)
      setup
      (invoke_body invoke_request)
      digest
      2
      service
      invoked
      (bytes "mock", none)
admit-Admitted_example =
    admit-Admitted (world_at steady_time) setup (invoke_body invoke_request) digest 2 service
      invoked (bytes "mock", none) admitted_invocation

-- The answer of an activation, and the service after it.
abbrev activated_service : AppState
activated_service = (activate_admitted (world_at steady_time) setup activate_request service).1

abbrev answer : ActivationStatus
answer = record {
  tenant_id = bytes "t1";
  shard_id = bytes "s1";
  execution_class = durable_actor;
  execution_backend = ExecutionBackend.firecracker;
  runtime_epoch = 3;
  placement_deployment_id = digest;
  observed = true;
  root_active_deployment_id = some digest;
  loaded_deployment_ids = digest ∷ [];
}

activation_accepted :
    activate_admitted (world_at steady_time) setup activate_request service
    ≡ (ok answer, activated_service)
unfolding activate_admitted activate_gated preflight ask_guest observe framed find_member get
    validate_activation_response check_deployment_field activated activation_status put text_compare
    insert ◌>>=◌ ◌>>◌ continue on_host Ops.get HostState.with_record HostState.found lookup
    check_runtime_epoch check_execution_target validate_firecracker_target validate_shard_identity
    valid_runtime_identifier normalize_build_digest raw_digest starts_with strip
    HostState.status_from backend_name key_eq epoch_key_eq text_eq
activation_accepted = refl

activate-allowed_example :
    (d : Text) × (requested_digest activate_request.deployment_id ≡ ok d)
    × (answer.root_active_deployment_id ≡ some d)
    × ((status : ShardStatus)
        → status_key status ≡ activation_key activate_request
        → deployment_allowed status d activated_service ≡ (ok true, activated_service))
activate-allowed_example =
    activate-allowed (world_at steady_time) setup activate_request service activated_service answer
      activation_accepted

-- The calls of a transfer.
abbrev transferred : Stream.History
transferred =
    (put_artifact_over_vsock (codec stored) wire (bytes "/v") 5000 status artifact 1000 2 []).1

abbrev observed_key : ShardEpochKey
observed_key = activation_key activate_request

abbrev observation : ObservedActivation
observation = activated status digest (or_default (lookup observed_key []))

-- The service where an activation is observed.
abbrev observing : AppState
observing = record service { observed_activation = insert observed_key observation [] }

observing-Observed : Observed observing.observed_activation
unfolding lookup
observing-Observed =
    Observed-insert observed_key status digest [] (omega arith, refl) (λ k o e. cc e)

still_observed :
    lookup observed_key
      (run (world_at steady_time) setup (sweep_round ∷ []) observing).observed_activation
    ≡ some observation
unfolding run handle sweep
still_observed = lookup-insert_self observed_key observation []

run-IsSound_example :
    Sound (run (world_at steady_time) setup (sweep_round ∷ []) observing).host.shards
    × Observed (run (world_at steady_time) setup (sweep_round ∷ []) observing).observed_activation
    × ((j : ShardKey) (r : ShardRecord)
        → lookup j observing.host.shards ≡ some r
        → (t : ShardRecord) × (lookup j
              (run (world_at steady_time) setup (sweep_round ∷ []) observing).host.shards
            ≡ some t)
          × Follows r t)
run-IsSound_example =
    run-IsSound (world_at steady_time) setup (sweep_round ∷ []) observing service-Sound
      observing-Observed
