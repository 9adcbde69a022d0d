-- ===== src/Service/Kept.antt =====
-- The handlers of the HTTP service, cert/beamscale-critical-section/infra-runtime-host/src/main.rs,
-- once their request is authorized: what they keep, whatever is outside of them.
pub mod Guest
use rust_app.Prelude.{
  ℕ, ap, ◌∙◌, ◌≡◌, refl, Bool, true, false, Option, none, some, inl, inr, arith, Bool-cases,
  if◌then◌else◌,
}
use rust_app.Prelude.Text.{Text}
use rust_app.Prelude.Dict.{lookup, insert, found-insert}
use rust_app.Prelude.BTree.{text_key, put, found-put, lookup-put_self}
use rust_app.Prelude.Result.{Result, ok, err, reject_if}
use rust_app.Host.Types.{
  ExecutionClass, ShardStatus, EnsureShardRequest, EpochRequest, TouchRequest, ℤ,
}
use rust_app.Host.State
use rust_app.Host.Ops
use rust_app.Host.Invariant.{Keeps}
use rust_app.Host.Safe
use rust_app.Host.Safe.{Safe, Keeps-same}
use rust_app.Store.{AdmittedArtifact}
use rust_app.Service.Json.{Value}
use rust_app.Service.Types.{
  ObservedActivation, RuntimeRequest, ActivateRequest, InvokeRequest, CriticalSectionRequest,
  ApiError, StatusCode, Message,
}
use rust_app.Service.Checks.{Check, normalize_build_digest, requested_digest, is_running}
use rust_app.Service.Activations.{
  shard_epoch_key_eq, or_default, with_bootstrap, activated, deployment_allowed,
  clear_observed_for_shard,
}
use rust_app.Service.State.{
  World, Setup, AppState, Handler, ◌>>=◌, ◌>>◌, pure, check, attempt, on_host,
}
use rust_app.Service.Handlers.{
  host_get, host_look, clear_if, ensure_admitted, start_admitted, touch_admitted,
  warm_idle_admitted, hibernate_admitted, terminate_admitted, get_activation, get_metering,
  get_shard,
}
use rust_app.Service.Invocations.{
  framed, admit, count_out, counted, invoke_transport, invoke_admitted, check_invocation,
  critical_section_transport, critical_section_admitted, is_mock, serialize,
}
use rust_app.Service.Guest.{preflight, ask_guest, observe, activate_gated, activate_admitted}
use rust_app.Service.Observations.{IsDigest, normalize_build_digest-IsDigest, Observed-insert}
use rust_app.Service.Steps.{
  Steady, bind-Steady, then-Steady, check-Steady, same-Steady, pure-Steady, attempt-Steady,
  on_host-Steady, on_store-Steady, on_wire-Steady, clear-Steady,
}

module _ (world : World) (setup : Setup) (class : ExecutionClass) (tenant shard : Text) where
  -- `get` reads, and changes nothing.
  pub get-same :
      (s : State.RuntimeHost) → (Ops.get world.host setup.config class tenant shard s).1 ≡ s
  unfolding Ops.get State.with_record State.found
  get-same s = ground arith

  get-Safe : Safe (Ops.get world.host setup.config class tenant shard)
  get-Safe = record { keeps = λ s. Keeps-same s.shards _ (ap (λ h. h.shards) (get-same s)) }

  pub host_get-Steady : Steady (host_get world setup class tenant shard)
  host_get-Steady = on_host-Steady _ get-Safe

  pub host_look-Steady : Steady (host_look world setup class tenant shard)
  host_look-Steady = same-Steady _ (λ s. rw (get-same s.host))

  pub clear_if-Steady : (clear : Bool) → Steady (clear_if world setup clear class tenant shard)
  clear_if-Steady true = clear-Steady class tenant shard
  clear_if-Steady false = pure-Steady _

module _ (world : World) (setup : Setup) where
  pub ensure_admitted-Steady : (req : EnsureShardRequest) → Steady (ensure_admitted world setup req)
  unfolding ensure_admitted
  ensure_admitted-Steady req = then-Steady _ _ (pure-Steady _) (
      check-Steady _ _ λ requested _.
        bind-Steady _ _ (host_look-Steady world setup _ _ _) λ existing. check-Steady _ _ λ clear _.
          bind-Steady _ _ (on_host-Steady _ (Safe.ensure-Safe world.host setup.config req))
            λ status. then-Steady _ _ (clear_if-Steady world setup _ _ _ clear) (pure-Steady _))

  pub start_admitted-Steady : (req : EpochRequest) → Steady (start_admitted world setup req)
  unfolding start_admitted
  start_admitted-Steady req =
      then-Steady _ _ (pure-Steady _)
        (on_host-Steady _ (Safe.start-Safe world.host setup.config req))

  pub warm_idle_admitted-Steady : (req : EpochRequest) → Steady (warm_idle_admitted world setup req)
  unfolding warm_idle_admitted
  warm_idle_admitted-Steady req =
      then-Steady _ _ (pure-Steady _)
        (on_host-Steady _ (Safe.mark_warm_idle-Safe world.host setup.config req))

  pub hibernate_admitted-Steady : (req : EpochRequest) → Steady (hibernate_admitted world setup req)
  unfolding hibernate_admitted
  hibernate_admitted-Steady req =
      then-Steady _ _ (pure-Steady _)
        (on_host-Steady _ (Safe.hibernate-Safe world.host setup.config req))

  pub host_touch-Steady :
      (req : TouchRequest) → Steady (on_host (Ops.touch world.host setup.config req))
  host_touch-Steady req = on_host-Steady _ (Safe.touch-Safe world.host setup.config req)

  pub touch_admitted-Steady : (req : TouchRequest) → Steady (touch_admitted world setup req)
  unfolding touch_admitted
  touch_admitted-Steady req =
      then-Steady _ _ (pure-Steady _) (then-Steady _ _ (pure-Steady _) (host_touch-Steady req))

  pub terminate_admitted-Steady : (req : EpochRequest) → Steady (terminate_admitted world setup req)
  unfolding terminate_admitted
  terminate_admitted-Steady req = then-Steady _ _ (pure-Steady _) (
      bind-Steady _ _ (host_get-Steady world setup _ _ _) λ current.
        then-Steady _ _ (pure-Steady _) (
          then-Steady _ _ (pure-Steady _) (
            bind-Steady _ _ (on_host-Steady _ (Safe.terminate-Safe world.host setup.config req))
              λ status. then-Steady _ _ (clear-Steady _ _ _) (pure-Steady _))))

  pub get_activation-Steady :
      (class : ExecutionClass) (tenant shard : Text)
      → Steady (get_activation world setup class tenant shard)
  unfolding get_activation
  get_activation-Steady class tenant shard = then-Steady _ _ (pure-Steady _) (
      bind-Steady _ _ (host_get-Steady world setup class tenant shard)
        λ status. same-Steady _ (λ s. refl))

  pub get_metering-Steady :
      (class : ExecutionClass) (tenant shard : Text)
      → Steady (get_metering world setup class tenant shard)
  unfolding get_metering
  get_metering-Steady class tenant shard =
      then-Steady _ _ (pure-Steady _)
        (on_host-Steady _ (Safe.metering-Safe world.host setup.config class tenant shard))

  pub get_shard-Steady :
      (class : ExecutionClass) (tenant shard : Text)
      → Steady (get_shard world setup class tenant shard)
  unfolding get_shard
  get_shard-Steady class tenant shard =
      then-Steady _ _ (pure-Steady _) (host_get-Steady world setup class tenant shard)
