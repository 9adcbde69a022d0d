-- ===== src/Service/Kept/Guest.antt =====
-- The invocations and the activation of the HTTP service, cert/beamscale-critical-section/infra-runtime-host/src/main.rs,
-- once their request is authorized: what they keep, whatever is outside of them.
use rust_app.Prelude.{ℕ, ◌≡◌, refl, Bool, true, false, Option, arith, if◌then◌else◌}
use rust_app.Prelude.Text.{Text}
use rust_app.Prelude.BTree.{text_key}
use rust_app.Prelude.Result.{Result, ok}
use rust_app.Host.Types.{ShardStatus}
use rust_app.Host.Safe.{Keeps-same}
use rust_app.Store.{AdmittedArtifact}
use rust_app.Service.Json.{Value}
use rust_app.Service.Types.{
  RuntimeRequest, ActivateRequest, InvokeRequest, CriticalSectionRequest, ApiError,
}
use rust_app.Service.Checks.{requested_digest}
use rust_app.Service.Activations.{shard_epoch_key_eq, deployment_allowed}
use rust_app.Service.State.{World, Setup, Handler}
use rust_app.Service.Invocations.{
  framed, admit_found, admit, count_out, counted, invoke_transport, invoke_admitted,
  check_invocation, critical_section_transport, critical_section_admitted, is_mock,
}
use rust_app.Service.Guest.{preflight, ask_guest, observe, activate_gated, activate_admitted}
use rust_app.Service.Observations.{IsDigest, normalize_build_digest-IsDigest, Observed-insert}
use rust_app.Service.Kept.{host_get-Steady, host_touch-Steady}
use rust_app.Service.Steps.{
  Steady, bind-Steady, then-Steady, check-Steady, same-Steady, pure-Steady, attempt-Steady,
  on_store-Steady, on_wire-Steady,
}

requested_digest-IsDigest :
    (value : Text) {digest : Text} → requested_digest value ≡ ok digest → IsDigest digest
requested_digest-IsDigest value h =
    normalize_build_digest-IsDigest value (ground (arith, normalize_build_digest-IsDigest value))

pub observe-Steady :
    (world : World) (setup : Setup) (req : ActivateRequest) (status : ShardStatus) (digest : Text)
    → IsDigest digest
    → Steady (observe world setup req status digest)
unfolding observe
observe-Steady world setup req status digest canonical = record {
  step = λ s. record {
    shards_kept = Keeps-same s.host.shards s.host.shards refl;
    observed_kept = Observed-insert _ status digest s.observed_activation canonical;
    same_nonces = refl;
    same_reads = refl;
  };
}

pub if-Steady :
    {A : Type 0} (b : Bool) (m k : Handler A) → Steady m → Steady k → Steady (if b then m else k)
if-Steady true m k first later = first
if-Steady false m k first later = later

module _ (world : World) (setup : Setup) where
  pub framed-Steady : (envelope : Value) → Steady (framed world setup envelope)
  unfolding framed
  framed-Steady envelope =
      bind-Steady _ _ (pure-Steady _) λ content. then-Steady _ _ (pure-Steady _) (pure-Steady _)

  pub deployment_allowed-Steady :
      (status : ShardStatus) (digest : Text) → Steady (deployment_allowed status digest)
  unfolding deployment_allowed
  deployment_allowed-Steady status digest = same-Steady _ (λ s. refl)

  admit_found-Steady :
      (req : RuntimeRequest) (digest : Text) (n : ℕ) (status : ShardStatus)
      → Steady (admit_found world setup req digest n status)
  unfolding admit_found
  admit_found-Steady req digest n status = then-Steady _ _ (pure-Steady _) (
      then-Steady _ _ (pure-Steady _) (
        then-Steady _ _ (pure-Steady _) (
          bind-Steady _ _ (deployment_allowed-Steady status digest) λ allowed.
            then-Steady _ _ (pure-Steady _)
              (then-Steady _ _ (host_touch-Steady world setup _) (pure-Steady _)))))

  admit-Steady :
      (req : RuntimeRequest) (digest : Text) (n : ℕ) → Steady (admit world setup req digest n)
  unfolding admit
  admit-Steady req digest n =
      bind-Steady _ _ (host_get-Steady world setup _ _ _) (admit_found-Steady req digest n)

  count_out-Steady :
      (req : RuntimeRequest) (result : Result ApiError Text)
      → Steady (count_out world setup req result)
  unfolding count_out
  count_out-Steady req result = then-Steady _ _ (host_touch-Steady world setup _) (pure-Steady _)

  pub counted-Steady :
      (req : RuntimeRequest) (digest : Text) (n : ℕ) (transport : Text × Option Text → Handler Text)
      → ((target : Text × Option Text) → Steady (transport target))
      → Steady (counted world setup req digest n transport)
  unfolding counted
  counted-Steady req digest n transport each =
      bind-Steady _ _ (admit-Steady req digest n)
        λ target. bind-Steady _ _ (attempt-Steady _ (each target)) (count_out-Steady req)

  pub invoke_transport-Steady :
      (req : InvokeRequest) (digest content : Text) (target : Text × Option Text)
      → Steady (invoke_transport world setup req digest content target)
  unfolding invoke_transport
  invoke_transport-Steady req digest content (backend, path) =
      if-Steady (is_mock backend) _ _ (pure-Steady _)
        (then-Steady _ _ (on_store-Steady _ _) (check-Steady _ _ λ found _. on_wire-Steady _ _))

  pub critical_section_transport-Steady :
      (req : CriticalSectionRequest) (content : Text) (target : Text × Option Text)
      → Steady (critical_section_transport world setup req content target)
  unfolding critical_section_transport
  critical_section_transport-Steady req content (backend, path) =
      if-Steady (is_mock backend) _ _ (pure-Steady _)
        (check-Steady _ _ λ found _. on_wire-Steady _ _)

  pub check_invocation-Steady : (req : InvokeRequest) → Steady (check_invocation world setup req)
  unfolding check_invocation
  check_invocation-Steady req = then-Steady _ _ (pure-Steady _) (
      then-Steady _ _ (pure-Steady _) (
        then-Steady _ _ (pure-Steady _)
          (then-Steady _ _ (pure-Steady _) (then-Steady _ _ (pure-Steady _) (pure-Steady _)))))

  pub invoke_admitted-Steady : (req : InvokeRequest) → Steady (invoke_admitted world setup req)
  unfolding invoke_admitted
  invoke_admitted-Steady req = then-Steady _ _ (check_invocation-Steady req) (
      check-Steady _ _ λ digest _. bind-Steady _ _ (framed-Steady _) λ content.
        bind-Steady _ _ (counted-Steady _ _ _ _ (invoke_transport-Steady req digest content))
          λ response. pure-Steady _)

  pub critical_section_admitted-Steady :
      (req : CriticalSectionRequest) → Steady (critical_section_admitted world setup req)
  unfolding critical_section_admitted
  critical_section_admitted-Steady req = then-Steady _ _ (pure-Steady _) (
      then-Steady _ _ (pure-Steady _) (
        then-Steady _ _ (pure-Steady _) (
          then-Steady _ _ (pure-Steady _) (
            check-Steady _ _ λ digest _. bind-Steady _ _ (framed-Steady _) λ content.
              bind-Steady _ _
                (counted-Steady _ _ _ _ (critical_section_transport-Steady req content))
                λ response. pure-Steady _))))

  pub preflight-Steady : (backend digest : Text) → Steady (preflight world setup backend digest)
  unfolding preflight
  preflight-Steady backend digest =
      if-Steady (is_mock backend) _ _ (pure-Steady _)
        (bind-Steady _ _ (on_store-Steady _ _) λ artifact. pure-Steady _)

  pub ask_guest-Steady :
      (req : ActivateRequest) (status : ShardStatus) (digest : Text)
      (admitted : Option AdmittedArtifact) (content : Text)
      → Steady (ask_guest world setup req status digest admitted content)
  unfolding ask_guest
  ask_guest-Steady req status digest admitted content =
      if-Steady (is_mock status.backend) _ _ (pure-Steady _) (
        check-Steady _ _ λ path _.
          check-Steady _ _ λ artifact _. then-Steady _ _ (on_wire-Steady _ _) (on_wire-Steady _ _))

  pub activate_gated-Steady :
      (req : ActivateRequest) (digest : Text) (admitted : Option AdmittedArtifact) (content : Text)
      → IsDigest digest
      → Steady (activate_gated world setup req digest admitted content)
  unfolding activate_gated
  activate_gated-Steady req digest admitted content canonical =
      bind-Steady _ _ (host_get-Steady world setup _ _ _) λ status.
        then-Steady _ _ (pure-Steady _) (
          then-Steady _ _ (pure-Steady _) (
            then-Steady _ _ (pure-Steady _) (
              bind-Steady _ _ (ask_guest-Steady req status digest admitted content) λ response.
                then-Steady _ _ (pure-Steady _)
                  (observe-Steady world setup req status digest canonical))))

  pub activate_admitted-Steady :
      (req : ActivateRequest) → Steady (activate_admitted world setup req)
  unfolding activate_admitted
  activate_admitted-Steady req = then-Steady _ _ (pure-Steady _) (
      then-Steady _ _ (pure-Steady _) (
        then-Steady _ _ (pure-Steady _) (
          check-Steady _ _ λ digest requested.
            bind-Steady _ _ (host_get-Steady world setup _ _ _) λ preliminary.
              then-Steady _ _ (pure-Steady _) (
                bind-Steady _ _ (preflight-Steady _ _) λ admitted.
                  bind-Steady _ _ (framed-Steady _) λ content.
                    activate_gated-Steady req digest admitted content
                      (requested_digest-IsDigest req.deployment_id requested)))))
