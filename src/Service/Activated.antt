-- ===== src/Service/Activated.antt =====
-- What the activation of a deployment by the HTTP service makes possible:
-- cert/beamscale-critical-section/infra-runtime-host/src/main.rs.
use rust_app.Prelude.{◌∙◌, ◌≡◌, refl, sym, ap, true, Option, some, arith}
use rust_app.Prelude.Text.{Text}
use rust_app.Prelude.Dict.{lookup, lookup-insert_self}
use rust_app.Prelude.BTree.{text_key, lookup-put_self, is_some}
use rust_app.Prelude.Result.{ok}
use rust_app.Host.Types.{ShardStatus}
use rust_app.Store.{AdmittedArtifact}
use rust_app.Service.Types.{ShardEpochKey, ObservedActivation, ActivateRequest, ActivationStatus}
use rust_app.Service.Checks.{requested_digest}
use rust_app.Service.State.{World, Setup, AppState}
use rust_app.Service.Activations.{
  shard_epoch_key, shard_epoch_key_eq, status_key, deployment_allowed, activated, activation_status,
  or_default,
}
use rust_app.Service.Guest.{observe, activate_gated, activate_admitted}
use rust_app.Service.Results.{bind-ok, check-ok, check-then}

abbrev pub activation_key : ActivateRequest → ShardEpochKey
activation_key req =
    shard_epoch_key req.execution_class req.tenant_id req.shard_id req.runtime_epoch

-- An activation is written down in the state.
pub record IsActive (req : ActivateRequest) (digest : Text) (answer : ActivationStatus)
    (t : AppState) : Type 0 where
  pub observation : ObservedActivation
  pub found : lookup (activation_key req) t.observed_activation ≡ some observation
  pub root : observation.root_active_deployment_id ≡ some digest
  pub loaded : lookup digest observation.loaded_deployment_ids ≡ some tt
  pub answered : answer.root_active_deployment_id ≡ some digest

module _ (world : World) (setup : Setup) (req : ActivateRequest) where
  observe-IsActive :
      (status : ShardStatus) (digest : Text) (s t : AppState) (answer : ActivationStatus)
      → observe world setup req status digest s ≡ (ok answer, t)
      → IsActive req digest answer t
  unfolding observe activated activation_status
  observe-IsActive status digest s t answer e =
      let o =
        activated status digest (or_default (lookup (activation_key req) s.observed_activation)) in
      record {
        observation = o;
        found =
            ap (λ p. lookup (activation_key req) p.1.observed_activation) (sym e)
            ∙ lookup-insert_self (activation_key req) o s.observed_activation;
        root = refl;
        loaded = lookup-put_self digest tt _;
        answered = ground arith;
      }

  activate_gated-IsActive :
      (digest : Text) (admitted : Option AdmittedArtifact) (content : Text) (s t : AppState)
      (answer : ActivationStatus)
      → activate_gated world setup req digest admitted content s ≡ (ok answer, t)
      → IsActive req digest answer t
  unfolding activate_gated
  activate_gated-IsActive digest admitted content s t answer e =
      let (status, s1, _, e1) = bind-ok _ _ s e in
      let (_, _, e2) = check-then _ _ s1 e1 in
      let (_, _, e3) = check-then _ _ s1 e2 in
      let (_, _, e4) = check-then _ _ s1 e3 in
      let (response, s2, _, e5) = bind-ok _ _ s1 e4 in
      let (_, _, e6) = check-then _ _ s2 e5 in observe-IsActive status digest s2 t answer e6

  activate_admitted-IsActive :
      (s t : AppState) (answer : ActivationStatus)
      → activate_admitted world setup req s ≡ (ok answer, t)
      → (digest : Text) × (requested_digest req.deployment_id ≡ ok digest)
        × IsActive req digest answer t
  unfolding activate_admitted
  activate_admitted-IsActive s t answer e =
      let (_, _, e1) = check-then _ _ s e in
      let (_, _, e2) = check-then _ _ s e1 in
      let (_, _, e3) = check-then _ _ s e2 in
      let (digest, requested, e4) = check-ok _ _ s e3 in
      let (preliminary, s1, _, e5) = bind-ok _ _ s e4 in
      let (_, _, e6) = check-then _ _ s1 e5 in
      let (admitted, s2, _, e7) = bind-ok _ _ s1 e6 in
      let (content, s3, _, e8) = bind-ok _ _ s2 e7 in
      (digest, requested, activate_gated-IsActive digest admitted content s3 t answer e8)

  -- A deployment whose activation is answered with success is named as the active one, and may be
  -- invoked from then on: the state allows it for every status of the shard in that epoch.
  pub activate-allowed :
      (s t : AppState) (answer : ActivationStatus)
      → activate_admitted world setup req s ≡ (ok answer, t)
      → (digest : Text) × (requested_digest req.deployment_id ≡ ok digest)
        × (answer.root_active_deployment_id ≡ some digest)
        × ((status : ShardStatus)
            → status_key status ≡ activation_key req
            → deployment_allowed status digest t ≡ (ok true, t))
  unfolding deployment_allowed
  activate-allowed s t answer e =
      let (digest, requested, a) = activate_admitted-IsActive s t answer e in
      (
        digest,
        requested,
        a.answered,
        λ status same. rw (same, a.found) (ap (λ o. (ok (is_some o), t)) a.loaded),
      )
