-- ===== src/Service/Observations.antt =====
-- What the HTTP service observes of activations:
-- cert/beamscale-critical-section/infra-runtime-host/src/main.rs.
use rust_app.Prelude.{
  ◌∙◌, ◌≡◌, refl, true, false, Option, none, some, List, [], ◌∷◌, inl, inr, arith,
}
use rust_app.Prelude.Lists.{length, all}
use rust_app.Prelude.Text.{Text}
use rust_app.Prelude.Dict.{lookup, insert, found-insert, eq_cases}
use rust_app.Prelude.BTree.{BTreeMap, text_key, put, found-put, lookup-put_self, lookup-put_ne}
use rust_app.Prelude.Result.{Result, ok, err}
use rust_app.Host.Types.{ExecutionClass, ShardStatus}
use rust_app.Host.Validate.{is_lower_hex}
use rust_app.Service.Types.{ShardEpochKey, ObservedActivation, Message}
use rust_app.Service.Checks.{normalize_build_digest}
use rust_app.Service.Activations.{
  shard_epoch_key_eq, epoch_key_eq_iff, is_of_shard, without_shard, or_default, with_bootstrap,
  activated,
}

-- A digest in its canonical form.
abbrev pub IsDigest : Text → Type 0
IsDigest digest = (length digest ≡ 64) × (all is_lower_hex digest ≡ true)

pub normalize_build_digest-IsDigest :
    (value : Text) {digest : Text} → normalize_build_digest value ≡ ok digest → IsDigest digest
unfolding normalize_build_digest
normalize_build_digest-IsDigest value h = ground arith

-- What is observed of a shard in an epoch: canonical digests, the active one among them.
pub record IsObservation (o : ObservedActivation) : Type 0 where
  pub root_loaded :
      (digest : Text)
      → o.root_active_deployment_id ≡ some digest
      → lookup digest o.loaded_deployment_ids ≡ some tt
  pub canonical :
      (digest : Text) → lookup digest o.loaded_deployment_ids ≡ some tt → IsDigest digest

abbrev pub Observed : List (ShardEpochKey × ObservedActivation) → Type 0
Observed d =
    (key : ShardEpochKey) (o : ObservedActivation) → lookup key d ≡ some o → IsObservation o

some_injective : {x y : Text} → some x ≡ some y → x ≡ y
some_injective e = cc e

-- What is in a set stays there when one more digest is put in.
put-keeps :
    (d digest : Text) (loaded : BTreeMap (Unit {0}))
    → lookup d loaded ≡ some tt
    → lookup d (put digest tt loaded) ≡ some tt
put-keeps d digest loaded at = elim (eq_cases d digest) [
  | inl here ↦ rw here (lookup-put_self digest tt loaded)
  | inr other ↦ lookup-put_ne d digest tt loaded other ∙ at
]

put-canonical :
    (digest : Text) (loaded : BTreeMap (Unit {0}))
    → IsDigest digest
    → ((d : Text) → lookup d loaded ≡ some tt → IsDigest d)
    → (d : Text) → lookup d (put digest tt loaded) ≡ some tt
    → IsDigest d
put-canonical digest loaded canonical old d at = elim (found-put d digest tt tt loaded at) [
  | inl (here, _) ↦ rw here canonical
  | inr there ↦ old d there
]

with_bootstrap-IsObservation :
    (r : Result Message Text) (o : ObservedActivation)
    → ((digest : Text) → r ≡ ok digest → IsDigest digest)
    → IsObservation o
    → IsObservation (with_bootstrap r o)
with_bootstrap-IsObservation (ok bootstrap) o canonical v = record {
  root_loaded = λ d e. put-keeps d bootstrap o.loaded_deployment_ids (v.root_loaded d e);
  canonical =
      put-canonical bootstrap o.loaded_deployment_ids (canonical bootstrap refl) v.canonical;
}
with_bootstrap-IsObservation (err _) o canonical v = v

activated-IsObservation :
    (status : ShardStatus) (digest : Text) (o : ObservedActivation)
    → IsDigest digest
    → IsObservation o
    → IsObservation (activated status digest o)
unfolding activated
activated-IsObservation status digest o canonical v =
    let bootstrap = normalize_build_digest status.deployment_digest in
    let w =
      with_bootstrap-IsObservation bootstrap o
        (λ d e. normalize_build_digest-IsDigest status.deployment_digest e) v in
    let loaded = (with_bootstrap bootstrap o).loaded_deployment_ids in
    record {
      root_loaded = λ d e. rw (← some_injective e) (lookup-put_self digest tt loaded);
      canonical = put-canonical digest loaded canonical w.canonical;
    }

or_default-IsObservation :
    (o : Option ObservedActivation)
    → ((p : ObservedActivation) → o ≡ some p → IsObservation p)
    → IsObservation (or_default o)
unfolding lookup
or_default-IsObservation none each = record { root_loaded = λ d e. cc; canonical = λ d e. cc }
or_default-IsObservation (some o) each = each o refl

-- An activation of a canonical digest keeps what is observed canonical.
pub Observed-insert :
    (key : ShardEpochKey) (status : ShardStatus) (digest : Text)
    (d : List (ShardEpochKey × ObservedActivation))
    → IsDigest digest
    → Observed d
    → Observed (insert key (activated status digest (or_default (lookup key d))) d)
Observed-insert key status digest d canonical all_observed j o at =
    let new = activated status digest (or_default (lookup key d)) in
    elim (found-insert j key new o d at) [
      | inl (_, same) ↦ rw same (
          activated-IsObservation status digest _ canonical
            (or_default-IsObservation (lookup key d) (all_observed key)))
      | inr (_, old) ↦ all_observed j o old
    ]

module _ (class : ExecutionClass) (tenant shard : Text) where
  -- What is left without a shard was there.
  pub without_shard-found :
      (d : List (ShardEpochKey × ObservedActivation)) (key : ShardEpochKey) (o : ObservedActivation)
      → lookup key (without_shard class tenant shard d) ≡ some o
      → (lookup key d ≡ some o) × (is_of_shard class tenant shard key ≡ false)
  unfolding without_shard lookup
  without_shard-found [] key o at = cc
  without_shard-found ((j, p) ∷ d) key o at =
      ground (arith, epoch_key_eq_iff key j, without_shard-found d key o)
