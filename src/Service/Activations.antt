-- ===== src/Service/Activations.antt =====
-- What is observed of activations: `ShardEpochKey`, `clear_observed_for_shard`,
-- `deployment_allowed` and `activation_status` of
-- cert/beamscale-critical-section/infra-runtime-host/src/main.rs.
use rust_app.Prelude.{
  ℕ, Bool, true, ◌&&◌, Option, none, some, List, [], ◌∷◌, nat_eq, if◌then◌else◌, ◌≡◌, ◌↔◌, arith,
}
use rust_app.Prelude.Text.{Text, text_eq, text_eq_iff}
use rust_app.Prelude.Dict.{Eq, lookup}
use rust_app.Prelude.BTree.{text_key, is_some, contains_key, put}
use rust_app.Prelude.Result.{Result, ok, err}
use rust_app.Host.Types.{ExecutionClass, ShardStatus, class_eq}
use rust_app.Service.Types.{
  ShardEpochKey, ObservedActivation, internal_server_error, non_canonical_digest, refused,
  ActivationStatus, Message,
}
use rust_app.Service.Checks.{Check, normalize_build_digest}
use rust_app.Service.State.{Handler}

unfoldable pub epoch_key_eq : ShardEpochKey → ShardEpochKey → Bool
epoch_key_eq j k =
    class_eq j.execution_class k.execution_class
    && text_eq j.tenant_id k.tenant_id
    && text_eq j.shard_id k.shard_id
    && nat_eq j.runtime_epoch k.runtime_epoch

epoch_key_eq→≡ : (j k : ShardEpochKey) → epoch_key_eq j k ≡ true → j ≡ k
unfolding epoch_key_eq
epoch_key_eq→≡ j k h =
    ground (arith, text_eq_iff j.tenant_id k.tenant_id, text_eq_iff j.shard_id k.shard_id)

epoch_key_eq_refl : (k : ShardEpochKey) → epoch_key_eq k k ≡ true
unfolding epoch_key_eq
epoch_key_eq_refl k =
    ground (arith, text_eq_iff k.tenant_id k.tenant_id, text_eq_iff k.shard_id k.shard_id)

pub epoch_key_eq_iff : (j k : ShardEpochKey) → (epoch_key_eq j k ≡ true) ↔ (j ≡ k)
epoch_key_eq_iff j k = (epoch_key_eq→≡ j k, λ e. rw e (epoch_key_eq_refl k))

instance abbrev pub shard_epoch_key_eq : Eq ShardEpochKey
shard_epoch_key_eq = record { beq = epoch_key_eq; beq_iff = epoch_key_eq_iff }

abbrev pub shard_epoch_key : ExecutionClass → Text → Text → ℕ → ShardEpochKey
shard_epoch_key class tenant shard epoch = record {
  execution_class = class;
  tenant_id = tenant;
  shard_id = shard;
  runtime_epoch = epoch;
}

abbrev pub status_key : ShardStatus → ShardEpochKey
status_key status =
    shard_epoch_key status.execution_class status.tenant_id status.shard_id status.runtime_epoch

-- `clear_observed_for_shard`: the entries of the shard go, of every epoch.
unfoldable pub is_of_shard : ExecutionClass → Text → Text → ShardEpochKey → Bool
is_of_shard class tenant shard key =
    class_eq key.execution_class class && text_eq key.tenant_id tenant && text_eq key.shard_id shard

unfoldable pub without_shard :
    ExecutionClass
    → Text
    → Text
    → List (ShardEpochKey × ObservedActivation)
    → List (ShardEpochKey × ObservedActivation)
without_shard class tenant shard [] = []
without_shard class tenant shard ((key, observed) ∷ rest) =
    if is_of_shard class tenant shard key
    then without_shard class tenant shard rest
    else (key, observed) ∷ without_shard class tenant shard rest

unfoldable pub clear_observed_for_shard : ExecutionClass → Text → Text → Handler (Unit {0})
clear_observed_for_shard class tenant shard s = (
  ok tt,
  record s { observed_activation = without_shard class tenant shard s.observed_activation },
)

-- The digest that the host holds for a shard.
abbrev pub placement_digest : ShardStatus → Check Text
placement_digest status = elim (normalize_build_digest status.deployment_digest) [
  | ok digest ↦ ok digest
  | err message ↦ refused internal_server_error non_canonical_digest
]

abbrev pub allowed_by : ShardStatus → Text → Option ObservedActivation → Check Bool
allowed_by status requested (some observed) =
    ok (contains_key requested observed.loaded_deployment_ids)
allowed_by status requested none = elim (placement_digest status) [
  | ok placement ↦ ok (text_eq placement requested)
  | err e ↦ err e
]

unfoldable pub deployment_allowed : ShardStatus → Text → Handler Bool
deployment_allowed status requested s =
    (allowed_by status requested (lookup (status_key status) s.observed_activation), s)

-- `entry(key).or_default()`.
abbrev pub or_default : Option ObservedActivation → ObservedActivation
or_default none = record { root_active_deployment_id = none; loaded_deployment_ids = [] }
or_default (some observed) = observed

abbrev pub with_bootstrap : Result Message Text → ObservedActivation → ObservedActivation
with_bootstrap (ok bootstrap) observed = record observed {
  loaded_deployment_ids = put bootstrap tt observed.loaded_deployment_ids;
}
with_bootstrap (err _) observed = observed

-- What `activate` writes down of a shard whose guest has activated a deployment.
unfoldable pub activated : ShardStatus → Text → ObservedActivation → ObservedActivation
activated status deployment_id observed =
    let loaded = with_bootstrap (normalize_build_digest status.deployment_digest) observed in
    record {
      root_active_deployment_id = some deployment_id;
      loaded_deployment_ids = put deployment_id tt loaded.loaded_deployment_ids;
    }

-- The keys of a set in their order.
abbrev pub elements : List (Text × Unit {0}) → List Text
elements [] = []
elements ((name, _) ∷ rest) = name ∷ elements rest

abbrev pub observed_root : Option ObservedActivation → Option Text
observed_root none = none
observed_root (some observed) = observed.root_active_deployment_id

abbrev pub observed_loaded : Option ObservedActivation → List Text
observed_loaded none = []
observed_loaded (some observed) = elements observed.loaded_deployment_ids

unfoldable pub activation_status : ShardStatus → Option ObservedActivation → ActivationStatus
activation_status status observed = record {
  tenant_id = status.tenant_id;
  shard_id = status.shard_id;
  execution_class = status.execution_class;
  execution_backend = status.execution_backend;
  runtime_epoch = status.runtime_epoch;
  placement_deployment_id = status.deployment_digest;
  observed = is_some observed;
  root_active_deployment_id = observed_root observed;
  loaded_deployment_ids = observed_loaded observed;
}
