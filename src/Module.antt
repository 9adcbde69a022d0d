-- ===== src/Module.antt =====
-- The module contract of the context ABI,
-- certification/beamscale-context-abi/rust/src/module_contract.rs: the descriptor of an exported
-- module and its validation.
pub mod Entrypoint
pub mod Laws
pub mod Distinct
pub mod Accepted
mod Examples
use rust_app.Prelude.{
  ℕ, Bool, true, false, not, ◌&&◌, ◌||◌, Option, none, some, List, [], ◌∷◌, nat_eq, if◌then◌else◌,
}
use rust_app.Prelude.Text.{Text, bytes, text_eq}
use rust_app.Prelude.Result.{Result, ok, err, ◌>>=◌, ◌>>◌, reject_if}
use rust_app.Module.Entrypoint.{is_portable_ident, parse_entrypoint}

abbrev pub module_contract_v1 : Text
module_contract_v1 = bytes "bmscl-module-contract-v1"

abbrev pub module_semantics_v2 : Text
module_semantics_v2 = bytes "bmscl.module-semantics/v2"

abbrev pub context_abi_v1 : Text
context_abi_v1 = bytes "bmscl.context/v1"

pub data ModuleKind : Type 0 where
  lambda http rpc actor worker : ModuleKind

pub data InvocationMode : Type 0 where
  request_response mailbox event : InvocationMode

pub data ConcurrencyModel : Type 0 where
  isolated_invocation serialized_actor : ConcurrencyModel

pub data CancellationModel : Type 0 where
  deadline cooperative : CancellationModel

pub data HostedCapability : Type 0 where
  cluster_call http log : HostedCapability

pub record ModuleExecution : Type 0 where
  pub invocation : InvocationMode
  pub concurrency : ConcurrencyModel
  pub cancellation : CancellationModel

abbrev pub default_execution : ModuleExecution
default_execution = record {
  invocation = request_response;
  concurrency = isolated_invocation;
  cancellation = deadline;
}

pub record ModuleDescriptor : Type 0 where
  pub contract_version : Text
  pub context_abi : Text
  pub semantics_version : Option Text
  pub kind : ModuleKind
  pub name : Text
  pub entrypoint : Text
  pub execution : ModuleExecution
  pub capabilities : List HostedCapability

pub data ModuleContractError : Type 0 where
  version context_abi semantics_version name entrypoint : ModuleContractError
  entrypoint_arity execution duplicate_capability : ModuleContractError

abbrev pub invocation_eq : InvocationMode → InvocationMode → Bool
invocation_eq request_response request_response = true
invocation_eq mailbox mailbox = true
invocation_eq event event = true
invocation_eq _ _ = false

abbrev pub concurrency_eq : ConcurrencyModel → ConcurrencyModel → Bool
concurrency_eq isolated_invocation isolated_invocation = true
concurrency_eq serialized_actor serialized_actor = true
concurrency_eq _ _ = false

abbrev pub cancellation_eq : CancellationModel → CancellationModel → Bool
cancellation_eq deadline deadline = true
cancellation_eq cooperative cooperative = true
cancellation_eq _ _ = false

abbrev pub capability_eq : HostedCapability → HostedCapability → Bool
capability_eq cluster_call cluster_call = true
capability_eq HostedCapability.http HostedCapability.http = true
capability_eq log log = true
capability_eq _ _ = false

abbrev pub serves_requests : ModuleExecution → Bool
serves_requests run =
    invocation_eq run.invocation request_response
    && concurrency_eq run.concurrency isolated_invocation
    && cancellation_eq run.cancellation deadline

unfoldable pub execution_matches_kind : ModuleKind → ModuleExecution → Bool
execution_matches_kind actor run =
    invocation_eq run.invocation mailbox
    && concurrency_eq run.concurrency serialized_actor
    && cancellation_eq run.cancellation cooperative
execution_matches_kind lambda run = serves_requests run
execution_matches_kind ModuleKind.http run = serves_requests run
execution_matches_kind rpc run = serves_requests run
execution_matches_kind worker run =
    invocation_eq run.invocation mailbox || invocation_eq run.invocation event

abbrev pub has_capability : HostedCapability → List HostedCapability → Bool
has_capability c [] = false
has_capability c (d ∷ capabilities) = capability_eq c d || has_capability c capabilities

-- `capabilities.iter().any(|capability| !unique.insert(*capability))`, over the set so far.
unfoldable pub repeats : List HostedCapability → List HostedCapability → Bool
repeats unique [] = false
repeats unique (c ∷ capabilities) = has_capability c unique || repeats (c ∷ unique) capabilities

abbrev pub other_semantics : Option Text → Bool
other_semantics none = false
other_semantics (some v) = not (text_eq v module_semantics_v2)

abbrev pub parsed_entrypoint :
    Option (Text × Text × ℕ) → Result ModuleContractError (Text × Text × ℕ)
parsed_entrypoint none = err ModuleContractError.entrypoint
parsed_entrypoint (some e) = ok e

-- The checks of the entrypoint, and those after it.
abbrev pub checked_entrypoint :
    ModuleDescriptor → Text × Text × ℕ → Result ModuleContractError (Unit {0})
checked_entrypoint m (module_name, function, arity) = do
  reject_if (not (nat_eq arity 2)) entrypoint_arity
  reject_if (not (execution_matches_kind m.kind m.execution)) ModuleContractError.execution
  reject_if (repeats [] m.capabilities) duplicate_capability

unfoldable pub validate : ModuleDescriptor → Result ModuleContractError (Unit {0})
validate m = do
  reject_if (not (text_eq m.contract_version module_contract_v1)) ModuleContractError.version
  reject_if (not (text_eq m.context_abi context_abi_v1)) ModuleContractError.context_abi
  reject_if (other_semantics m.semantics_version) ModuleContractError.semantics_version
  reject_if (not (is_portable_ident m.name)) ModuleContractError.name
  parsed ← parsed_entrypoint (parse_entrypoint m.entrypoint)
  checked_entrypoint m parsed
