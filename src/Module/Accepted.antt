-- ===== src/Module/Accepted.antt =====
-- The descriptors that `ModuleDescriptor::validate` accepts, of
-- certification/beamscale-context-abi/rust/src/module_contract.rs.
use rust_app.Prelude.{inl, inr, ap, inl, ◌⊎◌, ◌≡◌, ◌↔◌, refl, false, [], arith}
use rust_app.Module.{
  ModuleContractError, not, parsed_entrypoint, ConcurrencyModel, CancellationModel, ℕ,
  isolated_invocation, serialized_actor, deadline, cooperative, request_response, mailbox, event,
  lambda, rpc, actor, worker, invocation_eq, concurrency_eq, cancellation_eq, is_portable_ident,
  isolated_invocation, module_semantics_v2, request_response, some, event, cooperative, none,
  serialized_actor, lambda, context_abi_v1, other_semantics, ok, module_contract_v1, mailbox,
  serves_requests, Text, invocation_eq, true, ModuleExecution, Option, ModuleDescriptor,
  InvocationMode, ModuleKind, execution_matches_kind, validate,
}
use rust_app.Module.Laws.{IsEntrypoint, some_inj, parse_entrypoint_iff}
use rust_app.Module.Entrypoint.{is_portable_ident, parse_entrypoint}
use rust_app.Prelude.Text.{text_eq_iff}
use rust_app.Prelude.Result.{reject_if-false, reject_if-ok, bind-ok}
use mathlib.Core.Path.{subst}
use rust_app.Prelude.Text.{text_eq}
use rust_app.Module.{ModuleContractError, checked_entrypoint}
use rust_app.Prelude.{nat_eq}
use rust_app.Module.Distinct.{AreDistinct, AreNew-nothing, repeats_iff}

-- How a module of each kind runs.
abbrev pub RunsAs : ModuleKind → ModuleExecution → Type 0
RunsAs actor run =
    (run.invocation ≡ mailbox)
    × (run.concurrency ≡ serialized_actor)
    × (run.cancellation ≡ cooperative)
RunsAs worker run = (run.invocation ≡ mailbox) ⊎ (run.invocation ≡ event)
RunsAs _ run =
    (run.invocation ≡ request_response)
    × (run.concurrency ≡ isolated_invocation)
    × (run.cancellation ≡ deadline)

pub record IsAccepted (m : ModuleDescriptor) : Type 0 where
  pub contract : m.contract_version ≡ module_contract_v1
  pub context : m.context_abi ≡ context_abi_v1
  pub semantics : (m.semantics_version ≡ none) ⊎ (m.semantics_version ≡ some module_semantics_v2)
  pub named : is_portable_ident m.name ≡ true
  pub entry : (path : Text) × (name : Text) × IsEntrypoint m.entrypoint (path, name, 2)
  pub runs : RunsAs m.kind m.execution
  pub distinct : AreDistinct m.capabilities

invocation_eq_iff : (a b : InvocationMode) → (invocation_eq a b ≡ true) ↔ (a ≡ b)
invocation_eq_iff request_response request_response = (λ _. refl, λ _. refl)
invocation_eq_iff request_response mailbox = (λ h. cc h, λ e. cc e)
invocation_eq_iff request_response event = (λ h. cc h, λ e. cc e)
invocation_eq_iff mailbox request_response = (λ h. cc h, λ e. cc e)
invocation_eq_iff mailbox mailbox = (λ _. refl, λ _. refl)
invocation_eq_iff mailbox event = (λ h. cc h, λ e. cc e)
invocation_eq_iff event request_response = (λ h. cc h, λ e. cc e)
invocation_eq_iff event mailbox = (λ h. cc h, λ e. cc e)
invocation_eq_iff event event = (λ _. refl, λ _. refl)

concurrency_eq_iff : (a b : ConcurrencyModel) → (concurrency_eq a b ≡ true) ↔ (a ≡ b)
concurrency_eq_iff isolated_invocation isolated_invocation = (λ _. refl, λ _. refl)
concurrency_eq_iff isolated_invocation serialized_actor = (λ h. cc h, λ e. cc e)
concurrency_eq_iff serialized_actor isolated_invocation = (λ h. cc h, λ e. cc e)
concurrency_eq_iff serialized_actor serialized_actor = (λ _. refl, λ _. refl)

cancellation_eq_iff : (a b : CancellationModel) → (cancellation_eq a b ≡ true) ↔ (a ≡ b)
cancellation_eq_iff deadline deadline = (λ _. refl, λ _. refl)
cancellation_eq_iff deadline cooperative = (λ h. cc h, λ e. cc e)
cancellation_eq_iff cooperative deadline = (λ h. cc h, λ e. cc e)
cancellation_eq_iff cooperative cooperative = (λ _. refl, λ _. refl)

serves_requests_iff : (run : ModuleExecution) → (serves_requests run ≡ true) ↔ RunsAs lambda run
serves_requests_iff run =
    let invocation = invocation_eq_iff run.invocation request_response in
    let concurrency = concurrency_eq_iff run.concurrency isolated_invocation in
    let cancellation = cancellation_eq_iff run.cancellation deadline in
    (
      λ h. (
        invocation.0 (ground arith),
        concurrency.0 (ground arith),
        cancellation.0 (ground arith),
      ),
      λ (i, c, k). rw (invocation.1 i, concurrency.1 c, cancellation.1 k),
    )

execution_matches_kind_iff :
    (kind : ModuleKind) (run : ModuleExecution)
    → (execution_matches_kind kind run ≡ true) ↔ RunsAs kind run
unfolding execution_matches_kind
execution_matches_kind_iff lambda run = serves_requests_iff run
execution_matches_kind_iff ModuleKind.http run = serves_requests_iff run
execution_matches_kind_iff rpc run = serves_requests_iff run
execution_matches_kind_iff actor run =
    let invocation = invocation_eq_iff run.invocation mailbox in
    let concurrency = concurrency_eq_iff run.concurrency serialized_actor in
    let cancellation = cancellation_eq_iff run.cancellation cooperative in
    (
      λ h. (
        invocation.0 (ground arith),
        concurrency.0 (ground arith),
        cancellation.0 (ground arith),
      ),
      λ (i, c, k). rw (invocation.1 i, concurrency.1 c, cancellation.1 k),
    )
execution_matches_kind_iff worker run =
    let mailed = invocation_eq_iff run.invocation mailbox in
    let raised = invocation_eq_iff run.invocation event in
    (λ h. ground (arith, mailed.0, raised.0), λ h. ground (arith, mailed.1, raised.1))

parsed_entrypoint-ok :
    (o : Option (Text × Text × ℕ)) {e : Text × Text × ℕ} → parsed_entrypoint o ≡ ok e → o ≡ some e
parsed_entrypoint-ok none h = cc h
parsed_entrypoint-ok (some e) h = cc h

other_semantics_iff :
    (v : Option Text) → (other_semantics v ≡ false) ↔ ((v ≡ none) ⊎ (v ≡ some module_semantics_v2))
other_semantics_iff none = (λ _. inl refl, λ _. refl)
other_semantics_iff (some v) =
    let same = text_eq_iff v module_semantics_v2 in
    (
      λ h. inr (ap some (same.0 (ground arith))),
      λ h. elim h [ inl absent ↦ cc absent | inr is ↦ rw (same.1 (some_inj is)) refl ],
    )

validate-IsAccepted : (m : ModuleDescriptor) → validate m ≡ ok tt → IsAccepted m
unfolding validate
validate-IsAccepted m h =
    let (contract, h1) =
      reject_if-ok (not (text_eq m.contract_version module_contract_v1)) ModuleContractError.version
        _ h in
    let (context, h2) =
      reject_if-ok (not (text_eq m.context_abi context_abi_v1)) ModuleContractError.context_abi _
        h1 in
    let (semantics, h3) =
      reject_if-ok (other_semantics m.semantics_version) ModuleContractError.semantics_version _
        h2 in
    let (named, h4) = reject_if-ok (not (is_portable_ident m.name)) ModuleContractError.name _ h3 in
    let (e, parsed, h5) =
      bind-ok (parsed_entrypoint (parse_entrypoint m.entrypoint)) (checked_entrypoint m) h4 in
    let (arity, h6) = reject_if-ok (not (nat_eq e.2 2)) ModuleContractError.entrypoint_arity _ h5 in
    let (runs, h7) =
      reject_if-ok (not (execution_matches_kind m.kind m.execution)) ModuleContractError.execution _
        h6 in
    let is_two : e.2 ≡ 2 = ground arith in
    let is_entry = (parse_entrypoint_iff m.entrypoint e).0 (parsed_entrypoint-ok _ parsed) in
    let same_contract = text_eq_iff m.contract_version module_contract_v1 in
    let same_context = text_eq_iff m.context_abi context_abi_v1 in
    record {
      contract = ground (arith, same_contract.0);
      context = ground (arith, same_context.0);
      semantics = (other_semantics_iff m.semantics_version).0 semantics;
      named = ground arith;
      entry = (e.0, e.1, subst (λ n. IsEntrypoint m.entrypoint (e.0, e.1, n)) is_two is_entry);
      runs = (execution_matches_kind_iff m.kind m.execution).0 (ground arith);
      distinct =
          ((repeats_iff [] m.capabilities).0
            (reject_if-false _ ModuleContractError.duplicate_capability h7)).1;
    }

IsAccepted-validate : (m : ModuleDescriptor) → IsAccepted m → validate m ≡ ok tt
unfolding validate
IsAccepted-validate m a =
    let (path, name, entry) = a.entry in
    let contract = (text_eq_iff m.contract_version module_contract_v1).1 a.contract in
    let context = (text_eq_iff m.context_abi context_abi_v1).1 a.context in
    let semantics = (other_semantics_iff m.semantics_version).1 a.semantics in
    let parsed = (parse_entrypoint_iff m.entrypoint (path, name, 2)).1 entry in
    let runs = (execution_matches_kind_iff m.kind m.execution).1 a.runs in
    let fresh = (repeats_iff [] m.capabilities).1 (AreNew-nothing m.capabilities, a.distinct) in
    rw (contract, context, semantics, a.named, parsed, runs, fresh) refl

-- A descriptor is accepted exactly if it has this contract, this context and no other semantics than
-- version 2, a portable name, an entrypoint of arity 2, the execution of its kind, and no capability
-- twice.
pub validate_module_iff : (m : ModuleDescriptor) → (validate m ≡ ok tt) ↔ IsAccepted m
validate_module_iff m = (validate-IsAccepted m, IsAccepted-validate m)
