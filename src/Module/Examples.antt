-- ===== src/Module/Examples.antt =====
-- The theorems on the module contract at a module that answers requests.
use rust_app.Prelude.{◌≡◌, ◌↔◌, refl, true, some, [], ◌∷◌, ◌++◌, arith}
use rust_app.Prelude.Text.{bytes, text_eq}
use rust_app.Prelude.Result.{ok, err}
use rust_app.Host.Path.{decimal, parse_digits, parse_unsigned, parse_u16}
use rust_app.Module.{
  ModuleDescriptor, ModuleContractError, lambda, actor, log, default_execution, module_contract_v1,
  module_semantics_v2, context_abi_v1, execution_matches_kind, repeats, validate,
}
use rust_app.Module.Entrypoint.{
  split_once, rsplit_once, is_portable_ident, is_portable_path, parse_entrypoint,
}
use rust_app.Module.Laws.{IsEntrypoint, parse_entrypoint_iff, parse_entrypoint-decimal}
use rust_app.Module.Accepted.{IsAccepted, validate_module_iff}

abbrev hello : ModuleDescriptor
hello = record {
  contract_version = module_contract_v1;
  context_abi = context_abi_v1;
  semantics_version = some module_semantics_v2;
  kind = lambda;
  name = bytes "hello_world";
  entrypoint = bytes "worker:handle/2";
  execution = default_execution;
  capabilities = log ∷ [];
}

hello_validated : validate hello ≡ ok tt
unfolding validate parse_entrypoint split_once rsplit_once is_portable_ident is_portable_path
    parse_u16 parse_unsigned parse_digits execution_matches_kind repeats text_eq
hello_validated = refl

-- An actor does not run as a lambda does.
actor_refused : validate (record hello { kind = actor }) ≡ err ModuleContractError.execution
unfolding validate parse_entrypoint split_once rsplit_once is_portable_ident is_portable_path
    parse_u16 parse_unsigned parse_digits execution_matches_kind repeats text_eq
actor_refused = refl

validate_module_iff_example : (validate hello ≡ ok tt) ↔ IsAccepted hello
validate_module_iff_example = validate_module_iff hello

parse_entrypoint_iff_example :
    (parse_entrypoint (bytes "worker:handle/2") ≡ some (bytes "worker", bytes "handle", 2))
    ↔ IsEntrypoint (bytes "worker:handle/2") (bytes "worker", bytes "handle", 2)
parse_entrypoint_iff_example =
    parse_entrypoint_iff (bytes "worker:handle/2") (bytes "worker", bytes "handle", 2)

worker_is_path : is_portable_path (bytes "worker") ≡ true
unfolding is_portable_path
worker_is_path = refl

handle_is_ident : is_portable_ident (bytes "handle") ≡ true
unfolding is_portable_ident
handle_is_ident = refl

worker_parsed :
    parse_entrypoint (bytes "worker" ++ (b':' ∷ (bytes "handle" ++ (b'/' ∷ decimal 12))))
    ≡ some (bytes "worker", bytes "handle", 12)
worker_parsed =
    parse_entrypoint-decimal (bytes "worker") (bytes "handle") 12 worker_is_path handle_is_ident
      (omega arith) (omega arith)
