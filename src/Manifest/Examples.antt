-- ===== src/Manifest/Examples.antt =====
-- The theorems on the manifest at one that grants HTTP, for a module that asks for it.
use rust_app.Prelude.{◌≡◌, refl, Bool, none, [], ◌∷◌}
use rust_app.Prelude.Text.{Text, bytes, text_eq}
use rust_app.Prelude.Result.{ok, err}
use rust_app.Host.Path.{parse_digits, parse_unsigned, parse_u16}
use rust_app.Module.{
  ModuleDescriptor, HostedCapability, lambda, cluster_call, log, default_execution,
  module_contract_v1, context_abi_v1, execution_matches_kind, repeats, validate,
}
use rust_app.Module.Entrypoint.{
  split_once, rsplit_once, is_portable_ident, is_portable_path, parse_entrypoint,
}
use rust_app.Manifest.{
  ArtifactManifest, CapabilityGrant, capability_parity, hosted_profile_v3_http,
  hosted_capability_from_grant_name, bad_grant, granted, validate_shared_tier,
  validate_shared_tier_for_module,
}
use rust_app.Manifest.Parity.{IsMatched, validate_for_module-IsMatched}

abbrev sha256 : Text
sha256 = bytes "0123456789abcdef0123456789abcdef0123456789abcdef0123456789abcdef"

abbrev grant : Text → CapabilityGrant Bool
grant n = record { name = n; scope = none }

abbrev manifest : ArtifactManifest Bool
manifest = record {
  format_version = 1;
  runtime = bytes "beam";
  language = bytes "gleam";
  profile = hosted_profile_v3_http;
  source_sha256 = sha256;
  build_sha256 = sha256;
  entrypoint = bytes "worker:handle/2";
  capabilities =
      grant (bytes "ctx.log") ∷ grant (bytes "ctx.http") ∷ grant (bytes "ctx.cluster") ∷ [];
  runtime_limits = record {
    max_wall_ms = 1000;
    max_reductions = 1000000;
    max_heap_bytes = 8388608;
    max_processes = 1;
  };
}

abbrev web : ModuleDescriptor
web = record {
  contract_version = module_contract_v1;
  context_abi = context_abi_v1;
  semantics_version = none;
  kind = lambda;
  name = bytes "web";
  entrypoint = bytes "worker:handle/2";
  execution = default_execution;
  capabilities = cluster_call ∷ HostedCapability.http ∷ log ∷ [];
}

web_matches : validate_shared_tier_for_module manifest web ≡ ok tt
unfolding validate_shared_tier_for_module validate_shared_tier bad_grant granted
    hosted_capability_from_grant_name validate parse_entrypoint split_once rsplit_once
    is_portable_ident is_portable_path parse_u16 parse_unsigned parse_digits execution_matches_kind
    repeats text_eq
web_matches = refl

-- A module that does not ask for HTTP is not given it.
less_refused :
    validate_shared_tier_for_module manifest (record web { capabilities = cluster_call ∷ log ∷ [] })
    ≡ err capability_parity
unfolding validate_shared_tier_for_module validate_shared_tier bad_grant granted
    hosted_capability_from_grant_name validate parse_entrypoint split_once rsplit_once
    is_portable_ident is_portable_path parse_u16 parse_unsigned parse_digits execution_matches_kind
    repeats text_eq
less_refused = refl

validate_for_module-IsMatched_example : IsMatched manifest web
validate_for_module-IsMatched_example = validate_for_module-IsMatched manifest web web_matches
