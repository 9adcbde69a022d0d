-- ===== src/Manifest.antt =====
-- The artifact manifest of the context ABI, the first half of
-- certification/beamscale-context-abi/rust/src/lib.rs: what the build grants, against what the
-- module asks for.
pub mod Sets
pub mod Shared
pub mod Parity
mod Examples
use rust_app.Prelude.{
  ℕ, Bool, true, false, not, ◌&&◌, ◌||◌, Option, none, some, List, [], ◌∷◌, ltb, leb, nat_eq,
  if◌then◌else◌,
}
use rust_app.Prelude.Lists.{length, all}
use rust_app.Prelude.Text.{Text, bytes, text_eq}
use rust_app.Prelude.Result.{Result, ok, err, ◌>>◌, map_err, reject_if}
use rust_app.Host.Path.{is_digit, is_upper}
use rust_app.Module.{
  HostedCapability, ModuleDescriptor, ModuleContractError, cluster_call, log, has_capability,
  validate,
}

abbrev pub hosted_profile_v1 : Text
hosted_profile_v1 = bytes "bmscl-hosted-gleam-v1"

abbrev pub hosted_profile_v2 : Text
hosted_profile_v2 = bytes "bmscl-hosted-gleam-v2-read-only"

abbrev pub hosted_profile_v3_http : Text
hosted_profile_v3_http = bytes "bmscl-hosted-gleam-v3-http-capability"

abbrev pub durable_actor_profile_v1 : Text
durable_actor_profile_v1 = bytes "bmscl-hosted-gleam-durable-actor-v1"

abbrev pub erlang_critical_section_profile_v1 : Text
erlang_critical_section_profile_v1 = bytes "bmscl-critical-section-erlang-v1"

pub record RuntimeBudget : Type 0 where
  pub max_wall_ms : ℕ
  pub max_reductions : ℕ
  pub max_heap_bytes : ℕ
  pub max_processes : ℕ

-- The scope is a value of serde_json.
pub record CapabilityGrant (Value : Type 0) : Type 0 where
  pub name : Text
  pub scope : Option Value

pub record ArtifactManifest (Value : Type 0) : Type 0 where
  pub format_version : ℕ
  pub runtime : Text
  pub language : Text
  pub profile : Text
  pub source_sha256 : Text
  pub build_sha256 : Text
  pub entrypoint : Text
  pub capabilities : List (CapabilityGrant Value)
  pub runtime_limits : RuntimeBudget

-- `unreachable` is no error of the source: it stands for the panic of `unreachable!`.
pub data ManifestError : Type 0 where
  version runtime profile digest capability capability_parity entrypoint_parity : ManifestError
  budget unreachable : ManifestError
  module_contract : ModuleContractError → ManifestError

abbrev pub Verdict : Type 0
Verdict = Result ManifestError (Unit {0})

-- An ASCII hexadecimal digit that is no upper-case letter.
abbrev pub is_hex_byte : ℕ → Bool
is_hex_byte b =
    (is_digit b || (leb b'A' b && leb b b'F') || (leb b'a' b && leb b b'f')) && not (is_upper b)

abbrev pub is_sha256 : Text → Bool
is_sha256 value = nat_eq (length value) 64 && all is_hex_byte value

abbrev pub hosted_capability_grant_name : HostedCapability → Text
hosted_capability_grant_name cluster_call = bytes "ctx.cluster"
hosted_capability_grant_name HostedCapability.http = bytes "ctx.http"
hosted_capability_grant_name log = bytes "ctx.log"

unfoldable pub hosted_capability_from_grant_name : Text → Option HostedCapability
hosted_capability_from_grant_name value =
    if text_eq value (bytes "ctx.cluster")
    then some cluster_call
    else if text_eq value (bytes "ctx.http")
    then some HostedCapability.http
    else if text_eq value (bytes "ctx.log")
    then some log
    else none

-- The profiles of hosted Gleam.
abbrev pub is_gleam_profile : Text → Bool
is_gleam_profile p =
    text_eq p hosted_profile_v1
    || text_eq p hosted_profile_v2
    || text_eq p hosted_profile_v3_http
    || text_eq p durable_actor_profile_v1

-- The `match` on the profile with the language.
abbrev pub check_profile : Text → Text → Verdict
check_profile p language =
    if is_gleam_profile p && text_eq language (bytes "gleam")
    then ok tt
    else if text_eq p erlang_critical_section_profile_v1 && text_eq language (bytes "erlang")
    then ok tt
    else if is_gleam_profile p || text_eq p erlang_critical_section_profile_v1
    then err ManifestError.runtime
    else err ManifestError.profile

-- A set of capabilities is a list, of which only the elements matter.
abbrev pub same_set : List HostedCapability → List HostedCapability → Bool
same_set a b = all (λ c. has_capability c b) a && all (λ c. has_capability c a) b

abbrev pub has_text : Text → List Text → Bool
has_text name [] = false
has_text name (n ∷ names) = text_eq name n || has_text name names

abbrev pub add_known : Option HostedCapability → List HostedCapability → List HostedCapability
add_known none l = l
add_known (some c) l = c ∷ l

abbrev pub is_unknown : Option HostedCapability → Bool
is_unknown none = true
is_unknown (some c) = false

-- The capabilities of a profile, none where the source panics.
abbrev pub required : Text → List HostedCapability → Option (List HostedCapability)
required p actual =
    if text_eq p hosted_profile_v2
      || text_eq p durable_actor_profile_v1
      || text_eq p erlang_critical_section_profile_v1
    then some (cluster_call ∷ log ∷ [])
    else if text_eq p hosted_profile_v3_http
    then some (cluster_call ∷ HostedCapability.http ∷ log ∷ [])
    else if text_eq p hosted_profile_v1
    then some actual
    else none

abbrev pub check_required : List HostedCapability → Option (List HostedCapability) → Verdict
check_required actual none = err unreachable
check_required actual (some needed) =
    reject_if (not (same_set actual needed)) ManifestError.capability

abbrev pub no_budget : RuntimeBudget → Bool
no_budget limits =
    nat_eq limits.max_wall_ms 0
    || nat_eq limits.max_reductions 0
    || ltb limits.max_heap_bytes 1048576
    || not (nat_eq limits.max_processes 1)

module _ {Value : Type 0} where
  -- The test of the grants, over the set of the names so far.
  unfoldable pub bad_grant : List Text → List (CapabilityGrant Value) → Bool
  unfolding hosted_capability_from_grant_name
  bad_grant names [] = false
  bad_grant names (grant ∷ grants) =
      is_unknown (hosted_capability_from_grant_name grant.name)
      || has_text grant.name names
      || bad_grant (grant.name ∷ names) grants

  -- The capabilities that the grants name.
  unfoldable pub granted : List (CapabilityGrant Value) → List HostedCapability
  unfolding hosted_capability_from_grant_name
  granted [] = []
  granted (grant ∷ grants) =
      add_known (hosted_capability_from_grant_name grant.name) (granted grants)

  unfoldable pub validate_shared_tier : ArtifactManifest Value → Verdict
  unfolding bad_grant granted
  validate_shared_tier m = do
    reject_if (not (nat_eq m.format_version 1)) ManifestError.version
    reject_if (not (text_eq m.runtime (bytes "beam"))) ManifestError.runtime
    check_profile m.profile m.language
    reject_if (not (is_sha256 m.source_sha256) || not (is_sha256 m.build_sha256))
        ManifestError.digest
    reject_if (bad_grant [] m.capabilities) ManifestError.capability
    check_required (granted m.capabilities) (required m.profile (granted m.capabilities))
    reject_if (no_budget m.runtime_limits) ManifestError.budget

  unfoldable pub validate_shared_tier_for_module :
      ArtifactManifest Value → ModuleDescriptor → Verdict
  unfolding validate_shared_tier
  validate_shared_tier_for_module m descriptor = do
    validate_shared_tier m
    map_err module_contract (validate descriptor)
    reject_if (not (text_eq m.entrypoint descriptor.entrypoint)) entrypoint_parity
    reject_if (not (same_set descriptor.capabilities (granted m.capabilities))) capability_parity
