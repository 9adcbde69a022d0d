-- ===== src/Manifest/Parity.antt =====
-- The manifest against its module, `validate_shared_tier_for_module` of
-- certification/beamscale-context-abi/rust/src/lib.rs.
use rust_app.Prelude.{
  ◌≡◌, ◌≢◌, ◌⊎◌, ◌∙◌, refl, sym, Bool, true, false, not, ◌||◌, none, some, List, [], ◌∷◌, arith,
  nat_eq, inl, inr,
}
use rust_app.Prelude.{◌&&◌, if◌then◌else◌}
use rust_app.Prelude.Text.{Text, bytes, text_eq, text_eq_iff}
use rust_app.Prelude.Result.{
  ok, err, ◌>>◌, map_err, map_err-ok, reject_if, reject_if-ok, reject_if-false, reject_if-err,
  then-ok, then-err,
}
use rust_app.Module.{
  cluster_call, log, cluster_call, log, HostedCapability, ModuleDescriptor, has_capability,
  validate,
}
use rust_app.Module.Accepted.{IsAccepted, validate_module_iff}
use rust_app.Manifest.{
  ArtifactManifest, ManifestError, unreachable, module_contract, entrypoint_parity,
  capability_parity, hosted_capability_grant_name, is_sha256, check_profile, same_set, bad_grant,
  granted, required, check_required, no_budget, validate_shared_tier,
  validate_shared_tier_for_module,
}
use rust_app.Manifest.Sets.{has_grant, granted-has_grant, same_set-has_capability}
use rust_app.Manifest.Shared.{
  check_profile-ok, IsShared, validate_shared_tier-IsShared, check_profile-ok,
}
use rust_app.Manifest.{
  hosted_profile_v1, hosted_profile_v2, hosted_profile_v3_http, durable_actor_profile_v1, Verdict,
  is_gleam_profile, erlang_critical_section_profile_v1,
}

module _ {Value : Type 0} where
  -- A manifest of the shared tier, and the module that it was built of.
  pub record IsMatched (m : ArtifactManifest Value) (d : ModuleDescriptor) : Type 0 where
    pub shared : IsShared m
    pub accepted : IsAccepted d
    pub entrypoint : m.entrypoint ≡ d.entrypoint
    pub parity :
        (c : HostedCapability)
        → has_capability c d.capabilities
          ≡ has_grant (hosted_capability_grant_name c) m.capabilities

  -- A manifest that is accepted for a module is one of the shared tier, of version 1, for the beam
  -- and the language of its profile, with proper digests, and with a budget of one process; its
  -- grants have known names, none of them twice, and outside of the profile for development they are
  -- those of the profile. The module is accepted too, has the same entrypoint, and asks exactly for
  -- the capabilities that are granted.
  pub validate_for_module-IsMatched :
      (m : ArtifactManifest Value) (d : ModuleDescriptor)
      → validate_shared_tier_for_module m d ≡ ok tt
      → IsMatched m d
  unfolding validate_shared_tier_for_module
  validate_for_module-IsMatched m d h =
      let (tier, h1) = then-ok (validate_shared_tier m) _ h in
      let (contract, h2) = then-ok (map_err module_contract (validate d)) _ h1 in
      let (entry, h3) =
        reject_if-ok (not (text_eq m.entrypoint d.entrypoint)) entrypoint_parity _ h2 in
      let parity =
        reject_if-false (not (same_set d.capabilities (granted m.capabilities))) capability_parity
          h3 in
      let same_entry = text_eq_iff m.entrypoint d.entrypoint in
      record {
        shared = validate_shared_tier-IsShared m tier;
        accepted = (validate_module_iff d).0 (map_err-ok module_contract (validate d) contract);
        entrypoint = same_entry.0 (ground arith);
        parity = λ c.
            same_set-has_capability d.capabilities (granted m.capabilities) (ground arith) c
            ∙ granted-has_grant c m.capabilities;
      }

abbrev Reached : Verdict → Type 0
Reached r = r ≢ err unreachable

reject_if-Reached : (b : Bool) (e : ManifestError) → e ≢ unreachable → Reached (reject_if b e)
reject_if-Reached b e other h = other (sym (reject_if-err b e h))

then-Reached : (m k : Verdict) → Reached m → (m ≡ ok tt → Reached k) → Reached (m >> k)
then-Reached m k first later h = elim (then-err m k h) [
  | inl fails ↦ first fails
  | inr (passes, fails) ↦ later passes fails
]

reject-then-Reached :
    (b : Bool) (e : ManifestError) (k : Verdict)
    → e ≢ unreachable
    → Reached k
    → Reached (reject_if b e >> k)
reject-then-Reached b e k other later =
    then-Reached (reject_if b e) k (reject_if-Reached b e other) (λ _. later)

match-Reached :
    (gleam section known : Bool)
    → Reached (
        if gleam
        then ok tt
        else if section
        then ok tt
        else if known
        then err ManifestError.runtime
        else err ManifestError.profile)
match-Reached true section known h = cc h
match-Reached false true known h = cc h
match-Reached false false true h = cc h
match-Reached false false false h = cc h

check_profile-Reached : (p language : Text) → Reached (check_profile p language)
check_profile-Reached p language =
    match-Reached (is_gleam_profile p && text_eq language (bytes "gleam"))
      (text_eq p erlang_critical_section_profile_v1 && text_eq language (bytes "erlang"))
      (is_gleam_profile p || text_eq p erlang_critical_section_profile_v1)

first_some :
    {A : Type 0} (a b c : Bool) (x y z : A)
    → (a || (b || c)) ≡ true
    → (found : A) × ((if a then some x else if b then some y else if c then some z else none)
        ≡ some found)
first_some true b c x y z h = (x, refl)
first_some false true c x y z h = (y, refl)
first_some false false true x y z h = (z, refl)
first_some false false false x y z h = cc h

required-some :
    (p : Text) (actual : List HostedCapability)
    → (is_gleam_profile p ≡ true) ⊎ (p ≡ erlang_critical_section_profile_v1)
    → (needed : List HostedCapability) × (required p actual ≡ some needed)
required-some p actual h =
    let section = text_eq_iff p erlang_critical_section_profile_v1 in
    first_some
      (text_eq p hosted_profile_v2
        || text_eq p durable_actor_profile_v1
        || text_eq p erlang_critical_section_profile_v1)
      (text_eq p hosted_profile_v3_http) (text_eq p hosted_profile_v1) (cluster_call ∷ log ∷ [])
      (cluster_call ∷ HostedCapability.http ∷ log ∷ []) actual
      (elim h [ inl gleam ↦ ground arith | inr is ↦ ground (arith, section.1 is) ])

-- The `match` on the profile knows every profile that has passed.
check_required-Reached :
    (p language : Text) (actual : List HostedCapability)
    → check_profile p language ≡ ok tt
    → Reached (check_required actual (required p actual))
check_required-Reached p language actual h =
    let known : (needed : List HostedCapability) × (required p actual ≡ some needed) =
      elim (check_profile-ok p language h) [
        | inl (gleam, _) ↦ required-some p actual (inl gleam)
        | inr (section, _) ↦ required-some p actual (inr section)
      ] in
    let (needed, found) = known in
    rw found (reject_if-Reached (not (same_set actual needed)) ManifestError.capability (λ e. cc e))

module _ {Value : Type 0} where
  -- The panic of `unreachable!` is never met.
  pub validate_shared_tier_reached :
      (m : ArtifactManifest Value) → validate_shared_tier m ≢ err unreachable
  unfolding validate_shared_tier
  validate_shared_tier_reached m =
      let actual = granted m.capabilities in
      let digests = not (is_sha256 m.source_sha256) || not (is_sha256 m.build_sha256) in
      let limits : Verdict = reject_if (no_budget m.runtime_limits) ManifestError.budget in
      let capabilities : Verdict = check_required actual (required m.profile actual) >> limits in
      let grants : Verdict =
        reject_if (bad_grant [] m.capabilities) ManifestError.capability >> capabilities in
      let hashes : Verdict = reject_if digests ManifestError.digest >> grants in
      let profile : Verdict = check_profile m.profile m.language >> hashes in
      let limits_Reached =
        reject_if-Reached (no_budget m.runtime_limits) ManifestError.budget (λ e. cc e) in
      reject-then-Reached (not (nat_eq m.format_version 1)) ManifestError.version
        (reject_if (not (text_eq m.runtime (bytes "beam"))) ManifestError.runtime >> profile)
        (λ e. cc e)
        (reject-then-Reached (not (text_eq m.runtime (bytes "beam"))) ManifestError.runtime profile
          (λ e. cc e)
          (then-Reached (check_profile m.profile m.language) hashes
            (check_profile-Reached m.profile m.language)
            (λ known.
              reject-then-Reached digests ManifestError.digest grants (λ e. cc e)
                (reject-then-Reached (bad_grant [] m.capabilities) ManifestError.capability
                  capabilities (λ e. cc e)
                  (then-Reached (check_required actual (required m.profile actual)) limits
                    (check_required-Reached m.profile m.language actual known)
                    (λ _. limits_Reached))))))
