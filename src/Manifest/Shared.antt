-- ===== src/Manifest/Shared.antt =====
-- The manifests of the shared tier, `validate_shared_tier` of
-- certification/beamscale-context-abi/rust/src/lib.rs.
use rust_app.Prelude.{
  ◌≤◌, ◌<◌, ◌≡◌, ◌⊎◌, ◌&&◌, ◌||◌, refl, sym, Bool, true, false, not, none, some, List, [], ◌∷◌,
  arith, nat_eq, inl, inr, Bool-cases,
}
use rust_app.Prelude.Text.{Text, bytes, text_eq, text_eq_iff}
use rust_app.Prelude.{◌∙◌, ap, Option-cases, if◌then◌else◌}
use rust_app.Module.Laws.{some_inj}
use mathlib.Core.Path.{subst}
use rust_app.Prelude.Result.{
  reject_if-false, reject_if-ok, then-ok, ok, err, reject_if, reject_if-ok, then-ok,
}
use rust_app.Module.{HostedCapability, cluster_call, log, has_capability}
use rust_app.Manifest.{
  ArtifactManifest, ManifestError, hosted_profile_v1, hosted_profile_v2, hosted_profile_v3_http,
  durable_actor_profile_v1, erlang_critical_section_profile_v1, is_sha256,
  hosted_capability_grant_name, is_gleam_profile, check_profile, same_set, bad_grant, granted,
  required, check_required, no_budget, validate_shared_tier,
}
use rust_app.Manifest.{bad_grant, granted, is_sha256, no_budget}
use rust_app.Manifest.Sets.{
  granted-has_grant, bad_grant-AreProper, has_grant, granted-has_grant, AreProper,
  bad_grant-AreProper, same_set-has_capability,
}

-- The capabilities that a profile in production has: all have the cluster and the log, and one has
-- HTTP.
abbrev pub profile_allows : Text → HostedCapability → Bool
profile_allows p HostedCapability.http = text_eq p hosted_profile_v3_http
profile_allows p _ = true

module _ {Value : Type 0} where
  pub record IsShared (m : ArtifactManifest Value) : Type 0 where
    pub version : m.format_version ≡ 1
    pub beam : m.runtime ≡ bytes "beam"
    pub language :
        ((is_gleam_profile m.profile ≡ true) × (m.language ≡ bytes "gleam"))
        ⊎ ((m.profile ≡ erlang_critical_section_profile_v1) × (m.language ≡ bytes "erlang"))
    pub source : is_sha256 m.source_sha256 ≡ true
    pub build : is_sha256 m.build_sha256 ≡ true
    pub grants : AreProper m.capabilities
    pub allowed :
        (m.profile ≡ hosted_profile_v1)
        ⊎ ((c : HostedCapability)
            → has_grant (hosted_capability_grant_name c) m.capabilities
              ≡ profile_allows m.profile c)
    pub wall : 0 < m.runtime_limits.max_wall_ms
    pub reductions : 0 < m.runtime_limits.max_reductions
    pub heap : 1048576 ≤ m.runtime_limits.max_heap_bytes
    pub one_process : m.runtime_limits.max_processes ≡ 1

refused :
    {A : Type 0} (b : Bool)
    → (if b then err ManifestError.runtime else err ManifestError.profile) ≡ ok tt
    → A
refused true h = cc h
refused false h = cc h

pub check_profile-ok :
    (p language : Text)
    → check_profile p language ≡ ok tt
    → ((is_gleam_profile p ≡ true) × (language ≡ bytes "gleam"))
      ⊎ ((p ≡ erlang_critical_section_profile_v1) × (language ≡ bytes "erlang"))
check_profile-ok p language h =
    let gleam = text_eq_iff language (bytes "gleam") in
    let erlang = text_eq_iff language (bytes "erlang") in
    let section = text_eq_iff p erlang_critical_section_profile_v1 in
    elim (Bool-cases (is_gleam_profile p && text_eq language (bytes "gleam"))) [
      | inl is ↦ inl (ground arith, gleam.0 (ground arith))
      | inr is_not ↦
          elim (Bool-cases
            (text_eq p erlang_critical_section_profile_v1 && text_eq language (bytes "erlang"))) [
              | inl is ↦ inr (section.0 (ground arith), erlang.0 (ground arith))
              | inr neither ↦
                  let falls : check_profile p language ≡ (
                      if is_gleam_profile p || text_eq p erlang_critical_section_profile_v1
                      then err ManifestError.runtime
                      else err ManifestError.profile) =
                    rw (is_not, neither) in
                  refused _ (sym falls ∙ h)
            ]
    ]

-- The profiles whose capabilities are the cluster and the log.
abbrev is_plain : Text → Bool
is_plain p =
    text_eq p hosted_profile_v2
    || text_eq p durable_actor_profile_v1
    || text_eq p erlang_critical_section_profile_v1

is_plain-no_http : (p : Text) → is_plain p ≡ true → text_eq p hosted_profile_v3_http ≡ false
unfolding text_eq
is_plain-no_http p h =
    let v2 = text_eq_iff p hosted_profile_v2 in
    let durable = text_eq_iff p durable_actor_profile_v1 in
    let section = text_eq_iff p erlang_critical_section_profile_v1 in
    elim (Bool-cases (text_eq p hosted_profile_v2)) [
      | inl is ↦ rw (v2.0 is) refl
      | inr not_v2 ↦ elim (Bool-cases (text_eq p durable_actor_profile_v1)) [
        | inl is ↦ rw (durable.0 is) refl
        | inr not_durable ↦ rw (section.0 (ground arith)) refl
      ]
    ]

reject_if-true : (b : Bool) (x : ManifestError) → reject_if (not b) x ≡ ok tt → b ≡ true
reject_if-true true x h = refl
reject_if-true false x h = cc h

two_allow :
    (p : Text) (c : HostedCapability)
    → text_eq p hosted_profile_v3_http ≡ false
    → has_capability c (cluster_call ∷ log ∷ []) ≡ profile_allows p c
two_allow p HostedCapability.cluster_call no_web = refl
two_allow p HostedCapability.http no_web = sym no_web
two_allow p HostedCapability.log no_web = refl

three_allow :
    (p : Text) (c : HostedCapability)
    → text_eq p hosted_profile_v3_http ≡ true
    → has_capability c (cluster_call ∷ HostedCapability.http ∷ log ∷ []) ≡ profile_allows p c
three_allow p HostedCapability.cluster_call web = refl
three_allow p HostedCapability.http web = sym web
three_allow p HostedCapability.log web = refl

needed_by :
    (p : Text) (c : HostedCapability) (actual needed : List HostedCapability)
    → required p actual ≡ some needed
    → (text_eq p hosted_profile_v1 ≡ false)
    → has_capability c needed ≡ profile_allows p c
needed_by p c actual needed h production = elim (Bool-cases (is_plain p)) [
  | inl plain ↦
      let two : required p actual ≡ some (cluster_call ∷ log ∷ []) = rw plain in
      subst (λ l. has_capability c l ≡ profile_allows p c) (some_inj (sym two ∙ h))
        (two_allow p c (is_plain-no_http p plain))
  | inr not_plain ↦ elim (Bool-cases (text_eq p hosted_profile_v3_http)) [
    | inl web ↦
        let three : required p actual ≡ some (cluster_call ∷ HostedCapability.http ∷ log ∷ []) =
          rw (not_plain, web) in
        subst (λ l. has_capability c l ≡ profile_allows p c) (some_inj (sym three ∙ h))
          (three_allow p c web)
    | inr no_web ↦
        let panics : required p actual ≡ none = rw (not_plain, no_web, production) in
        cc (sym panics ∙ h)
  ]
]

check_required-ok :
    (p : Text) (actual : List HostedCapability)
    → check_required actual (required p actual) ≡ ok tt
    → (p ≡ hosted_profile_v1)
      ⊎ ((c : HostedCapability) → has_capability c actual ≡ profile_allows p c)
check_required-ok p actual h = elim (Bool-cases (text_eq p hosted_profile_v1)) [
  | inl is ↦ inl ((text_eq_iff p hosted_profile_v1).0 is)
  | inr production ↦ elim (Option-cases (required p actual)) [
    | inl panics ↦ cc (sym (ap (check_required actual) panics) ∙ h)
    | inr (needed, found) ↦
        let checked : reject_if (not (same_set actual needed)) ManifestError.capability ≡ ok tt =
          sym (ap (check_required actual) found) ∙ h in
        inr (λ c.
          same_set-has_capability actual needed (reject_if-true _ ManifestError.capability checked)
            c
          ∙ needed_by p c actual needed found production)
  ]
]

module _ {Value : Type 0} where
  pub validate_shared_tier-IsShared :
      (m : ArtifactManifest Value) → validate_shared_tier m ≡ ok tt → IsShared m
  unfolding validate_shared_tier
  validate_shared_tier-IsShared m h =
      let actual = granted m.capabilities in
      let (version, h1) =
        reject_if-ok (not (nat_eq m.format_version 1)) ManifestError.version _ h in
      let (beam, h2) =
        reject_if-ok (not (text_eq m.runtime (bytes "beam"))) ManifestError.runtime _ h1 in
      let (profile, h3) = then-ok (check_profile m.profile m.language) _ h2 in
      let (digests, h4) =
        reject_if-ok (not (is_sha256 m.source_sha256) || not (is_sha256 m.build_sha256))
          ManifestError.digest _ h3 in
      let (proper, h5) = reject_if-ok (bad_grant [] m.capabilities) ManifestError.capability _ h4 in
      let (needed, h6) = then-ok (check_required actual (required m.profile actual)) _ h5 in
      let limits = reject_if-false (no_budget m.runtime_limits) ManifestError.budget h6 in
      let is_beam = text_eq_iff m.runtime (bytes "beam") in
      record {
        version = ground arith;
        beam = is_beam.0 (ground arith);
        language = check_profile-ok m.profile m.language profile;
        source = ground arith;
        build = ground arith;
        grants = (bad_grant-AreProper [] m.capabilities proper).0;
        allowed = elim (check_required-ok m.profile actual needed) [
          | inl legacy ↦ inl legacy
          | inr exact ↦ inr (λ c. sym (granted-has_grant c m.capabilities) ∙ exact c)
        ];
        wall = ground arith;
        reductions = ground arith;
        heap = ground arith;
        one_process = ground arith;
      }
