-- ===== src/Manifest/Sets.antt =====
-- Sets of capabilities and the names of grants, as
-- certification/beamscale-context-abi/rust/src/lib.rs has them.
use rust_app.Prelude.{
  ◌≡◌, ◌↔◌, ◌||◌, refl, sym, ap, Bool, true, false, some, List, [], ◌∷◌, arith, inl, inr,
  Bool-cases, Option-cases,
}
use mathlib.Core.Path.{subst}
use rust_app.Module.Laws.{some_inj}
use rust_app.Prelude.{◌∙◌}
use rust_app.Manifest.{
  bad_grant, has_text, add_known, granted, CapabilityGrant, hosted_capability_grant_name,
}
use rust_app.Prelude.Lists.{all}
use rust_app.Prelude.Text.{Text, bytes, text_eq, text_eq_iff}
use rust_app.Module.{HostedCapability, capability_eq, has_capability}
use rust_app.Manifest.{
  bad_grant, has_text, add_known, CapabilityGrant, hosted_capability_grant_name,
  hosted_capability_from_grant_name, same_set, add_known, granted,
}

capability_eq_iff : (c d : HostedCapability) → (capability_eq c d ≡ true) ↔ (c ≡ d)
capability_eq_iff HostedCapability.cluster_call HostedCapability.cluster_call =
    (λ _. refl, λ _. refl)
capability_eq_iff HostedCapability.cluster_call HostedCapability.http = (λ h. cc h, λ e. cc e)
capability_eq_iff HostedCapability.cluster_call HostedCapability.log = (λ h. cc h, λ e. cc e)
capability_eq_iff HostedCapability.http HostedCapability.cluster_call = (λ h. cc h, λ e. cc e)
capability_eq_iff HostedCapability.http HostedCapability.http = (λ _. refl, λ _. refl)
capability_eq_iff HostedCapability.http HostedCapability.log = (λ h. cc h, λ e. cc e)
capability_eq_iff HostedCapability.log HostedCapability.cluster_call = (λ h. cc h, λ e. cc e)
capability_eq_iff HostedCapability.log HostedCapability.http = (λ h. cc h, λ e. cc e)
capability_eq_iff HostedCapability.log HostedCapability.log = (λ _. refl, λ _. refl)

has_capability-all :
    (c : HostedCapability) (a b : List HostedCapability)
    → all (λ d. has_capability d b) a ≡ true
    → has_capability c a ≡ true
    → has_capability c b ≡ true
has_capability-all c [] b h has = cc has
has_capability-all c (d ∷ a) b h has = elim (Bool-cases (capability_eq c d)) [
  | inl same ↦
      let is_d = (capability_eq_iff c d).0 same in
      subst (λ x. has_capability x b ≡ true) (sym is_d) (ground arith)
  | inr other ↦ has_capability-all c a b (ground arith) (ground arith)
]

-- Sets that are equal have the same elements.
pub same_set-has_capability :
    (a b : List HostedCapability)
    → same_set a b ≡ true
    → (c : HostedCapability) → has_capability c a ≡ has_capability c b
same_set-has_capability a b h c = ground (arith, has_capability-all c a b, has_capability-all c b a)

from_grant_name-name :
    (c : HostedCapability)
    → hosted_capability_from_grant_name (hosted_capability_grant_name c) ≡ some c
unfolding hosted_capability_from_grant_name text_eq
from_grant_name-name HostedCapability.cluster_call = refl
from_grant_name-name HostedCapability.http = refl
from_grant_name-name HostedCapability.log = refl

same_capability :
    (value : Text) (c d : HostedCapability)
    → hosted_capability_from_grant_name value ≡ some c
    → value ≡ hosted_capability_grant_name d
    → value ≡ hosted_capability_grant_name c
same_capability value c d h is =
    let of_d : hosted_capability_from_grant_name value ≡ some d = rw is (from_grant_name-name d) in
    is ∙ ap hosted_capability_grant_name (some_inj (sym of_d ∙ h))

-- A name is that of a capability exactly if it is the name that the capability is granted under.
pub from_grant_name_iff :
    (value : Text) (c : HostedCapability)
    → (hosted_capability_from_grant_name value ≡ some c) ↔ (value ≡ hosted_capability_grant_name c)
unfolding hosted_capability_from_grant_name
from_grant_name_iff value c =
    let cluster = text_eq_iff value (bytes "ctx.cluster") in
    let web = text_eq_iff value (bytes "ctx.http") in
    let journal = text_eq_iff value (bytes "ctx.log") in
    (
      λ h. elim (Bool-cases (text_eq value (bytes "ctx.cluster"))) [
        | inl is ↦ same_capability value c HostedCapability.cluster_call h (cluster.0 is)
        | inr not_cluster ↦ elim (Bool-cases (text_eq value (bytes "ctx.http"))) [
          | inl is ↦ same_capability value c HostedCapability.http h (web.0 is)
          | inr not_http ↦ elim (Bool-cases (text_eq value (bytes "ctx.log"))) [
            | inl is ↦ same_capability value c HostedCapability.log h (journal.0 is)
            | inr not_log ↦ absurd (ground arith)
          ]
        ]
      ],
      λ is. rw is (from_grant_name-name c),
    )

bool_ext : (a b : Bool) → (a ≡ true → b ≡ true) → (b ≡ true → a ≡ true) → a ≡ b
bool_ext true b to from = sym (to refl)
bool_ext false true to from = from refl
bool_ext false false to from = refl

-- A known name adds its capability, and an unknown one is that of no capability.
has_capability-add_known :
    (c : HostedCapability) (value : Text) (l : List HostedCapability)
    → has_capability c (add_known (hosted_capability_from_grant_name value) l)
      ≡ (text_eq value (hosted_capability_grant_name c) || has_capability c l)
has_capability-add_known c value l =
    let named = text_eq_iff value (hosted_capability_grant_name c) in
    let known = from_grant_name_iff value c in
    elim (Option-cases (hosted_capability_from_grant_name value)) [
      | inl unknown ↦
          let other : text_eq value (hosted_capability_grant_name c) ≡ false =
            elim (Bool-cases (text_eq value (hosted_capability_grant_name c))) [
              | inl is ↦ cc (sym unknown ∙ known.1 (named.0 is))
              | inr is_not ↦ is_not
            ] in
          rw (unknown, other)
      | inr (d, found) ↦
          let same = capability_eq_iff c d in
          let agree : capability_eq c d ≡ text_eq value (hosted_capability_grant_name c) =
            bool_ext _ _ (λ is. named.1 (known.0 (found ∙ ap some (sym (same.0 is)))))
              (λ is. same.1 (some_inj (sym (known.1 (named.0 is)) ∙ found))) in
          rw (found, agree)
    ]

module _ {Value : Type 0} where
  -- A grant under this name is in the list.
  abbrev pub has_grant : Text → List (CapabilityGrant Value) → Bool
  has_grant name [] = false
  has_grant name (grant ∷ grants) = text_eq grant.name name || has_grant name grants

  -- What is granted is what there is a grant for.
  pub granted-has_grant :
      (c : HostedCapability) (grants : List (CapabilityGrant Value))
      → has_capability c (granted grants) ≡ has_grant (hosted_capability_grant_name c) grants
  unfolding granted
  granted-has_grant c [] = refl
  granted-has_grant c (grant ∷ grants) =
      has_capability-add_known c grant.name (granted grants)
      ∙ ap (λ b. text_eq grant.name (hosted_capability_grant_name c) || b)
          (granted-has_grant c grants)

  -- Every grant has a name that is known and that no later one has.
  abbrev pub AreProper : List (CapabilityGrant Value) → Type 0
  AreProper [] = Unit
  AreProper (grant ∷ grants) =
      ((c : HostedCapability) × (grant.name ≡ hosted_capability_grant_name c))
      × (has_grant grant.name grants ≡ false)
      × AreProper grants

  pub bad_grant-AreProper :
      (names : List Text) (grants : List (CapabilityGrant Value))
      → bad_grant names grants ≡ false
      → AreProper grants
        × ((name : Text) → has_text name names ≡ true → has_grant name grants ≡ false)
  unfolding bad_grant
  bad_grant-AreProper names [] h = (tt, λ name has. refl)
  bad_grant-AreProper names (grant ∷ grants) h =
      let (proper, absent) = bad_grant-AreProper (grant.name ∷ names) grants (ground arith) in
      let itself = text_eq_iff grant.name grant.name in
      (
        (
          elim (Option-cases (hosted_capability_from_grant_name grant.name)) [
            | inl unknown ↦ absurd (ground arith)
            | inr (c, found) ↦ (c, (from_grant_name_iff grant.name c).0 found)
          ],
          absent grant.name (rw (itself.1 refl) refl),
          proper,
        ),
        λ name has. elim (Bool-cases (text_eq grant.name name)) [
          | inl is ↦
              let same = (text_eq_iff grant.name name).0 is in
              let seen : has_text grant.name names ≡ true = rw same has in absurd (ground arith)
          | inr is_not ↦ let later = absent name (ground arith) in ground arith
        ],
      )
