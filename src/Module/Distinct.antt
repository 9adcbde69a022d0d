-- ===== src/Module/Distinct.antt =====
-- The search for duplicates among the capabilities of a module, of
-- certification/beamscale-context-abi/rust/src/module_contract.rs.
use rust_app.Prelude.{◌≡◌, ◌↔◌, refl, false, List, [], ◌∷◌, arith}
use rust_app.Module.{HostedCapability, capability_eq, has_capability, repeats}

-- No capability stands twice.
abbrev pub AreDistinct : List HostedCapability → Type 0
AreDistinct [] = Unit
AreDistinct (c ∷ capabilities) = (has_capability c capabilities ≡ false) × AreDistinct capabilities

-- None of the list is in the set.
abbrev pub AreNew : List HostedCapability → List HostedCapability → Type 0
AreNew unique [] = Unit
AreNew unique (c ∷ capabilities) = (has_capability c unique ≡ false) × AreNew unique capabilities

capability_eq_sym : (c d : HostedCapability) → capability_eq c d ≡ capability_eq d c
capability_eq_sym HostedCapability.cluster_call HostedCapability.cluster_call = refl
capability_eq_sym HostedCapability.cluster_call HostedCapability.http = refl
capability_eq_sym HostedCapability.cluster_call HostedCapability.log = refl
capability_eq_sym HostedCapability.http HostedCapability.cluster_call = refl
capability_eq_sym HostedCapability.http HostedCapability.http = refl
capability_eq_sym HostedCapability.http HostedCapability.log = refl
capability_eq_sym HostedCapability.log HostedCapability.cluster_call = refl
capability_eq_sym HostedCapability.log HostedCapability.http = refl
capability_eq_sym HostedCapability.log HostedCapability.log = refl

AreNew-insert :
    (unique : List HostedCapability) (c : HostedCapability) (l : List HostedCapability)
    → AreNew (c ∷ unique) l ↔ (AreNew unique l × (has_capability c l ≡ false))
AreNew-insert unique c [] = (λ _. (tt, refl), λ _. tt)
AreNew-insert unique c (d ∷ l) =
    let same = capability_eq_sym c d in
    let rest = AreNew-insert unique c l in
    (
      λ (here, later). let (new, clear) = rest.0 later in ((ground arith, new), ground arith),
      λ ((here, later), clear). (ground arith, rest.1 (later, ground arith)),
    )

pub repeats_iff :
    (unique l : List HostedCapability)
    → (repeats unique l ≡ false) ↔ (AreNew unique l × AreDistinct l)
unfolding repeats
repeats_iff unique [] = (λ _. (tt, tt), λ _. refl)
repeats_iff unique (c ∷ l) =
    let rest = repeats_iff (c ∷ unique) l in
    let inserted = AreNew-insert unique c l in
    (
      λ h.
          let (new, distinct) = rest.0 (ground arith) in
          let (before, clear) = inserted.0 new in ((ground arith, before), (clear, distinct)),
      λ ((here, before), (clear, distinct)).
          let none_left = rest.1 (inserted.1 (before, clear), distinct) in ground arith,
    )

pub AreNew-nothing : (l : List HostedCapability) → AreNew [] l
AreNew-nothing [] = tt
AreNew-nothing (c ∷ l) = (refl, AreNew-nothing l)
