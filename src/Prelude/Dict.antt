-- ===== src/Prelude/Dict.antt =====
-- A map as an association list over keys with a Boolean equality.
use mathlib.Core.Path.{◌≡◌, refl}
use mathlib.Core.Logic.{◌≢◌, ◌⊎◌, inl, inr}
use native.Mathlib.Omega.{arith}
use mathlib.Core.Logic.{◌↔◌}
use mathlib.Core.Bool.{Bool, true, false}
use mathlib.Core.Option.{Option, none, some}
use mathlib.Core.List.{List, [], ◌∷◌}

pub record Eq {ℓ} (K : Type ℓ) : Type ℓ where
  pub beq : K → K → Bool
  pub beq_iff : (j k : K) → (beq j k ≡ true) ↔ (j ≡ k)

module _ {ℓ} {K : Type ℓ} ⦃e : Eq K⦄ where
  eq_of_test : (j k : K) (b : Bool) → e.beq j k ≡ b → (j ≡ k) ⊎ (j ≢ k)
  eq_of_test j k true h = inl ((e.beq_iff j k).0 h)
  eq_of_test j k false h = inr (λ p. cc ((e.beq_iff j k).1 p))

  pub eq_cases : (j k : K) → (j ≡ k) ⊎ (j ≢ k)
  eq_cases j k = eq_of_test j k (e.beq j k) refl

module _ {ℓ κ} {K : Type ℓ} {V : Type κ} ⦃e : Eq K⦄ where
  -- `get`: the first entry of the key.
  unfoldable pub lookup : K → List (K × V) → Option V
  lookup k [] = none
  lookup k ((j, v) ∷ d) = elim (e.beq k j) [ true ↦ some v | false ↦ lookup k d ]

  -- `insert`: the entry is replaced in place, or added at the end.
  unfoldable pub insert : K → V → List (K × V) → List (K × V)
  insert k v [] = (k, v) ∷ []
  insert k v ((j, w) ∷ d) = elim (e.beq k j) [ true ↦ (k, v) ∷ d | false ↦ (j, w) ∷ insert k v d ]

  pub lookup-insert_self : (k : K) (v : V) (d : List (K × V)) → lookup k (insert k v d) ≡ some v
  unfolding lookup insert
  lookup-insert_self k v [] = ground (arith, e.beq_iff k k)
  lookup-insert_self k v ((j, w) ∷ d) = ground (arith, e.beq_iff k k, lookup-insert_self k v d)

  pub lookup-insert_ne :
      (j k : K) (v : V) (d : List (K × V)) → j ≢ k → lookup j (insert k v d) ≡ lookup j d
  unfolding lookup insert
  lookup-insert_ne j k v [] h = ground (arith, e.beq_iff j k)
  lookup-insert_ne j k v ((i, w) ∷ d) h =
      ground (arith, e.beq_iff j i, e.beq_iff k i, e.beq_iff j k, lookup-insert_ne j k v d h)

  -- The first entry is found, and the later ones are where their keys do not stand twice.
  pub lookup-head : (k : K) (v : V) (d : List (K × V)) → lookup k ((k, v) ∷ d) ≡ some v
  unfolding lookup
  lookup-head k v d = ground (arith, e.beq_iff k k)

  pub lookup-tail :
      (j k : K) (v u : V) (d : List (K × V))
      → lookup k d ≡ none
      → lookup j d ≡ some u
      → lookup j ((k, v) ∷ d) ≡ some u
  unfolding lookup
  lookup-tail j k v u d fresh h = elim (eq_cases j k) [
    | inl here ↦ cc (rw here at h, fresh)
    | inr other ↦ ground (arith, e.beq_iff j k)
  ]

  -- What an insertion lets one find.
  pub found-insert :
      (j k : K) (v u : V) (d : List (K × V))
      → lookup j (insert k v d) ≡ some u
      → ((j ≡ k) × (u ≡ v)) ⊎ ((j ≢ k) × (lookup j d ≡ some u))
  found-insert j k v u d h = elim (eq_cases j k) [
    | inl p ↦ inl (p, cc (rw p at h, lookup-insert_self k v d))
    | inr n ↦ inr (n, cc (h, lookup-insert_ne j k v d n))
  ]
