-- ===== src/Prelude/BTree.antt =====
-- A BTreeMap with strings as keys: the list of its entries in the order of the keys.
use Prim.Native.Nat.{compare, Ordering}
use mathlib.Core.Path.{◌≡◌, refl}
use mathlib.Core.Logic.{◌≢◌, ◌⊎◌, inl, inr}
use mathlib.Core.Bool.{Bool, true, false}
use mathlib.Core.Option.{Option, none, some}
use mathlib.Core.List.{List, [], ◌∷◌}
use rust_app.Prelude.{Bool-cases}
use native.Mathlib.Omega.{arith}
use rust_app.Prelude.Lists.{All}
use rust_app.Prelude.Text.{Text, text_eq, text_eq_iff}
use rust_app.Prelude.Dict.{Eq, lookup, eq_cases}

instance abbrev pub text_key : Eq Text
text_key = record { beq = text_eq; beq_iff = text_eq_iff }

-- The order of strings: by their bytes, the first difference decides.
unfoldable pub text_compare : Text → Text → Ordering
text_compare [] [] = Ordering.eq
text_compare [] (y ∷ t) = Ordering.lt
text_compare (x ∷ s) [] = Ordering.gt
text_compare (x ∷ s) (y ∷ t) = elim (compare x y) [
  | Ordering.lt ↦ Ordering.lt
  | Ordering.eq ↦ text_compare s t
  | Ordering.gt ↦ Ordering.gt
]

text_compare-eq : (s t : Text) → text_compare s t ≡ Ordering.eq → s ≡ t
unfolding text_compare
text_compare-eq [] [] h = refl
text_compare-eq [] (y ∷ t) h = cc
text_compare-eq (x ∷ s) [] h = cc
text_compare-eq (x ∷ s) (y ∷ t) h = ground (arith, text_compare-eq s t)

text_compare_refl : (s : Text) → text_compare s s ≡ Ordering.eq
unfolding text_compare
text_compare_refl [] = refl
text_compare_refl (x ∷ s) = ground (arith, text_compare_refl s)

abbrev pub BTreeMap : Type 0 → Type 0
BTreeMap V = List (Text × V)

pub order_cases : (o : Ordering) → (o ≡ Ordering.lt) ⊎ ((o ≡ Ordering.eq) ⊎ (o ≡ Ordering.gt))
order_cases Ordering.lt = inl refl
order_cases Ordering.eq = inr (inl refl)
order_cases Ordering.gt = inr (inr refl)

module _ {V : Type 0} where
  unfoldable pub put : Text → V → BTreeMap V → BTreeMap V
  put k v [] = (k, v) ∷ []
  put k v ((j, w) ∷ d) = elim (text_compare k j) [
    | Ordering.lt ↦ (k, v) ∷ (j, w) ∷ d
    | Ordering.eq ↦ (k, v) ∷ d
    | Ordering.gt ↦ (j, w) ∷ put k v d
  ]

  -- `extend`: the entries are put in one after the other.
  unfoldable pub extend : BTreeMap V → BTreeMap V → BTreeMap V
  extend d [] = d
  extend d ((k, v) ∷ more) = extend (put k v d) more

  abbrev pub is_some : Option V → Bool
  is_some none = false
  is_some (some v) = true

  abbrev pub contains_key : Text → BTreeMap V → Bool
  contains_key k d = is_some (lookup k d)

  pub lookup-put_self : (k : Text) (v : V) (d : BTreeMap V) → lookup k (put k v d) ≡ some v
  unfolding lookup put
  lookup-put_self k v [] = ground (arith, text_eq_iff k k)
  lookup-put_self k v ((j, w) ∷ d) =
      ground (arith, text_eq_iff k k, text_eq_iff k j, text_compare_refl k, lookup-put_self k v d)

  pub lookup-put_ne :
      (j k : Text) (v : V) (d : BTreeMap V) → j ≢ k → lookup j (put k v d) ≡ lookup j d
  unfolding lookup put
  lookup-put_ne j k v [] h = ground (arith, text_eq_iff j k)
  lookup-put_ne j k v ((i, w) ∷ d) h =
      ground (arith, text_eq_iff j i, text_eq_iff j k, text_compare-eq k i, lookup-put_ne j k v d h)

  -- What a `put` lets one find.
  pub found-put :
      (j k : Text) (v u : V) (d : BTreeMap V)
      → lookup j (put k v d) ≡ some u
      → ((j ≡ k) × (u ≡ v)) ⊎ (lookup j d ≡ some u)
  found-put j k v u d h = elim (eq_cases j k) [
    | inl p ↦ inl (p, cc (rw p at h, lookup-put_self k v d))
    | inr n ↦ inr (cc (h, lookup-put_ne j k v d n))
  ]

  module _ (P : Text × V → Type 0) where
    pub put-All : (k : Text) (v : V) (d : BTreeMap V) → P (k, v) → All P d → All P (put k v d)
    unfolding put
    put-All k v [] here rest = (here, tt)
    put-All k v ((j, w) ∷ d) here (first, rest) = elim (order_cases (text_compare k j)) [
      | inl e ↦ rw (e, put) (here, (first, rest))
      | inr (inl e) ↦ rw (e, put) (here, rest)
      | inr (inr e) ↦ rw (e, put) (first, put-All k v d here rest)
    ]

    pub extend-All : (d more : BTreeMap V) → All P d → All P more → All P (extend d more)
    unfolding extend
    extend-All d [] h g = h
    extend-All d ((k, v) ∷ more) h (here, g) = extend-All (put k v d) more (put-All k v d here h) g

    -- What holds of every entry holds of one that is found.
    pub All-lookup : (k : Text) (v : V) (d : BTreeMap V) → All P d → lookup k d ≡ some v → P (k, v)
    unfolding lookup
    All-lookup k v [] h found = cc
    All-lookup k v ((j, w) ∷ d) (here, h) found = elim (Bool-cases (text_eq k j)) [
      | inl e ↦
          let same_key : k ≡ j = (text_eq_iff k j).0 e in
          let same_value : w ≡ v = cc (rw (e, lookup) at found) in
          rw same_key (rw (← same_value) here)
      | inr e ↦ All-lookup k v d h (rw (e, lookup) at found)
    ]
