-- ===== src/Store/Sorting.antt =====
-- The sorting of the entries in `resolve_admitted_bundle` of
-- cert/beamscale-critical-section/infra-runtime-host/src/artifact_store.rs.
use rust_app.Prelude.{inr, inl, ◌⊎◌, ℕ, ◌+◌, ◌≡◌, ◌≢◌, List, [], ◌∷◌, ◌++◌, arith}
use Prim.Native.Nat.{Ordering}
use rust_app.Prelude.Lists.{length, All}
use rust_app.Prelude.Text.{Text}
use rust_app.Prelude.BTree.{text_compare, order_cases}
use mathlib.Core.Path.{sym, subst}
use rust_app.Store.Bundle.{Entries, insert_sorted, sort_from}

-- The bytes of all the entries.
abbrev pub total_size : Entries → ℕ
total_size [] = 0
total_size ((name, content) ∷ entries) = length content + total_size entries

pub total_size-append : (xs ys : Entries) → total_size (xs ++ ys) ≡ total_size xs + total_size ys
total_size-append [] ys = omega arith
total_size-append ((name, content) ∷ xs) ys = omega (arith, total_size-append xs ys)

pub All-append {κ} :
    (P : Text × List ℕ → Type κ) (xs ys : Entries) → All P xs → All P ys → All P (xs ++ ys)
All-append P [] ys all more = more
All-append P (x ∷ xs) ys (p, all) more = (p, All-append P xs ys all more)

-- In the order of the names, where equal names may follow each other.
abbrev pub IsSorted : Entries → Type 0
IsSorted [] = Unit
IsSorted (e ∷ []) = Unit
IsSorted (e ∷ f ∷ entries) = (text_compare e.0 f.0 ≢ Ordering.gt) × IsSorted (f ∷ entries)

total_size-insert_sorted :
    (e : Text × List ℕ) (l : Entries) → total_size (insert_sorted e l) ≡ length e.1 + total_size l
unfolding insert_sorted
total_size-insert_sorted e [] = omega arith
total_size-insert_sorted e (f ∷ l) = ground (arith, total_size-insert_sorted e l)

pub total_size-sort_from :
    (l m : Entries) → total_size (sort_from l m) ≡ total_size l + total_size m
unfolding sort_from
total_size-sort_from l [] = omega arith
total_size-sort_from l (e ∷ m) =
    omega (arith, total_size-sort_from (insert_sorted e l) m, total_size-insert_sorted e l)

-- An entry goes before the next one or further down.
pub insert_cases :
    (e f : Text × List ℕ) (l : Entries)
    → ((text_compare f.0 e.0 ≡ Ordering.gt) × (insert_sorted e (f ∷ l) ≡ e ∷ f ∷ l))
      ⊎ ((text_compare f.0 e.0 ≢ Ordering.gt) × (insert_sorted e (f ∷ l) ≡ f ∷ insert_sorted e l))
unfolding insert_sorted
insert_cases e f l = elim (order_cases (text_compare f.0 e.0)) [
  | inl lt ↦ inr (cc lt, rw (lt, insert_sorted))
  | inr (inl eq) ↦ inr (cc eq, rw (eq, insert_sorted))
  | inr (inr gt) ↦ inl (gt, rw (gt, insert_sorted))
]

insert_sorted-All {κ} :
    (P : Text × List ℕ → Type κ) (e : Text × List ℕ) (l : Entries)
    → P e
    → All P l
    → All P (insert_sorted e l)
unfolding insert_sorted
insert_sorted-All P e [] p all = (p, tt)
insert_sorted-All P e (f ∷ l) p (q, all) = elim (insert_cases e f l) [
  | inl (_, here) ↦ subst (All P) (sym here) (p, (q, all))
  | inr (_, later) ↦ subst (All P) (sym later) (q, insert_sorted-All P e l p all)
]

pub sort_from-All {κ} :
    (P : Text × List ℕ → Type κ) (l m : Entries) → All P l → All P m → All P (sort_from l m)
unfolding sort_from
sort_from-All P l [] all more = all
sort_from-All P l (e ∷ m) all (p, more) =
    sort_from-All P (insert_sorted e l) m (insert_sorted-All P e l p all) more

text_compare-gt : (s t : Text) → text_compare s t ≡ Ordering.gt → text_compare t s ≢ Ordering.gt
unfolding text_compare
text_compare-gt [] [] h = cc
text_compare-gt [] (y ∷ t) h = cc
text_compare-gt (x ∷ s) [] h = λ same. cc same
text_compare-gt (x ∷ s) (y ∷ t) h = λ same. ground (arith, text_compare-gt s t)

insert_after-IsSorted :
    (f e : Text × List ℕ) (l : Entries)
    → text_compare f.0 e.0 ≢ Ordering.gt
    → IsSorted (f ∷ l)
    → IsSorted (f ∷ insert_sorted e l)
unfolding insert_sorted
insert_after-IsSorted f e [] before sorted = (before, tt)
insert_after-IsSorted f e (g ∷ l) before (next, sorted) = elim (insert_cases e g l) [
  | inl (gt, here) ↦
      subst (λ k. IsSorted (f ∷ k)) (sym here) (before, (text_compare-gt g.0 e.0 gt, sorted))
  | inr (le, later) ↦
      subst (λ k. IsSorted (f ∷ k)) (sym later) (next, insert_after-IsSorted g e l le sorted)
]

insert_sorted-IsSorted :
    (e : Text × List ℕ) (l : Entries) → IsSorted l → IsSorted (insert_sorted e l)
unfolding insert_sorted
insert_sorted-IsSorted e [] sorted = tt
insert_sorted-IsSorted e (f ∷ l) sorted = elim (insert_cases e f l) [
  | inl (gt, here) ↦ subst IsSorted (sym here) (text_compare-gt f.0 e.0 gt, sorted)
  | inr (le, later) ↦ subst IsSorted (sym later) (insert_after-IsSorted f e l le sorted)
]

pub sort_from-IsSorted : (l m : Entries) → IsSorted l → IsSorted (sort_from l m)
unfolding sort_from
sort_from-IsSorted l [] sorted = sorted
sort_from-IsSorted l (e ∷ m) sorted =
    sort_from-IsSorted (insert_sorted e l) m (insert_sorted-IsSorted e l sorted)
