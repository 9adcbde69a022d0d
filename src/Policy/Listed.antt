-- ===== src/Policy/Listed.antt =====
-- What the table of the members, which `membership_map` of proc-isolation-proof/src/config.rs
-- builds, says of the groups.
use rust_app.Prelude.{◌≡◌, ◌≢◌, ◌⊎◌, inl, inr, sym, ◌∙◌, none, some, List, [], ◌∷◌}
use rust_app.Prelude.Text.{Text}
use rust_app.Prelude.Dict.{lookup, eq_cases}
use rust_app.Prelude.BTree.{BTreeMap, text_key, put, found-put, lookup-put_self, lookup-put_ne}
use rust_app.Policy.{Group}
use rust_app.Policy.Resolve.{add_members, group_members}

-- A name stands in a list.
abbrev Stands : Text → List Text → Type 0
Stands name [] = ⊥
Stands name (m ∷ members) = (name ≡ m) ⊎ Stands name members

-- A group of the given name has the process among its members.
abbrev pub Lists : Text → Text → BTreeMap Group → Type 0
Lists name chosen [] = ⊥
Lists name chosen ((k, group) ∷ groups) =
    ((chosen ≡ k) × Stands name group.members) ⊎ Lists name chosen groups

-- What the table of the members finds is a group that was given or that has the process among its
-- members, and where it finds nothing, no group has.
added-Stands :
    (name k : Text) (members : List Text) (table : BTreeMap Text) (chosen : Text)
    → lookup name (add_members k members table) ≡ some chosen
    → ((chosen ≡ k) × Stands name members) ⊎ (lookup name table ≡ some chosen)
unfolding add_members
added-Stands name k [] table chosen at = inr at
added-Stands name k (m ∷ members) table chosen at =
    elim (added-Stands name k members (put m k table) chosen at) [
      | inl (same, stands) ↦ inl (same, inr stands)
      | inr put_there ↦ elim (found-put name m k chosen table put_there) [
        | inl (here, same) ↦ inl (same, inl here)
        | inr before ↦ inr before
      ]
    ]

pub found-Lists :
    (name : Text) (groups : BTreeMap Group) (table : BTreeMap Text) (chosen : Text)
    → lookup name (group_members groups table) ≡ some chosen
    → Lists name chosen groups ⊎ (lookup name table ≡ some chosen)
unfolding group_members
found-Lists name [] table chosen at = inr at
found-Lists name ((k, group) ∷ groups) table chosen at =
    elim (found-Lists name groups (add_members k group.members table) chosen at) [
      | inl listed ↦ inl (inr listed)
      | inr added ↦ elim (added-Stands name k group.members table chosen added) [
        | inl here ↦ inl (inl here)
        | inr before ↦ inr before
      ]
    ]

-- A name that is added to the table is found in it, and stays there.
put-none :
    (name m k : Text) (table : BTreeMap Text)
    → lookup name (put m k table) ≡ none
    → (name ≢ m) × (lookup name table ≡ none)
put-none name m k table at = elim (eq_cases name m) [
  | inl here ↦ cc (rw here at at, lookup-put_self m k table)
  | inr other ↦ (other, sym (lookup-put_ne name m k table other) ∙ at)
]

added-none :
    (name k : Text) (members : List Text) (table : BTreeMap Text)
    → lookup name (add_members k members table) ≡ none
    → (Stands name members → ⊥) × (lookup name table ≡ none)
unfolding add_members
added-none name k [] table at = (λ s. s, at)
added-none name k (m ∷ members) table at =
    let (later, here) = added-none name k members (put m k table) at in
    let (other, before) = put-none name m k table here in
    (λ s. elim s [ inl same ↦ other same | inr stands ↦ later stands ], before)

pub unlisted :
    (name : Text) (groups : BTreeMap Group) (table : BTreeMap Text)
    → lookup name (group_members groups table) ≡ none
    → ((chosen : Text) → Lists name chosen groups → ⊥) × (lookup name table ≡ none)
unfolding group_members
unlisted name [] table at = (λ chosen l. l, at)
unlisted name ((k, group) ∷ groups) table at =
    let (later, added) = unlisted name groups (add_members k group.members table) at in
    let (stands, before) = added-none name k group.members table added in
    (λ chosen l. elim l [ inl (_, s) ↦ stands s | inr l' ↦ later chosen l' ], before)
