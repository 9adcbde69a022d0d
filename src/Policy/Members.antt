-- ===== src/Policy/Members.antt =====
-- The membership of processes in groups, as `validate` declares it and as `membership_map` of
-- proc-isolation-proof/src/config.rs layers it.
use rust_app.Prelude.{◌≡◌, inl, inr, refl, ap, ◌∙◌, false, none, some, List, [], ◌∷◌, arith}
use rust_app.Prelude.Text.{Text, text_eq, text_eq_iff}
use rust_app.Prelude.Dict.{lookup}
use rust_app.Prelude.BTree.{BTreeMap, text_key, put}
use rust_app.Prelude.Result.{ok, bind-ok, then-ok}
use rust_app.Policy.{Option, bytes, Config, Group, Process}
use rust_app.Policy.Check.{validate_groups, validate_group, declare_members}
use rust_app.Policy.Resolve.{
  group_layer, default_layer, process_layer, ReactiveMaps, AreLayered, or_else, default_values,
  add_members, group_members, explicit_values, membership_map,
}
use rust_app.Policy.Listed.{Lists, found-Lists, unlisted}

-- No key stands twice, as in a BTreeMap.
abbrev pub HasDistinctKeys : {V : Type 0} → BTreeMap V → Type 0
HasDistinctKeys [] = Unit
HasDistinctKeys ((k, v) ∷ d) = (lookup k d ≡ none) × HasDistinctKeys d

declare_members-add :
    (config : Config) (name : Text) (members : List Text) (table : BTreeMap Text)
    {later : BTreeMap Text}
    → declare_members config name members table ≡ ok later
    → later ≡ add_members name members table
unfolding declare_members add_members
declare_members-add config name [] table h = cc h
declare_members-add config name (m ∷ members) table h =
    declare_members-add config name members (put m name table) (ground arith)

-- The checks declare the table that the resolution builds.
pub validate_groups-group_members :
    (config : Config) (groups : BTreeMap Group) (table : BTreeMap Text) {later : BTreeMap Text}
    → validate_groups config groups table ≡ ok later
    → later ≡ group_members groups table
unfolding validate_groups group_members
validate_groups-group_members config [] table h = cc h
validate_groups-group_members config ((name, group) ∷ groups) table h =
    let (_, h1) = then-ok (validate_group config (name, group)) _ h in
    let (next, declared, h2) = bind-ok (declare_members config name group.members table) _ h1 in
    validate_groups-group_members config groups next h2
    ∙ ap (group_members groups) (declare_members-add config name group.members table declared)

abbrev pub chosen_group : Option Text → Option Text → Text → Text
chosen_group (some own) listed default = own
chosen_group none (some group) default = group
chosen_group none none default = default

-- The group of a process by the policy: its own, else the one that lists it, else the default.
unfoldable pub effective : Config → Text → Process → Text
effective config name process =
    chosen_group process.group (lookup name (group_members config.groups [])) config.defaults.group

-- The group that a process belongs to: its own; without one, a group that has it among its members;
-- and the default where no group has it.
pub data Belongs (config : Config) (name : Text) (own : Option Text) (chosen : Text) : Type 0 where
  by_itself : own ≡ some chosen → Belongs config name own chosen
  as_member : own ≡ none → Lists name chosen config.groups → Belongs config name own chosen
  by_default :
      own ≡ none
      → ((other : Text) → Lists name other config.groups → ⊥)
      → chosen ≡ config.defaults.group
      → Belongs config name own chosen

chosen_group-Belongs :
    (config : Config) (name : Text) (own listed : Option Text)
    → lookup name (group_members config.groups []) ≡ listed
    → Belongs config name own (chosen_group own listed config.defaults.group)
unfolding lookup
chosen_group-Belongs config name (some own) listed at = by_itself refl
chosen_group-Belongs config name none (some group) at =
    elim (found-Lists name config.groups [] group at) [
      | inl member ↦ as_member refl member
      | inr before ↦ cc before
    ]
chosen_group-Belongs config name none none at =
    by_default refl (unlisted name config.groups [] at).0 refl

pub effective-Belongs :
    (config : Config) (name : Text) (p : Process)
    → Belongs config name p.group (effective config name p)
unfolding effective
effective-Belongs config name p = chosen_group-Belongs config name p.group _ refl

lookup-default_values :
    (group name : Text) (processes : BTreeMap Process) (p : Process)
    → lookup name processes ≡ some p
    → lookup name (default_values group processes) ≡ some group
unfolding lookup default_values
lookup-default_values group name [] p h = cc
lookup-default_values group name ((k, q) ∷ processes) p h =
    ground (arith, lookup-default_values group name processes p)

explicit_values-none :
    (name : Text) (processes : BTreeMap Process)
    → lookup name processes ≡ none
    → lookup name (explicit_values processes) ≡ none
unfolding lookup explicit_values
explicit_values-none name [] h = refl
explicit_values-none name ((k, q) ∷ processes) h =
    ground (arith, explicit_values-none name processes)

lookup-explicit_values :
    (name : Text) (processes : BTreeMap Process) (p : Process)
    → HasDistinctKeys processes
    → lookup name processes ≡ some p
    → lookup name (explicit_values processes) ≡ p.group
unfolding lookup explicit_values
lookup-explicit_values name [] p distinct h = cc
lookup-explicit_values name ((k, q) ∷ processes) p (fresh, distinct) h = ground (
  arith,
  text_eq_iff name k,
  explicit_values-none k processes,
  lookup-explicit_values name processes p distinct,
)

or_else-effective :
    (config : Config) (name : Text) (p : Process)
    → or_else p.group
        (or_else (lookup name (group_members config.groups [])) (some config.defaults.group))
      ≡ some (effective config name p)
unfolding effective
or_else-effective config name p = ground arith

module _ (maps : ReactiveMaps) (laws : AreLayered maps) (config : Config) where
  first_map : maps.ReactiveMap
  first_map =
      maps.replace_string_layer default_layer (bytes "config.defaults.group") 10
        (default_values config.defaults.group config.processes) maps.new

  second_map : maps.ReactiveMap
  unfolding first_map
  second_map =
      maps.replace_string_layer group_layer (bytes "config.groups.*.members") 20
        (group_members config.groups []) first_map

  above-first_map : laws.above first_map ≡ 11
  unfolding first_map
  above-first_map = laws.above-replace _ _ 10 _ maps.new (rw laws.above-new (omega arith))

  above-second_map : laws.above second_map ≡ 21
  unfolding second_map
  above-second_map = laws.above-replace _ _ 20 _ first_map (rw above-first_map (omega arith))

  unused-first_map :
      (name : Text) → text_eq name default_layer ≡ false → laws.used name first_map ≡ false
  unfolding first_map
  unused-first_map name other =
      laws.used-replace name default_layer _ 10 _ maps.new ∙ rw (other, laws.used-new name)

  unused-second_map : laws.used process_layer second_map ≡ false
  unfolding second_map text_eq
  unused-second_map =
      laws.used-replace process_layer group_layer _ 20 _ first_map
      ∙ rw (unused-first_map process_layer refl)

  module _ (name : Text) (p : Process) (at : lookup name config.processes ≡ some p) where
    get_val-first_map : maps.get_val name first_map ≡ some config.defaults.group
    unfolding first_map
    get_val-first_map =
        laws.get_val-replace name default_layer _ 10 _ maps.new (laws.used-new _)
          (rw laws.above-new (omega arith))
        ∙ rw (lookup-default_values config.defaults.group name config.processes p at)

    get_val-second_map :
        maps.get_val name second_map
        ≡ or_else (lookup name (group_members config.groups [])) (some config.defaults.group)
    unfolding second_map text_eq
    get_val-second_map =
        laws.get_val-replace name group_layer _ 20 _ first_map (unused-first_map group_layer refl)
          (rw above-first_map (omega arith))
        ∙ rw get_val-first_map

    -- The layers give each process of the policy its effective group.
    pub get_val-membership_map :
        HasDistinctKeys config.processes
        → maps.get_val name (membership_map maps config) ≡ some (effective config name p)
    unfolding membership_map second_map first_map
    get_val-membership_map distinct =
        laws.get_val-replace name process_layer _ 30 _ second_map unused-second_map
          (rw above-second_map (omega arith))
        ∙ rw (lookup-explicit_values name config.processes p distinct at, get_val-second_map)
            (or_else-effective config name p)
