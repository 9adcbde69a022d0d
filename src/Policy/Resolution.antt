-- ===== src/Policy/Resolution.antt =====
-- The group that `resolve_process` of proc-isolation-proof/src/config.rs resolves a process to.
use rust_app.Prelude.{
  ◌⊎◌, ◌≡◌, refl, ap, true, false, Option, none, some, List, [], ◌∷◌, arith, inl, inr, Option-cases,
}
use rust_app.Prelude.Lists.{All}
use rust_app.Prelude.Text.{Text, text_eq_iff}
use rust_app.Prelude.Dict.{lookup}
use rust_app.Prelude.BTree.{
  BTreeMap, text_key, put, put-All, All-lookup, extend, extend-All, contains_key, is_some,
}
use rust_app.Prelude.Result.{ok}
use rust_app.Policy.{Config, Group, Process, ResolvedProcess}
use rust_app.Policy.Check.{other_group, validate, validate_explicit, validate_environment}
use rust_app.Policy.Checked.{
  IsHarmless, IsConfined, validate-IsValidated, validate_groups-All, validate_process-IsRunnable,
  All-environment,
}
use rust_app.Policy.Members.{
  chosen_group, HasDistinctKeys, Belongs, effective, effective-Belongs, get_val-membership_map,
  validate_groups-group_members,
}
use rust_app.Policy.Resolve.{
  membership_map, ReactiveMaps, AreLayered, add_members, group_members, resolve_process,
}

has_lookup :
    {V : Type 0} (k : Text) (d : BTreeMap V)
    → contains_key k d ≡ true
    → (v : V) × (lookup k d ≡ some v)
has_lookup k d h = elim (Option-cases (lookup k d)) [
  | inl e ↦ absurd (cc (h, ap is_some e))
  | inr found ↦ found
]

-- Names of groups of the policy.
module _ (config : Config) where
  abbrev IsGroup : Text → Type 0
  IsGroup name = contains_key name config.groups ≡ true

  add_members-All :
      (name : Text) (members : List Text) (table : BTreeMap Text)
      → IsGroup name
      → All (λ e. IsGroup e.1) table
      → All (λ e. IsGroup e.1) (add_members name members table)
  unfolding add_members
  add_members-All name [] table known h = h
  add_members-All name (m ∷ members) table known h =
      add_members-All name members (put m name table) known
        (put-All (λ e. IsGroup e.1) m name table known h)

  group_members-All :
      (groups : BTreeMap Group) (table : BTreeMap Text)
      → All (λ e. IsGroup e.0) groups
      → All (λ e. IsGroup e.1) table
      → All (λ e. IsGroup e.1) (group_members groups table)
  unfolding group_members
  group_members-All [] table known h = h
  group_members-All ((name, group) ∷ groups) table (here, known) h =
      group_members-All groups (add_members name group.members table) known
        (add_members-All name group.members table here h)

contains_key-cons :
    {V : Type 0} (j k : Text) (v : V) (d : BTreeMap V)
    → (j ≡ k) ⊎ (contains_key j d ≡ true)
    → contains_key j ((k, v) ∷ d) ≡ true
unfolding lookup
contains_key-cons j k v d h = ground (arith, text_eq_iff j k)

keys-All :
    {V : Type 0} (d more : BTreeMap V)
    → ((k : Text) → contains_key k more ≡ true → contains_key k d ≡ true)
    → All (λ e. contains_key e.0 d ≡ true) more
keys-All d [] known = tt
keys-All d ((k, v) ∷ more) known = (
  known k (contains_key-cons k k v more (inl refl)),
  keys-All d more (λ j h. known j (contains_key-cons j k v more (inr h))),
)

chosen_group-IsGroup :
    (config : Config) (own listed : Option Text) (default : Text)
    → ((group : Text) → own ≡ some group → IsGroup config group)
    → ((group : Text) → listed ≡ some group → IsGroup config group)
    → IsGroup config default
    → IsGroup config (chosen_group own listed default)
chosen_group-IsGroup config (some group) listed default h k d = h group refl
chosen_group-IsGroup config none (some group) default h k d = k group refl
chosen_group-IsGroup config none none default h k d = d

same_group : (listed group : Text) → other_group (some listed) group ≡ false → listed ≡ group
same_group listed group h = ground (arith, text_eq_iff listed group)

module _ (config : Config) (name : Text) (p : Process) where
  members-IsGroup :
      (group : Text)
      → lookup name (group_members config.groups []) ≡ some group
      → IsGroup config group
  members-IsGroup group at =
      All-lookup (λ e. IsGroup config e.1) name group (group_members config.groups [])
        (group_members-All config config.groups [] (keys-All config.groups config.groups (λ k h. h))
          tt)
        at

  own-IsGroup :
      (group : Text) (declared : BTreeMap Text)
      → p.group ≡ some group
      → validate_explicit config name p.group (lookup name declared) ≡ ok tt
      → IsGroup config group × (other_group (lookup name declared) group ≡ false)
  unfolding validate_explicit
  own-IsGroup group declared own explicit =
      let e = rw own at explicit in (ground arith, ground arith)

  effective-IsGroup :
      (declared : BTreeMap Text)
      → validate_explicit config name p.group (lookup name declared) ≡ ok tt
      → contains_key config.defaults.group config.groups ≡ true
      → IsGroup config (effective config name p)
  unfolding effective
  effective-IsGroup declared explicit default =
      chosen_group-IsGroup config p.group (lookup name (group_members config.groups []))
        config.defaults.group (λ group own. (own-IsGroup group declared own explicit).0)
        members-IsGroup default

  -- In a validated policy a process that names its own group is listed by no other group.
  pub explicit_agrees :
      (group listed : Text)
      → validate config ≡ ok tt
      → lookup name config.processes ≡ some p
      → p.group ≡ some group
      → lookup name (group_members config.groups []) ≡ some listed
      → listed ≡ group
  explicit_agrees group listed valid at own in_list =
      let checked = validate-IsValidated config valid in
      let runnable =
        validate_process-IsRunnable config checked.declared name p
          (All-lookup _ name p config.processes checked.processes at) in
      let (_, same) = own-IsGroup group checked.declared own runnable.explicit in
      let table = validate_groups-group_members config config.groups [] checked.groups in
      let declared : lookup name checked.declared ≡ some listed = rw table in_list in
      same_group listed group (rw declared at same)

  resolve_by_default :
      (maps : ReactiveMaps) (group : Text) (policy : Group) (executable : Text) (args : List Text)
      → lookup name config.processes ≡ some p
      → maps.get_val name (membership_map maps config) ≡ some group
      → lookup group config.groups ≡ some policy
      → validate_environment (extend policy.environment p.environment) ≡ ok tt
      → p.command ≡ executable ∷ args
      → resolve_process maps config name none
        ≡ ok (record {
          name = name;
          group = group;
          executable = executable;
          args = args;
          policy = policy;
          environment = extend policy.environment p.environment;
        })
  unfolding resolve_process
  resolve_by_default maps group policy executable args at in_group known valid command =
      rw at (rw in_group (rw known (rw valid (rw command))))

  -- Without an override, every process of a validated policy resolves, and to the group it belongs
  -- to: its own; without one, a group that has it among its members; and the default where no group
  -- has it. The map of the library keeps its promise, and no process stands twice.
  pub resolve_process_total :
      (maps : ReactiveMaps)
      → AreLayered maps
      → HasDistinctKeys config.processes
      → validate config ≡ ok tt
      → lookup name config.processes ≡ some p
      → (r : ResolvedProcess) × (resolve_process maps config name none ≡ ok r)
        × Belongs config name p.group r.group
  resolve_process_total maps laws distinct valid at =
      let checked = validate-IsValidated config valid in
      let runnable =
        validate_process-IsRunnable config checked.declared name p
          (All-lookup _ name p config.processes checked.processes at) in
      let group = effective config name p in
      let (policy, known) =
        has_lookup group config.groups
          (effective-IsGroup checked.declared runnable.explicit checked.default_known) in
      let confined =
        All-lookup (λ e. IsConfined e.1) group policy config.groups
          (validate_groups-All config config.groups [] checked.groups) known in
      let (executable, args, command, _, _) = runnable.command in
      (
        _,
        resolve_by_default maps group policy executable args at
            (get_val-membership_map maps laws config name p at distinct) known
            (All-environment _ (
              extend-All IsHarmless policy.environment p.environment confined.environment
                runnable.environment))
            command,
        effective-Belongs config name p,
      )
