-- ===== src/Policy/Resolve.antt =====
-- The resolution of a process to its group, `resolve_process`, `processes_for_group` and
-- `membership_map` of proc-isolation-proof/src/config.rs, over the reactive map of
-- `ores_reactive_maps`, which is another project's library and a parameter here.
use rust_app.Prelude.{
  not, if◌then◌else◌, ℕ, suc, ◌≤◌, ◌≡◌, Bool, false, ◌||◌, Option, none, some, List, [], ◌∷◌,
}
use rust_app.Prelude.Text.{Text, bytes, text_eq}
use rust_app.Prelude.Dict.{lookup}
use rust_app.Prelude.BTree.{BTreeMap, put, extend, contains_key, text_key}
use rust_app.Prelude.Result.{Result, ok, err, ◌>>=◌, ◌>>◌, map_err, reject_if}
use rust_app.Policy.{
  Config, Group, Process, ResolvedProcess, Error, resolution, panicked, unknown_process,
  unknown_override, unresolved, missing_group, unknown_group,
}
use rust_app.Policy.Check.{validate_environment}

-- What the launcher calls of the library: a layer has a name, a source, a priority and values.
pub record ReactiveMaps : Type 1 where
  pub ReactiveMap : Type 0
  pub new : ReactiveMap
  pub replace_string_layer : Text → Text → ℕ → BTreeMap Text → ReactiveMap → ReactiveMap
  pub get_val : Text → ReactiveMap → Option Text

abbrev pub or_else : Option Text → Option Text → Option Text
or_else none other = other
or_else (some v) other = some v

-- The library's promise: a layer under a new name, with a priority above all those in use, comes
-- before them, and leaves them as they are for the keys that it does not have.
pub record AreLayered (maps : ReactiveMaps) : Type 0 where
  pub used : Text → maps.ReactiveMap → Bool
  pub above : maps.ReactiveMap → ℕ
  pub get_val-new : (key : Text) → maps.get_val key maps.new ≡ none
  pub used-new : (name : Text) → used name maps.new ≡ false
  pub above-new : above maps.new ≡ 0
  pub used-replace :
      (other name source : Text) (priority : ℕ) (values : BTreeMap Text) (m : maps.ReactiveMap)
      → used other (maps.replace_string_layer name source priority values m)
        ≡ (text_eq other name || used other m)
  pub above-replace :
      (name source : Text) (priority : ℕ) (values : BTreeMap Text) (m : maps.ReactiveMap)
      → above m ≤ priority
      → above (maps.replace_string_layer name source priority values m) ≡ suc priority
  pub get_val-replace :
      (key name source : Text) (priority : ℕ) (values : BTreeMap Text) (m : maps.ReactiveMap)
      → used name m ≡ false
      → above m ≤ priority
      → maps.get_val key (maps.replace_string_layer name source priority values m)
        ≡ or_else (lookup key values) (maps.get_val key m)

abbrev pub default_layer : Text
default_layer = bytes "defaults"

abbrev pub group_layer : Text
group_layer = bytes "group-members"

abbrev pub process_layer : Text
process_layer = bytes "process-explicit"

-- Each process with the default group. The keys keep their order.
unfoldable pub default_values : Text → BTreeMap Process → BTreeMap Text
default_values group [] = []
default_values group ((name, process) ∷ processes) = (name, group) ∷ default_values group processes

unfoldable pub add_members : Text → List Text → BTreeMap Text → BTreeMap Text
add_members group_name [] table = table
add_members group_name (member ∷ members) table =
    add_members group_name members (put member group_name table)

unfoldable pub group_members : BTreeMap Group → BTreeMap Text → BTreeMap Text
group_members [] table = table
group_members ((name, group) ∷ groups) table =
    group_members groups (add_members name group.members table)

abbrev pub add_explicit : Text → Option Text → BTreeMap Text → BTreeMap Text
add_explicit name none rest = rest
add_explicit name (some group) rest = (name, group) ∷ rest

unfoldable pub explicit_values : BTreeMap Process → BTreeMap Text
explicit_values [] = []
explicit_values ((name, process) ∷ processes) =
    add_explicit name process.group (explicit_values processes)

-- `ok_or_else`.
abbrev pub found_or : {E A : Type 0} → E → Option A → Result E A
found_or e none = err e
found_or e (some a) = ok a

-- `Option::filter(|value| !value.is_empty())`.
abbrev pub not_empty : Option Text → Option Text
not_empty none = none
not_empty (some []) = none
not_empty (some (c ∷ s)) = some (c ∷ s)

module _ (maps : ReactiveMaps) where
  unfoldable pub membership_map : Config → maps.ReactiveMap
  membership_map config =
      let defaults = default_values config.defaults.group config.processes in
      let members = group_members config.groups [] in
      let explicit = explicit_values config.processes in
      maps.replace_string_layer process_layer (bytes "config.processes.*.group") 30 explicit (
        maps.replace_string_layer group_layer (bytes "config.groups.*.members") 20 members (
          maps.replace_string_layer default_layer (bytes "config.defaults.group") 10 defaults
            maps.new))

  -- The name of the group, by the override if there is one that is not empty.
  unfoldable pub group_name : Config → Text → Option Text → Result Error Text
  group_name config process_name (some override_name) = do
    reject_if (not (contains_key override_name config.groups))
        (resolution (unknown_override override_name))
    ok override_name
  group_name config process_name none =
      found_or (resolution (unresolved process_name))
        (maps.get_val process_name (membership_map config))

  -- The end of `resolve_process`, which takes the command apart.
  abbrev pub resolved :
      Text → Text → Group → BTreeMap Text → List Text → Result Error ResolvedProcess
  resolved name group policy environment [] = err panicked
  resolved name group policy environment (executable ∷ args) = ok (record {
    name = name;
    group = group;
    executable = executable;
    args = args;
    policy = policy;
    environment = environment;
  })

  unfoldable pub resolve_process : Config → Text → Option Text → Result Error ResolvedProcess
  unfolding group_name
  resolve_process config process_name group_override = do
    process ←
        found_or (resolution (unknown_process process_name)) (lookup process_name config.processes)
    group ← group_name config process_name (not_empty group_override)
    policy ← found_or (resolution (missing_group group)) (lookup group config.groups)
    let environment = extend policy.environment process.environment
    map_err resolution (validate_environment environment)
    resolved process_name group policy environment process.command

  abbrev pub resolves_to : Option Text → Text → Bool
  resolves_to none group = false
  resolves_to (some g) group = text_eq g group

  unfoldable pub names_in : Text → maps.ReactiveMap → BTreeMap Process → List Text
  names_in group memberships [] = []
  names_in group memberships ((name, process) ∷ processes) =
      let rest = names_in group memberships processes in
      if resolves_to (maps.get_val name memberships) group then name ∷ rest else rest

  unfoldable pub processes_for_group : Config → Text → Result Error (List Text)
  unfolding names_in
  processes_for_group config group = do
    reject_if (not (contains_key group config.groups)) (resolution (unknown_group group))
    ok (names_in group (membership_map config) config.processes)
