-- ===== src/Policy/Examples.antt =====
-- The theorems on the policy at a concrete policy and a simple reactive map.
use rust_app.Prelude.{
  ℕ, suc, ◌≡◌, refl, Bool, true, false, none, some, List, [], ◌∷◌, ◌++◌, ◌||◌, arith,
}
use rust_app.Prelude.Lists.{All}
use rust_app.Prelude.Text.{Text, bytes, text_eq, text_eq_iff, starts_with}
use rust_app.Prelude.Dict.{lookup}
use rust_app.Prelude.BTree.{BTreeMap, text_key, put, text_compare, extend}
use rust_app.Prelude.Result.{ok, for_each}
use rust_app.Host.Path.{is_absolute, components}
use rust_app.Policy.{Config, Group, Process, ResolvedProcess, default_network, default_limits}
use rust_app.Policy.Check.{
  validate, validate_name, validate_group, validate_groups, validate_group_policy,
  validate_environment, validate_process, validate_command, validate_explicit, check_read_only,
  check_variable, same_parts, declare_members, contains_nul,
}
use rust_app.Policy.Resolve.{ReactiveMaps, AreLayered, or_else, resolve_process}
use rust_app.Policy.Checked.{IsConfined, IsHarmless}
use rust_app.Policy.Confined.{resolve_process-IsConfined}
use rust_app.Policy.Members.{HasDistinctKeys, Belongs}
use rust_app.Policy.Resolution.{resolve_process_total}

-- The values of the layers one after the other, the last layer first.
record Layers : Type 0 where
  names : List Text
  top : ℕ
  values : BTreeMap Text

abbrev has_name : Text → List Text → Bool
has_name name [] = false
has_name name (n ∷ names) = text_eq name n || has_name name names

abbrev layered : ReactiveMaps
layered = record {
  ReactiveMap = Layers;
  new = record { names = []; top = 0; values = [] };
  replace_string_layer = λ name source priority values m. record {
    names = name ∷ m.names;
    top = suc priority;
    values = values ++ m.values;
  };
  get_val = λ key m. lookup key m.values;
}

lookup-append :
    (key : Text) (d e : BTreeMap Text) → lookup key (d ++ e) ≡ or_else (lookup key d) (lookup key e)
unfolding lookup
lookup-append key [] e = refl
lookup-append key ((k, v) ∷ d) e = ground (arith, text_eq_iff key k, lookup-append key d e)

layered-AreLayered : AreLayered layered
unfolding lookup
layered-AreLayered = record {
  used = λ name m. has_name name m.names;
  above = λ m. m.top;
  get_val-new = λ key. refl;
  used-new = λ name. refl;
  above-new = refl;
  used-replace = λ other name source priority values m. refl;
  above-replace = λ name source priority values m h. refl;
  get_val-replace = λ key name source priority values m fresh h. lookup-append key values m.values;
}

abbrev base : Group
base = record {
  members = bytes "worker" ∷ [];
  filesystem = record { read_only = bytes "/etc/ssl" ∷ [] };
  network = default_network;
  limits = default_limits;
  environment = (bytes "LANG", bytes "C") ∷ [];
}

abbrev worker : Process
worker = record {
  group = some (bytes "base");
  command = bytes "/usr/bin/true" ∷ bytes "-v" ∷ [];
  environment = (bytes "A", bytes "1") ∷ [];
}

abbrev config : Config
config = record {
  version = 1;
  defaults = record { group = bytes "base" };
  groups = (bytes "base", base) ∷ [];
  processes = (bytes "worker", worker) ∷ [];
}

config-valid : validate config ≡ ok tt
unfolding validate validate_groups validate_group validate_name validate_environment check_variable
    for_each validate_group_policy check_read_only same_parts declare_members validate_process
    validate_command validate_explicit lookup text_eq put text_compare starts_with components
config-valid = refl

configured : lookup (bytes "worker") config.processes ≡ some worker
unfolding lookup text_eq
configured = refl

no_duplicates : HasDistinctKeys config.processes
unfolding lookup
no_duplicates = (refl, tt)

resolve_process_total_example :
    (r : ResolvedProcess) × (resolve_process layered config (bytes "worker") none ≡ ok r)
    × Belongs config (bytes "worker") worker.group r.group
resolve_process_total_example =
    resolve_process_total config (bytes "worker") worker layered layered-AreLayered no_duplicates
      config-valid configured

abbrev resolved_worker : ResolvedProcess
resolved_worker = record {
  name = bytes "worker";
  group = bytes "base";
  executable = bytes "/usr/bin/true";
  args = bytes "-v" ∷ [];
  policy = base;
  environment = (bytes "A", bytes "1") ∷ (bytes "LANG", bytes "C") ∷ [];
}

worker_by_override :
    resolve_process layered config (bytes "worker") (some (bytes "base")) ≡ ok resolved_worker
unfolding resolve_process validate_environment check_variable for_each lookup text_eq put extend
    text_compare starts_with
worker_by_override = refl

resolve_process-IsConfined_example :
    (lookup (bytes "base") config.groups ≡ some base)
    × IsConfined base
    × All IsHarmless resolved_worker.environment
    × (is_absolute (bytes "/usr/bin/true") ≡ true)
    × (contains_nul (bytes "/usr/bin/true") ≡ false)
resolve_process-IsConfined_example =
    resolve_process-IsConfined layered config (bytes "worker") (some (bytes "base")) resolved_worker
      config-valid worker_by_override
