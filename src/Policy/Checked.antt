-- ===== src/Policy/Checked.antt =====
-- The groups and processes of a policy that passes `Config::validate` of
-- proc-isolation-proof/src/config.rs.
use rust_app.Prelude.{◌≤◌, ◌<◌, ◌≡◌, ◌≢◌, refl, true, false, List, [], ◌∷◌, arith}
use rust_app.Prelude.Lists.{All}
use rust_app.Prelude.Text.{Text}
use rust_app.Prelude.Dict.{lookup}
use rust_app.Prelude.BTree.{text_key, BTreeMap, contains_key}
use rust_app.Prelude.Result.{for_each, ok, ◌>>=◌, then-ok, bind-ok, for_each-ok, for_each-All}
use rust_app.Host.Path.{is_absolute, components}
use rust_app.Policy.{Config, Group, Process, external}
use rust_app.Policy.Check.{
  validate, validate_groups, validate_group, validate_group_policy, check_read_only,
  validate_environment, check_variable, validate_process, validate_command, validate_explicit,
  declare_members, valid_key, is_forbidden, contains_nul,
}

-- What may be exposed read-only: absolute paths, but not the root.
abbrev pub IsExposable : Text → Type 0
IsExposable path = (is_absolute path ≡ true) × (components path ≢ [])

-- What may be set in the environment.
abbrev pub IsHarmless : Text × Text → Type 0
IsHarmless (key, value) =
    (valid_key key ≡ true) × (contains_nul value ≡ false) × (is_forbidden key ≡ false)

-- A group that keeps its processes off the host's networks, with resource limits.
pub record IsConfined (group : Group) : Type 0 where
  pub no_loopback : group.network.mode ≡ external → group.network.deny_loopback ≡ true
  pub no_private : group.network.mode ≡ external → group.network.deny_private_networks ≡ true
  pub open_files : 3 ≤ group.limits.max_open_files
  pub cpu_seconds : 0 < group.limits.cpu_seconds
  pub read_only : All IsExposable group.filesystem.read_only
  pub environment : All IsHarmless group.environment

check_variable-IsHarmless : (v : Text × Text) → check_variable v ≡ ok tt → IsHarmless v
unfolding check_variable
check_variable-IsHarmless (key, value) h = ground arith

IsHarmless-check_variable : (v : Text × Text) → IsHarmless v → check_variable v ≡ ok tt
unfolding check_variable
IsHarmless-check_variable (key, value) h = ground arith

All-map {ℓ} :
    {A : Type ℓ} (P Q : A → Type 0) (xs : List A) → ((x : A) → P x → Q x) → All P xs → All Q xs
All-map P Q [] f h = tt
All-map P Q (x ∷ xs) f (here, h) = (f x here, All-map P Q xs f h)

pub environment-All :
    (environment : BTreeMap Text)
    → validate_environment environment ≡ ok tt
    → All IsHarmless environment
unfolding validate_environment
environment-All environment h =
    All-map _ IsHarmless environment check_variable-IsHarmless
      (for_each-ok check_variable environment h)

pub All-environment :
    (environment : BTreeMap Text)
    → All IsHarmless environment
    → validate_environment environment ≡ ok tt
unfolding validate_environment
All-environment environment h =
    for_each-All check_variable environment
      (All-map IsHarmless _ environment IsHarmless-check_variable h)

check_read_only-All :
    (name : Text) (seen paths : List Text)
    → check_read_only name seen paths ≡ ok tt
    → All IsExposable paths
unfolding check_read_only
check_read_only-All name seen [] h = tt
check_read_only-All name seen (path ∷ paths) h =
    let later = check_read_only-All name (path ∷ seen) paths in
    ((ground arith, λ e. ground arith), later (ground arith))

validate_group-IsConfined :
    (config : Config) (name : Text) (group : Group)
    → validate_group config (name, group) ≡ ok tt
    → IsConfined group
unfolding validate_group validate_group_policy
validate_group-IsConfined config name group h = record {
  no_loopback = λ e. ground arith;
  no_private = λ e. ground arith;
  open_files = ground arith;
  cpu_seconds = ground arith;
  read_only = check_read_only-All name [] group.filesystem.read_only (ground arith);
  environment = environment-All group.environment (ground arith);
}

pub validate_groups-All :
    (config : Config) (groups : BTreeMap Group) (declared : BTreeMap Text) {later : BTreeMap Text}
    → validate_groups config groups declared ≡ ok later
    → All (λ e. IsConfined e.1) groups
unfolding validate_groups
validate_groups-All config [] declared h = tt
validate_groups-All config ((name, group) ∷ groups) declared h =
    let (valid, h1) = then-ok (validate_group config (name, group)) _ h in
    let (next, _, h2) = bind-ok (declare_members config name group.members declared) _ h1 in
    (validate_group-IsConfined config name group valid, validate_groups-All config groups next h2)

-- What a validated policy consists of.
pub record IsValidated (config : Config) : Type 0 where
  pub declared : BTreeMap Text
  pub groups : validate_groups config config.groups [] ≡ ok declared
  pub default_known : contains_key config.defaults.group config.groups ≡ true
  pub processes : All (λ p. validate_process config declared p ≡ ok tt) config.processes

pub validate-IsValidated : (config : Config) → validate config ≡ ok tt → IsValidated config
unfolding validate
validate-IsValidated config h =
    let rest : (validate_groups config config.groups [] >>= λ d.
    for_each (validate_process config d) config.processes)
        ≡ ok tt =
      ground arith in
    let (declared, groups, processes) = bind-ok (validate_groups config config.groups []) _ rest in
    record {
      declared = declared;
      groups = groups;
      default_known = ground arith;
      processes = for_each-ok (validate_process config declared) config.processes processes;
    }

-- What a validated process consists of.
pub record IsRunnable (config : Config) (declared : BTreeMap Text) (name : Text) (process : Process)
    : Type 0 where
  pub environment : All IsHarmless process.environment
  pub command :
      (executable : Text) × (args : List Text) × (process.command ≡ executable ∷ args)
      × (is_absolute executable ≡ true)
      × (contains_nul executable ≡ false)
  pub explicit : validate_explicit config name process.group (lookup name declared) ≡ ok tt

validate_command-ok :
    (config : Config) (name : Text) (command : List Text)
    → validate_command config name command ≡ ok tt
    → (executable : Text) × (args : List Text) × (command ≡ executable ∷ args)
      × (is_absolute executable ≡ true)
      × (contains_nul executable ≡ false)
unfolding validate_command
validate_command-ok config name [] h = cc
validate_command-ok config name (executable ∷ args) h =
    (executable, args, refl, ground arith, ground arith)

pub validate_process-IsRunnable :
    (config : Config) (declared : BTreeMap Text) (name : Text) (process : Process)
    → validate_process config declared (name, process) ≡ ok tt
    → IsRunnable config declared name process
unfolding validate_process
validate_process-IsRunnable config declared name process h = record {
  environment = environment-All process.environment (ground arith);
  command = validate_command-ok config name process.command (ground arith);
  explicit = ground arith;
}
