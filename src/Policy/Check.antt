-- ===== src/Policy/Check.antt =====
-- `Config::load` and `Config::validate` of proc-isolation-proof/src/config.rs.
use rust_app.Prelude.{
  ℕ, Bool, true, false, not, ◌&&◌, ◌||◌, Option, none, some, List, [], ◌∷◌, ltb, nat_eq,
}
use rust_app.Prelude.Lists.{length, all, is_empty}
use rust_app.Prelude.Text.{Text, bytes, text_eq, starts_with}
use rust_app.Prelude.Dict.{lookup}
use rust_app.Prelude.BTree.{BTreeMap, put, contains_key, text_key}
use rust_app.Prelude.Result.{Result, ok, err, ◌>>=◌, ◌>>◌, map_err, reject_if, for_each}
use rust_app.Host.Path.{is_absolute, is_alphanumeric, is_upper, is_digit, components}
use rust_app.Policy.{
  Config, Group, Process, NetworkMode, external, Message, unsupported_version, no_group, no_process,
  unknown_default, unknown_member, multiple_groups, empty_command, relative_executable,
  executable_nul, unknown_explicit, group_conflict, empty_name, long_name, bad_name, few_open_files,
  no_cpu_seconds, loopback_open, private_open, exposes_root, relative_read_only,
  duplicate_read_only, bad_key, nul_value, forbidden_key, parse_error, Error, policy_read,
  policy_invalid, supported_version,
}

abbrev pub Checked : Type 0
Checked = Result Message (Unit {0})

abbrev pub contains_nul : Text → Bool
contains_nul [] = false
contains_nul (c ∷ s) = nat_eq c 0 || contains_nul s

abbrev pub is_name_byte : ℕ → Bool
is_name_byte b = is_alphanumeric b || nat_eq b b'-' || nat_eq b b'_' || nat_eq b b'.'

unfoldable pub validate_name : Text → Text → Checked
validate_name kind value = do
  reject_if (is_empty value) (empty_name kind)
  reject_if (ltb 128 (length value)) (long_name kind value)
  reject_if (not (all is_name_byte value)) (bad_name kind value)

-- Paths are compared by their components.
unfoldable pub same_parts : List Text → List Text → Bool
same_parts [] [] = true
same_parts (p ∷ ps) (q ∷ qs) = text_eq p q && same_parts ps qs
same_parts _ _ = false

abbrev pub seen_before : List Text → Text → Bool
seen_before [] path = false
seen_before (p ∷ seen) path = same_parts (components p) (components path) || seen_before seen path

-- The loop over `read_only`, with what it has seen.
unfoldable pub check_read_only : Text → List Text → List Text → Checked
check_read_only name seen [] = ok tt
check_read_only name seen (path ∷ paths) = do
  reject_if (not (is_absolute path)) (relative_read_only name path)
  reject_if (is_empty (components path)) (exposes_root name)
  reject_if (seen_before seen path) (duplicate_read_only name path)
  check_read_only name (path ∷ seen) paths

abbrev pub is_external : NetworkMode → Bool
is_external external = true
is_external NetworkMode.none = false

unfoldable pub validate_group_policy : Text → Group → Checked
validate_group_policy name group = do
  reject_if (ltb group.limits.max_open_files 3) (few_open_files name)
  reject_if (nat_eq group.limits.cpu_seconds 0) (no_cpu_seconds name)
  reject_if (is_external group.network.mode && not group.network.deny_loopback) (loopback_open name)
  reject_if (is_external group.network.mode && not group.network.deny_private_networks)
      (private_open name)
  check_read_only name [] group.filesystem.read_only

-- A digit may stand in every place but the first.
abbrev pub is_key_start : ℕ → Bool
is_key_start b = is_upper b || nat_eq b b'_'

abbrev pub is_key_byte : ℕ → Bool
is_key_byte b = is_key_start b || is_digit b

abbrev pub valid_key : Text → Bool
valid_key [] = false
valid_key (b ∷ key) = is_key_start b && all is_key_byte key

abbrev pub is_forbidden : Text → Bool
is_forbidden key =
    starts_with (bytes "DYLD_") key
    || starts_with (bytes "LD_") key
    || text_eq key (bytes "BASH_ENV")
    || text_eq key (bytes "ENV")
    || text_eq key (bytes "SHELLOPTS")

unfoldable pub check_variable : Text × Text → Checked
check_variable (key, value) = do
  reject_if (not (valid_key key)) (bad_key key)
  reject_if (contains_nul value) (nul_value key)
  reject_if (is_forbidden key) (forbidden_key key)

unfoldable pub validate_environment : BTreeMap Text → Checked
validate_environment environment = for_each check_variable environment

-- What `insert` returned was another group.
abbrev pub other_group : Option Text → Text → Bool
other_group none group_name = false
other_group (some previous) group_name = not (text_eq previous group_name)

abbrev pub previous_group : Option Text → Text
previous_group none = []
previous_group (some previous) = previous

module _ (config : Config) where
  -- The loop over the members of a group, with `declared_by_group`.
  unfoldable pub declare_members : Text → List Text → BTreeMap Text → Result Message (BTreeMap Text)
  declare_members group_name [] declared = ok declared
  declare_members group_name (member ∷ members) declared = do
    reject_if (not (contains_key member config.processes)) (unknown_member group_name member)
    reject_if (other_group (lookup member declared) group_name)
        (multiple_groups member (previous_group (lookup member declared)) group_name)
    declare_members group_name members (put member group_name declared)

  unfoldable pub validate_group : Text × Group → Checked
  validate_group (name, group) = do
    validate_name (bytes "group") name
    validate_environment group.environment
    validate_group_policy name group

  unfoldable pub validate_groups : BTreeMap Group → BTreeMap Text → Result Message (BTreeMap Text)
  validate_groups [] declared = ok declared
  validate_groups ((name, group) ∷ groups) declared = do
    validate_group (name, group)
    later ← declare_members name group.members declared
    validate_groups groups later

  unfoldable pub validate_command : Text → List Text → Checked
  validate_command name [] = err (empty_command name)
  validate_command name (executable ∷ args) = do
    reject_if (not (is_absolute executable)) (relative_executable name)
    reject_if (contains_nul executable) (executable_nul name)

  unfoldable pub validate_explicit : Text → Option Text → Option Text → Checked
  validate_explicit name none declared = ok tt
  validate_explicit name (some group) declared = do
    reject_if (not (contains_key group config.groups)) (unknown_explicit name group)
    reject_if (other_group declared group) (group_conflict name group (previous_group declared))

  unfoldable pub validate_process : BTreeMap Text → Text × Process → Checked
  validate_process declared (name, process) = do
    validate_name (bytes "process") name
    validate_environment process.environment
    validate_command name process.command
    validate_explicit name process.group (lookup name declared)

  unfoldable pub validate : Checked
  validate = do
    reject_if (not (nat_eq config.version supported_version)) (unsupported_version config.version)
    reject_if (is_empty config.groups) no_group
    reject_if (not (contains_key config.defaults.group config.groups))
        (unknown_default config.defaults.group)
    reject_if (is_empty config.processes) no_process
    declared ← validate_groups config.groups []
    for_each (validate_process declared) config.processes

-- `fs::read_to_string` and `serde_yaml::from_str`, with the text of their errors.
pub record Outside : Type 0 where
  pub read_to_string : Text → Result Text Text
  pub from_str : Text → Result Text Config

unfoldable pub load : Outside → Text → Result Error Config
load outside path = do
  text ← map_err (policy_read path) (outside.read_to_string path)
  config ← map_err (λ e. policy_invalid path (parse_error e)) (outside.from_str text)
  map_err (policy_invalid path) (validate config)
  ok config
