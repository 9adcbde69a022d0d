-- ===== src/Policy.antt =====
-- The policy of the process isolation launcher, proc-isolation-proof/src/config.rs: what a policy
-- file holds, its checks, and the resolution of a process to its group.
pub mod Check
pub mod Resolve
pub mod Checked
pub mod Confined
pub mod Listed
pub mod Members
pub mod Resolution
mod Examples
use rust_app.Prelude.{ℕ, Bool, true, Option, List, []}
use rust_app.Prelude.Text.{Text, bytes}
use rust_app.Prelude.BTree.{BTreeMap}

abbrev pub supported_version : ℕ
supported_version = 1

abbrev pub default_group : Text
default_group = bytes "external-only"

pub record Defaults : Type 0 where
  pub group : Text

abbrev pub default_defaults : Defaults
default_defaults = record { group = default_group }

pub record FilesystemPolicy : Type 0 where
  pub read_only : List Text

pub data NetworkMode : Type 0 where
  none external : NetworkMode

pub record NetworkPolicy : Type 0 where
  pub mode : NetworkMode
  pub deny_loopback : Bool
  pub deny_private_networks : Bool

abbrev pub default_network : NetworkPolicy
default_network = record {
  mode = NetworkMode.external;
  deny_loopback = true;
  deny_private_networks = true;
}

pub record ResourceLimits : Type 0 where
  pub max_open_files : ℕ
  pub cpu_seconds : ℕ

abbrev pub default_limits : ResourceLimits
default_limits = record { max_open_files = 128; cpu_seconds = 300 }

pub record Group : Type 0 where
  pub members : List Text
  pub filesystem : FilesystemPolicy
  pub network : NetworkPolicy
  pub limits : ResourceLimits
  pub environment : BTreeMap Text

pub record Process : Type 0 where
  pub group : Option Text
  pub command : List Text
  pub environment : BTreeMap Text

pub record Config : Type 0 where
  pub version : ℕ
  pub defaults : Defaults
  pub groups : BTreeMap Group
  pub processes : BTreeMap Process

pub record ResolvedProcess : Type 0 where
  pub name : Text
  pub group : Text
  pub executable : Text
  pub args : List Text
  pub policy : Group
  pub environment : BTreeMap Text

-- The messages, one constructor each, with what they print.
pub data Message : Type 0 where
  unsupported_version : ℕ → Message
  no_group no_process : Message
  unknown_default : Text → Message
  unknown_member : Text → Text → Message
  multiple_groups : Text → Text → Text → Message
  empty_command relative_executable executable_nul : Text → Message
  unknown_explicit : Text → Text → Message
  group_conflict : Text → Text → Text → Message
  empty_name : Text → Message
  long_name bad_name : Text → Text → Message
  few_open_files no_cpu_seconds loopback_open private_open exposes_root : Text → Message
  relative_read_only duplicate_read_only : Text → Text → Message
  bad_key nul_value forbidden_key : Text → Message
  unknown_process unknown_override unresolved missing_group unknown_group : Text → Message
  parse_error : Text → Message

-- `Error`, and a panic, here of an index out of bounds.
pub data Error : Type 0 where
  policy_read : Text → Text → Error
  policy_invalid : Text → Message → Error
  resolution : Message → Error
  panicked : Error
