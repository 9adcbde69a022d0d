-- ===== src/Writer.antt =====
-- The identity writer that the runtime host starts for each machine,
-- cert/beamscale-critical-section/infra-runtime-host/src/bin/bmscl-runtime-identity-writer.rs: its
-- arguments and the checks of the subjects.
pub mod Subjects
mod Examples
use rust_app.Prelude.{
  ℕ, Bool, true, false, not, ◌&&◌, ◌||◌, Option, none, some, List, [], ◌∷◌, ltb, leb, nat_eq,
  if◌then◌else◌,
}
use rust_app.Prelude.Lists.{length, all, is_empty}
use rust_app.Prelude.Text.{Text, bytes, text_eq}
use rust_app.Prelude.Utf8.{is_utf8}
use rust_app.Prelude.Result.{Result, ok, err, ◌>>=◌, ◌>>◌, reject_if}
use rust_app.Host.Path.{is_alphanumeric}

abbrev pub default_cgroup_root : Text
default_cgroup_root = bytes "/sys/fs/cgroup/beamscale"

abbrev pub default_identity_root : Text
default_identity_root = bytes "/run/bmscl/runtime-identities"

pub record Args : Type 0 where
  pub cgroup_root : Text
  pub cgroup_path : Text
  pub identity_root : Text
  pub expected_runtime_id : Option Text
  pub user_id : Text
  pub tenant_id : Text
  pub deployment_id : Text
  pub invocation_id : Option Text

-- The texts of the errors, with what they are about; and the panic of `env::args()` on an argument
-- that is not UTF-8, when it comes to it.
pub data Message : Type 0 where
  requires_value unknown_argument is_required subject_shape : Text → Message
  runtime_id_shape args_panic : Message

-- The variables of the loop of `parse_args`.
pub record Flags : Type 0 where
  pub cgroup_root : Text
  pub cgroup_path : Option Text
  pub identity_root : Text
  pub expected_runtime_id : Option Text
  pub user_id : Option Text
  pub tenant_id : Option Text
  pub deployment_id : Option Text
  pub invocation_id : Option Text

abbrev pub no_flags : Flags
no_flags = record {
  cgroup_root = default_cgroup_root;
  cgroup_path = none;
  identity_root = default_identity_root;
  expected_runtime_id = none;
  user_id = none;
  tenant_id = none;
  deployment_id = none;
  invocation_id = none;
}

-- The `match` on a flag.
unfoldable pub set_flag : Text → Text → Flags → Result Message Flags
set_flag flag value f =
    if text_eq flag (bytes "--cgroup-root")
    then ok (record f { cgroup_root = value })
    else if text_eq flag (bytes "--cgroup-path")
    then ok (record f { cgroup_path = some value })
    else if text_eq flag (bytes "--identity-root")
    then ok (record f { identity_root = value })
    else if text_eq flag (bytes "--runtime-id")
    then ok (record f { expected_runtime_id = some value })
    else if text_eq flag (bytes "--user-id")
    then ok (record f { user_id = some value })
    else if text_eq flag (bytes "--tenant-id")
    then ok (record f { tenant_id = some value })
    else if text_eq flag (bytes "--deployment-id")
    then ok (record f { deployment_id = some value })
    else if text_eq flag (bytes "--invocation-id")
    then ok (record f { invocation_id = some value })
    else err (unknown_argument flag)

-- The loop of `parse_args`, on the arguments as the system passes them.
unfoldable pub read_flags : List Text → Flags → Result Message Flags
unfolding set_flag
read_flags [] f = ok f
read_flags (flag ∷ []) f = if is_utf8 flag then err (requires_value flag) else err args_panic
read_flags (flag ∷ value ∷ args) f =
    reject_if (not (is_utf8 flag) || not (is_utf8 value)) args_panic
    >> (set_flag flag value f >>= read_flags args)

abbrev pub need : Text → Option Text → Result Message Text
need flag none = err (is_required flag)
need flag (some value) = ok value

unfoldable pub parse_args : List Text → Result Message Args
unfolding read_flags
parse_args args = do
  f ← read_flags args no_flags
  cgroup_path ← need (bytes "--cgroup-path") f.cgroup_path
  user_id ← need (bytes "--user-id") f.user_id
  tenant_id ← need (bytes "--tenant-id") f.tenant_id
  deployment_id ← need (bytes "--deployment-id") f.deployment_id
  ok (record {
    cgroup_root = f.cgroup_root;
    cgroup_path = cgroup_path;
    identity_root = f.identity_root;
    expected_runtime_id = f.expected_runtime_id;
    user_id = user_id;
    tenant_id = tenant_id;
    deployment_id = deployment_id;
    invocation_id = f.invocation_id;
  })

abbrev pub is_runtime_id_byte : ℕ → Bool
is_runtime_id_byte b = is_alphanumeric b || nat_eq b b'.' || nat_eq b b'_' || nat_eq b b'-'

unfoldable pub validate_runtime_id : Text → Result Message (Unit {0})
validate_runtime_id value =
    reject_if (is_empty value || ltb 128 (length value) || not (all is_runtime_id_byte value))
      runtime_id_shape

-- `is_ascii_graphic`.
abbrev pub is_graphic : ℕ → Bool
is_graphic b = leb b'!' b && leb b b'~'

unfoldable pub validate_subject : Text → Text → Result Message (Unit {0})
validate_subject label value =
    reject_if (is_empty value || ltb 256 (length value) || not (all is_graphic value))
      (subject_shape label)

abbrev pub validate_invocation : Option Text → Result Message (Unit {0})
unfolding validate_subject
validate_invocation none = ok tt
validate_invocation (some id) = validate_subject (bytes "invocation_id") id

-- `run` up to its first look at the file system.
unfoldable pub checked_args : List Text → Result Message Args
unfolding parse_args validate_subject
checked_args args = do
  parsed ← parse_args args
  validate_subject (bytes "user_id") parsed.user_id
  validate_subject (bytes "tenant_id") parsed.tenant_id
  validate_subject (bytes "deployment_id") parsed.deployment_id
  validate_invocation parsed.invocation_id
  ok parsed
