-- ===== src/Host/Config.antt =====
-- The configuration that the runtime host reads from its process's variables: `HostConfig::from_env`
-- and `select_backend` of cert/beamscale-critical-section/infra-runtime-host/src/lib.rs.
use rust_app.Prelude.{Bool, false, ◌&&◌, Option, none, some, if◌then◌else◌}
use rust_app.Prelude.Text.{Text, bytes, text_eq}
use rust_app.Host.Types.{HostConfig, BackendKind}
use rust_app.Host.Path.{parse_u32, parse_u64}

-- The variables, as `var_os` reads them, and which texts are UTF-8.
pub record Variables : Type 0 where
  pub var_os : Text → Option Text
  pub is_utf8 : Text → Bool

abbrev pub unwrap_or {ℓ} : {A : Type ℓ} → Option A → A → A
unwrap_or none d = d
unwrap_or (some x) d = x

abbrev pub and_then {ℓ} : {A B : Type ℓ} → Option A → (A → Option B) → Option B
and_then none k = none
and_then (some x) k = k x

-- `env::var(name).ok()`: a variable that is not UTF-8 counts as missing.
unfoldable pub var : Variables → Text → Option Text
var v name = and_then (v.var_os name) λ x. if v.is_utf8 x then some x else none

unfoldable pub select_backend : Text → Bool → BackendKind
select_backend requested allow_mock =
    if text_eq requested (bytes "mock") && allow_mock
    then BackendKind.mock
    else BackendKind.firecracker

-- `as_deref() == Ok("1")`.
unfoldable pub is_one : Option Text → Bool
is_one none = false
is_one (some x) = text_eq x (bytes "1")

unfoldable pub from_env : Variables → HostConfig
unfolding var select_backend is_one parse_u32 parse_u64
from_env v = record {
  backend =
      select_backend (unwrap_or (var v (bytes "BMSCL_RUNTIME_BACKEND")) (bytes "firecracker"))
        (is_one (var v (bytes "BMSCL_ALLOW_MOCK_BACKEND")));
  firecracker_bin =
      unwrap_or (v.var_os (bytes "BMSCL_FIRECRACKER_BIN")) (bytes "/usr/local/bin/firecracker");
  jailer_bin = unwrap_or (v.var_os (bytes "BMSCL_JAILER_BIN")) (bytes "/usr/local/bin/jailer");
  jailer_chroot_base =
      unwrap_or (v.var_os (bytes "BMSCL_JAILER_CHROOT_BASE")) (bytes "/srv/jailer");
  jailer_uid = unwrap_or (and_then (var v (bytes "BMSCL_JAILER_UID")) parse_u32) 65534;
  jailer_gid = unwrap_or (and_then (var v (bytes "BMSCL_JAILER_GID")) parse_u32) 65534;
  ip_bin = unwrap_or (v.var_os (bytes "BMSCL_IP_BIN")) (bytes "/run/current-system/sw/bin/ip");
  netns_root = unwrap_or (v.var_os (bytes "BMSCL_NETNS_ROOT")) (bytes "/var/run/netns");
  kernel_image =
      unwrap_or (v.var_os (bytes "BMSCL_GUEST_KERNEL_IMAGE"))
        (bytes "/opt/beamscale/guest/vmlinux");
  rootfs_image =
      unwrap_or (v.var_os (bytes "BMSCL_GUEST_ROOTFS_IMAGE"))
        (bytes "/opt/beamscale/guest/rootfs.ext4");
  runtime_dir =
      unwrap_or (v.var_os (bytes "BMSCL_RUNTIME_DIR")) (bytes "/var/lib/beamscale/runtime");
  cgroup_root = unwrap_or (v.var_os (bytes "BMSCL_CGROUP_ROOT")) (bytes "/sys/fs/cgroup/beamscale");
  identity_root =
      unwrap_or (v.var_os (bytes "BMSCL_RUNTIME_IDENTITY_ROOT"))
        (bytes "/run/bmscl/runtime-identities");
  identity_writer_bin =
      unwrap_or (v.var_os (bytes "BMSCL_RUNTIME_IDENTITY_WRITER"))
        (bytes "/usr/local/bin/bmscl-runtime-identity-writer");
  vmm_overhead_mib = unwrap_or (and_then (var v (bytes "BMSCL_VMM_OVERHEAD_MIB")) parse_u32) 96;
  boot_args =
      unwrap_or (var v (bytes "BMSCL_GUEST_BOOT_ARGS"))
        (bytes "console=ttyS0 reboot=k panic=1 pci=off");
  api_socket_timeout_ms =
      unwrap_or (and_then (var v (bytes "BMSCL_FIRECRACKER_API_TIMEOUT_MS")) parse_u64) 5000;
}
