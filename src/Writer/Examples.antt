-- ===== src/Writer/Examples.antt =====
-- The theorem on the writer at one shard, and what the writer refuses.
use rust_app.Prelude.{◌≡◌, ◌*◌, ◌&&◌, refl, true, false, none, some, [], ◌∷◌}
use rust_app.Prelude.Lists.{length}
use rust_app.Prelude.Text.{bytes, text_eq, starts_with}
use rust_app.Prelude.Result.{err}
use rust_app.Host.Types.{
  Result, ShardKey, ShardRecord, HostConfig, BackendKind, RuntimePolicy, cold, phoenix,
}
use rust_app.Host.System.{Env, done}
use rust_app.Prelude.Utf8.{is_utf8}
use rust_app.Host.Path.{join, decimal, sanitize}
use rust_app.Host.Layout.{execution_class_name, cgroup_path}
use rust_app.Writer.{args_panic, set_flag, read_flags, parse_args, is_required, unknown_argument}

-- An environment that lets everything succeed.
abbrev quiet : Env
quiet = record {
  clock = λ h. length h * 10;
  flag = λ _. true;
  outcome = λ _. done tt;
  path = λ _. done (bytes "/bin/ip");
  metadata = λ _. done (record { is_symlink = false; is_file = true; mode = 0o644 });
  text = λ _. done (bytes "HTTP/1.1 204 No Content");
  exit = λ _. done true;
  child = λ _. done (some 42);
  sha256 = λ _. 18 ∷ 171 ∷ [];
  json = λ _. bytes "{}";
}

abbrev host_config : HostConfig
host_config = record {
  backend = BackendKind.mock;
  firecracker_bin = bytes "/bin/firecracker";
  jailer_bin = bytes "/bin/jailer";
  jailer_chroot_base = bytes "/srv/jailer";
  jailer_uid = 65534;
  jailer_gid = 65534;
  ip_bin = bytes "/bin/ip";
  netns_root = bytes "/run/netns";
  kernel_image = bytes "/opt/vmlinux";
  rootfs_image = bytes "/opt/rootfs.ext4";
  runtime_dir = bytes "/var/runtime";
  cgroup_root = bytes "/sys/cgroup";
  identity_root = bytes "/run/identities";
  identity_writer_bin = bytes "/bin/writer";
  vmm_overhead_mib = 96;
  boot_args = bytes "console=ttyS0";
  api_socket_timeout_ms = 5000;
}

abbrev small_policy : RuntimePolicy
small_policy = record {
  vcpu_count = 1;
  memory_mib = 128;
  snapshot_enabled = false;
  warm_idle_ms = 10000;
  hibernate_after_ms = 60000;
  destroy_after_ms = 900000;
}

abbrev own_key : ShardKey
own_key = record { execution_class = phoenix; tenant_id = bytes "t1"; shard_id = bytes "s1" }

abbrev shard : ShardRecord
shard = record {
  key = own_key;
  runtime_epoch = 3;
  deployment_digest = bytes "00";
  user_id = bytes "u1";
  root_deployment_id = bytes "d1";
  state = cold;
  policy = small_policy;
  active_invocations = 2;
  last_active_unix_ms = 0;
  process_pid = none;
  api_socket = none;
  vsock_path = none;
  last_error = none;
  request_count = 5;
  ingress_bytes = 0;
  egress_bytes = 0;
  memory_byte_ms = 0;
  last_meter_unix_ms = 0;
}

roots_are_text :
    (is_utf8 host_config.cgroup_root
      && is_utf8 (cgroup_path host_config shard)
      && is_utf8 host_config.identity_root)
    ≡ true
unfolding is_utf8 cgroup_path join starts_with decimal sanitize execution_class_name
roots_are_text = refl

not_text : parse_args (bytes "--cgroup-root" ∷ (255 ∷ []) ∷ []) ≡ err args_panic
unfolding parse_args read_flags is_utf8
not_text = refl

no_user :
    parse_args (bytes "--cgroup-path" ∷ bytes "/c" ∷ []) ≡ err (is_required (bytes "--user-id"))
unfolding parse_args read_flags set_flag text_eq is_utf8
no_user = refl

other_flag : parse_args (bytes "--user" ∷ bytes "u1" ∷ []) ≡ err (unknown_argument (bytes "--user"))
unfolding parse_args read_flags set_flag text_eq is_utf8
other_flag = refl
