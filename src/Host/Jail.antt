-- ===== src/Host/Jail.antt =====
-- The jail of a virtual machine: its network namespace, its control group, its identity and its
-- process, of cert/beamscale-critical-section/infra-runtime-host/src/lib.rs.
use rust_app.Prelude.{
  ℕ, ◌+◌, true, false, not, ◌||◌, Option, none, some, List, [], ◌∷◌, ◌++◌, if◌then◌else◌,
}
use rust_app.Prelude.Text.{Text, bytes}
use rust_app.Prelude.Utf8.{is_utf8}
use rust_app.Host.Types.{
  ShardRecord, HostConfig, firecracker, cgroup, identity, io, not_found, other, Result, ok, err,
  bin_file_name, bin_relative, paths_relative, spawn_jailer, no_pid, resolve_ip, create_netns,
  create_netns_status, delete_netns, delete_netns_status, cgroup_create, launch_writer,
  writer_failed,
}
use rust_app.Host.System.{
  Command, Call, Reply, done, failed, Env, Io, pure, raise, ask, or_raise, skip, guard, ignore,
  ◌>>=◌, ◌>>◌, lift,
}
use rust_app.Host.Files.{
  require_file, copy_file_readonly, prepare_jailer_writable_dir, write_cgroup, io_call,
  saturating_mul,
}
use rust_app.Host.Path.{is_absolute, join, file_name, decimal}
use rust_app.Host.Layout.{
  execution_class_name, RuntimePaths, cgroup_path, JailedRuntime, hex_digit, hex_bytes,
}

abbrev ip_env : HostConfig → List (Text × Text)
ip_env config = (bytes "IP_NETNS_DIR", config.netns_root) ∷ []

module _ (env : Env) (config : HostConfig) where
  ip_netns : Text → Text → Command
  ip_netns verb name = record {
    program = config.ip_bin;
    env = ip_env config;
    args = bytes "netns" ∷ verb ∷ name ∷ [];
  }

  pub delete_network_namespace : JailedRuntime → Io (Unit {0})
  unfolding ip_netns
  delete_network_namespace jailed = do
    there ← ask (Call.exists jailed.netns_path) env.flag
    elim there [
      | false ↦ skip
      | true ↦ do
        run ← ask (Call.status (ip_netns (bytes "delete") jailed.netns_name)) env.exit
        success ← or_raise (firecracker (delete_netns jailed.netns_name)) run
        guard success (firecracker (delete_netns_status jailed.netns_name))
    ]

  prepare_network_namespace : JailedRuntime → Io (Unit {0})
  unfolding ip_netns delete_network_namespace
  prepare_network_namespace jailed = do
    resolved ← ask (Call.canonicalize config.ip_bin) env.path
    ip_bin ← or_raise (firecracker (resolve_ip config.ip_bin)) resolved
    require_file env ip_bin
    io_call env (Call.create_dir_all config.netns_root)
    there ← ask (Call.exists jailed.netns_path) env.flag
    elim there [ true ↦ delete_network_namespace jailed | false ↦ skip ]
    run ←
        ask
          (Call.status (record {
            program = ip_bin;
            env = ip_env config;
            args = bytes "netns" ∷ bytes "add" ∷ jailed.netns_name ∷ [];
          }))
          env.exit
    success ← or_raise (firecracker (create_netns jailed.netns_name)) run
    guard success (firecracker (create_netns_status jailed.netns_name))

  -- `jail_result.and(netns_result)`: both removals are tried, and the first error is returned.
  unfoldable pub cleanup_jail : JailedRuntime → Io (Unit {0})
  cleanup_jail jailed = do
    removed ← ask (Call.remove_dir_all jailed.instance_dir) env.outcome
    elim removed [
      | done _ ↦ delete_network_namespace jailed
      | failed not_found ↦ delete_network_namespace jailed
      | failed other ↦ do ignore (delete_network_namespace jailed); raise (io other)
    ]

  jailer_id : ShardRecord → Text
  unfolding execution_class_name hex_bytes hex_digit
  jailer_id r =
      bytes "bmscl-"
      ++ hex_bytes 16 (
          env.sha256 (
            execution_class_name r.key.execution_class
            ++ (0 ∷ (r.key.tenant_id ++ (0 ∷ (r.key.shard_id ++ (0 ∷ decimal r.runtime_epoch)))))))

  -- `JailedRuntime::for_record`, of the executable's name and of the id.
  jailed_at : Text → Text → ℕ → JailedRuntime
  jailed_at exec_name id pid =
      let instance_dir = join (join config.jailer_chroot_base exec_name) id in
      let root = join instance_dir (bytes "root") in
      record {
        pid = pid;
        id = id;
        instance_dir = instance_dir;
        root = root;
        api_socket = join root (bytes "api.socket");
        vsock_path = join root (bytes "control.vsock");
        kernel = join root (bytes "vmlinux");
        rootfs = join root (bytes "rootfs.ext4");
        snapshot_state = join (join root (bytes "snapshot")) (bytes "vm.state");
        snapshot_mem = join (join root (bytes "snapshot")) (bytes "vm.mem");
        netns_name = id;
        netns_path = join config.netns_root id;
      }

  unfoldable pub for_record : ShardRecord → ℕ → Result JailedRuntime
  unfolding jailed_at jailer_id
  for_record r pid = elim (file_name config.firecracker_bin) [
    | none ↦ err (firecracker bin_file_name)
    | some exec_name ↦
        if not (is_utf8 exec_name)
        then err (firecracker bin_file_name)
        else if not (is_absolute config.firecracker_bin)
        then err (firecracker bin_relative)
        else if not (is_absolute config.jailer_bin)
            || not (is_absolute config.jailer_chroot_base)
            || not (is_absolute config.ip_bin)
            || not (is_absolute config.netns_root)
        then err (firecracker paths_relative)
        else ok (jailed_at exec_name (jailer_id r) pid)
  ]

  jailer_command : JailedRuntime → Command
  jailer_command jailed = record {
    program = config.jailer_bin;
    env = [];
    args =
        bytes "--id"
        ∷ jailed.id
        ∷ bytes "--exec-file"
        ∷ config.firecracker_bin
        ∷ bytes "--uid"
        ∷ decimal config.jailer_uid
        ∷ bytes "--gid"
        ∷ decimal config.jailer_gid
        ∷ bytes "--chroot-base-dir"
        ∷ config.jailer_chroot_base
        ∷ bytes "--netns"
        ∷ jailed.netns_path
        ∷ bytes "--cgroup-version"
        ∷ bytes "2"
        ∷ bytes "--new-pid-ns"
        ∷ bytes "--"
        ∷ bytes "--api-sock"
        ∷ bytes "/api.socket"
        ∷ [];
  }

  -- What `spawn` answers. A jailer that does not start takes its namespace with it; the task that
  -- waits for the child in the background makes no call that the host looks at.
  spawned : JailedRuntime → Reply (Option ℕ) → Io JailedRuntime
  unfolding ip_netns
  spawned jailed (failed _) = do
    ask (Call.status (ip_netns (bytes "delete") jailed.netns_name)) env.exit
    raise (firecracker (spawn_jailer config.jailer_bin))
  spawned jailed (done none) = raise (firecracker no_pid)
  spawned jailed (done (some pid)) = pure (record jailed { pid = pid })

  unfoldable pub spawn_firecracker : ShardRecord → Io JailedRuntime
  unfolding for_record jailer_command spawned prepare_network_namespace
  spawn_firecracker r = do
    require_file env config.firecracker_bin
    require_file env config.jailer_bin
    io_call env (Call.create_dir_all config.jailer_chroot_base)
    jailed ← lift (for_record r 0)
    stale ← ask (Call.exists jailed.instance_dir) env.flag
    elim stale [ true ↦ io_call env (Call.remove_dir_all jailed.instance_dir) | false ↦ skip ]
    prepare_network_namespace jailed
    spawned jailed (← ask (Call.spawn (jailer_command jailed)) env.child)

  unfoldable pub stage_guest_boot_files : JailedRuntime → Io (Unit {0})
  stage_guest_boot_files jailed = do
    copy_file_readonly env config.kernel_image jailed.kernel
    copy_file_readonly env config.rootfs_image jailed.rootfs

  unfoldable pub stage_guest_restore_files : RuntimePaths → JailedRuntime → Io (Unit {0})
  stage_guest_restore_files paths jailed = do
    stage_guest_boot_files jailed
    prepare_jailer_writable_dir env (join jailed.root (bytes "snapshot")) config.jailer_uid
        config.jailer_gid
    copy_file_readonly env paths.snapshot_state jailed.snapshot_state
    copy_file_readonly env paths.snapshot_mem jailed.snapshot_mem

  unfoldable pub prepare_cgroup : ShardRecord → ℕ → Io (Unit {0})
  unfolding cgroup_path
  prepare_cgroup r pid = do
    let path = cgroup_path config r
    made ← ask (Call.create_dir_all path) env.outcome
    or_raise (cgroup (cgroup_create path)) made
    write_cgroup env path (bytes "memory.max")
        (decimal (saturating_mul (r.policy.memory_mib + config.vmm_overhead_mib) 1048576))
    write_cgroup env path (bytes "cpu.max")
        (decimal (saturating_mul r.policy.vcpu_count 100000) ++ bytes " 100000")
    write_cgroup env path (bytes "pids.max") (bytes "256")
    write_cgroup env path (bytes "cgroup.procs") (decimal pid)

  unfoldable pub writer_command : ShardRecord → Command
  unfolding cgroup_path
  writer_command r = record {
    program = config.identity_writer_bin;
    env = [];
    args =
        bytes "--cgroup-root"
        ∷ config.cgroup_root
        ∷ bytes "--cgroup-path"
        ∷ cgroup_path config r
        ∷ bytes "--identity-root"
        ∷ config.identity_root
        ∷ bytes "--user-id"
        ∷ r.user_id
        ∷ bytes "--tenant-id"
        ∷ r.key.tenant_id
        ∷ bytes "--deployment-id"
        ∷ r.root_deployment_id
        ∷ [];
  }

  unfoldable pub publish_runtime_identity : ShardRecord → Io (Unit {0})
  unfolding writer_command
  publish_runtime_identity r = do
    run ← ask (Call.output (writer_command r)) env.exit
    success ← or_raise (identity (launch_writer config.identity_writer_bin)) run
    guard success (identity (writer_failed config.identity_writer_bin))
