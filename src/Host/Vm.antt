-- ===== src/Host/Vm.antt =====
-- Booting, restoring, snapshotting and stopping a virtual machine: the private methods of
-- `RuntimeHost` in cert/beamscale-critical-section/infra-runtime-host/src/lib.rs that make the
-- calls while no lock on the shards is held.
use rust_app.Prelude.{Bool, true, false, Option, none, some}
use rust_app.Prelude.Text.{bytes}
use rust_app.Host.Types.{Result, BackendKind, ShardRecord, HostConfig, RuntimeHandles, ok, err}
use rust_app.Host.System.{
  History, Call, Json, num, str, bool, obj, end, field, Env, Io, pure, lift, ask, skip, ◌>>=◌, ◌>>◌,
}
use rust_app.Host.Path.{join}
use rust_app.Host.Files.{
  require_file, terminate_pid, copy_file_readonly, prepare_jailer_writable_dir, wait_for_socket,
  io_call,
}
use rust_app.Host.Layout.{RuntimePaths, runtime_paths, JailedRuntime, guest_boot_args}
use rust_app.Host.Jail.{
  for_record, spawn_firecracker, cleanup_jail, prepare_cgroup, publish_runtime_identity,
  stage_guest_boot_files, stage_guest_restore_files,
}
use rust_app.Host.Client.{put, patch}

abbrev pub no_handles : RuntimeHandles
no_handles = record { pid = none; api_socket = none; vsock_path = none }

abbrev pub handles : JailedRuntime → RuntimeHandles
handles jailed = record {
  pid = some jailed.pid;
  api_socket = some jailed.api_socket;
  vsock_path = some jailed.vsock_path;
}

-- `Option::unwrap_or`.
abbrev pub or_else {ℓ} : {A : Type ℓ} → Option A → A → A
or_else none d = d
or_else (some x) d = x

machine_config : ShardRecord → Json
machine_config r = obj (
    field (bytes "vcpu_count") (num r.policy.vcpu_count) (
      field (bytes "mem_size_mib") (num r.policy.memory_mib)
        (field (bytes "smt") (bool false) end)))

boot_source : HostConfig → ShardRecord → Json
boot_source config r = obj (
    field (bytes "kernel_image_path") (str (bytes "/vmlinux"))
      (field (bytes "boot_args") (str (guest_boot_args config r)) end))

rootfs_drive : Json
rootfs_drive = obj (
    field (bytes "drive_id") (str (bytes "rootfs")) (
      field (bytes "path_on_host") (str (bytes "/rootfs.ext4")) (
        field (bytes "is_root_device") (bool true) (field (bytes "is_read_only") (bool true) end))))

control_vsock : Json
control_vsock = obj (
    field (bytes "vsock_id") (str (bytes "control")) (
      field (bytes "guest_cid") (num 3)
        (field (bytes "uds_path") (str (bytes "/control.vsock")) end)))

instance_start : Json
instance_start = obj (field (bytes "action_type") (str (bytes "InstanceStart")) end)

snapshot_load : Json
snapshot_load = obj (
    field (bytes "snapshot_path") (str (bytes "/snapshot/vm.state")) (
      field (bytes "mem_backend")
        (obj (
          field (bytes "backend_type") (str (bytes "File"))
            (field (bytes "backend_path") (str (bytes "/snapshot/vm.mem")) end)))
        (field (bytes "track_dirty_pages") (bool true) (
          field (bytes "resume_vm") (bool true) (
            field (bytes "vsock_override")
              (obj (field (bytes "uds_path") (str (bytes "/control.vsock")) end)) end)))))

snapshot_create : Json
snapshot_create = obj (
    field (bytes "snapshot_type") (str (bytes "Full")) (
      field (bytes "snapshot_path") (str (bytes "/snapshot/vm.state"))
        (field (bytes "mem_file_path") (str (bytes "/snapshot/vm.mem")) end)))

paused : Json
paused = obj (field (bytes "state") (str (bytes "Paused")) end)

module _ (env : Env) (config : HostConfig) where
  -- `let _ = terminate_pid(..).await; let _ = cleanup_jail(..).await`, after a failure.
  unfoldable pub rolled : {A : Type 0} → JailedRuntime → Result A × History → Result A × History
  rolled jailed (ok x, h) = (ok x, h)
  rolled jailed (err e, h) =
      (err e, (cleanup_jail env config jailed (terminate_pid env jailed.pid h).1).1)

  -- `if let Err(err) = step.await`: the process is told to end and the jail is removed, whatever
  -- comes of these, and the error is returned.
  unfoldable pub or_roll_back : {A : Type 0} → JailedRuntime → Io A → Io A
  unfolding rolled
  or_roll_back jailed step h = rolled jailed (step h)

  -- The block `configured` of `boot_vm`.
  configure : ShardRecord → JailedRuntime → Io (Unit {0})
  unfolding machine_config boot_source rootfs_drive control_vsock instance_start
  configure r jailed = do
    put env jailed.api_socket (bytes "/machine-config") (machine_config r)
    put env jailed.api_socket (bytes "/boot-source") (boot_source config r)
    put env jailed.api_socket (bytes "/drives/rootfs") rootfs_drive
    put env jailed.api_socket (bytes "/vsock") control_vsock
    put env jailed.api_socket (bytes "/actions") instance_start

  -- `boot_vm`, once the jailer runs.
  unfoldable pub boot_jailed : ShardRecord → JailedRuntime → Io RuntimeHandles
  unfolding configure
  boot_jailed r jailed = do
    or_roll_back jailed (prepare_cgroup env config r jailed.pid)
    or_roll_back jailed (publish_runtime_identity env config r)
    or_roll_back jailed (wait_for_socket env jailed.api_socket config.api_socket_timeout_ms)
    or_roll_back jailed (stage_guest_boot_files env config jailed)
    or_roll_back jailed (configure r jailed)
    pure (handles jailed)

  boot_firecracker : ShardRecord → Io RuntimeHandles
  boot_firecracker r = do
    require_file env config.kernel_image
    require_file env config.rootfs_image
    io_call env (Call.create_dir_all (runtime_paths config.runtime_dir r).dir)
    jailed ← spawn_firecracker env config r
    boot_jailed r jailed

  unfoldable pub boot_vm : ShardRecord → Io RuntimeHandles
  unfolding boot_firecracker
  boot_vm r = elim config.backend [
    | BackendKind.mock ↦ pure no_handles
    | BackendKind.firecracker ↦ boot_firecracker r
  ]

  unfoldable pub restore_jailed : ShardRecord → RuntimePaths → JailedRuntime → Io RuntimeHandles
  unfolding snapshot_load
  restore_jailed r paths jailed = do
    or_roll_back jailed (prepare_cgroup env config r jailed.pid)
    or_roll_back jailed (publish_runtime_identity env config r)
    or_roll_back jailed (wait_for_socket env jailed.api_socket config.api_socket_timeout_ms)
    or_roll_back jailed (stage_guest_restore_files env config paths jailed)
    or_roll_back jailed (put env jailed.api_socket (bytes "/snapshot/load") snapshot_load)
    pure (handles jailed)

  -- `paths.snapshot_state.exists() && paths.snapshot_mem.exists()`.
  unfoldable pub snapshot_has_files : ShardRecord → Io Bool
  snapshot_has_files r = do
    let paths = runtime_paths config.runtime_dir r
    state ← ask (Call.exists paths.snapshot_state) env.flag
    elim state [ false ↦ pure false | true ↦ ask (Call.exists paths.snapshot_mem) env.flag ]

  restore_firecracker : ShardRecord → Io RuntimeHandles
  unfolding snapshot_has_files
  restore_firecracker r = do
    there ← snapshot_has_files r
    elim there [
      | false ↦ boot_vm r
      | true ↦ do
        require_file env config.rootfs_image
        jailed ← spawn_firecracker env config r
        restore_jailed r (runtime_paths config.runtime_dir r) jailed
    ]

  unfoldable pub restore_vm : ShardRecord → Io RuntimeHandles
  unfolding restore_firecracker
  restore_vm r = elim config.backend [
    | BackendKind.mock ↦ pure no_handles
    | BackendKind.firecracker ↦ restore_firecracker r
  ]

  unfoldable pub stop_vm : ShardRecord → Io (Unit {0})
  stop_vm r = elim config.backend [
    | BackendKind.mock ↦ skip
    | BackendKind.firecracker ↦ elim r.process_pid [
      | none ↦ skip
      | some pid ↦ terminate_pid env pid
    ]
  ]

  snapshot_firecracker : ShardRecord → Io (Unit {0})
  unfolding paused snapshot_create
  snapshot_firecracker r = do
    jailed ← lift (for_record env config r (or_else r.process_pid 0))
    let api = or_else r.api_socket jailed.api_socket
    let paths = runtime_paths config.runtime_dir r
    prepare_jailer_writable_dir env (join jailed.root (bytes "snapshot")) config.jailer_uid
        config.jailer_gid
    patch env api (bytes "/vm") paused
    put env api (bytes "/snapshot/create") snapshot_create
    stop_vm r
    io_call env (Call.create_dir_all paths.dir)
    copy_file_readonly env jailed.snapshot_state paths.snapshot_state
    copy_file_readonly env jailed.snapshot_mem paths.snapshot_mem
    cleanup_jail env config jailed

  unfoldable pub snapshot_and_stop : ShardRecord → Io (Unit {0})
  unfolding snapshot_firecracker
  snapshot_and_stop r = elim config.backend [
    | BackendKind.mock ↦ skip
    | BackendKind.firecracker ↦ snapshot_firecracker r
  ]

  cleanup_firecracker : ShardRecord → Io (Unit {0})
  cleanup_firecracker r = do
    jailed ← lift (for_record env config r 0)
    cleanup_jail env config jailed

  unfoldable pub cleanup_terminated_jail : ShardRecord → Io (Unit {0})
  unfolding cleanup_firecracker
  cleanup_terminated_jail r = elim config.backend [
    | BackendKind.mock ↦ skip
    | BackendKind.firecracker ↦ cleanup_firecracker r
  ]
