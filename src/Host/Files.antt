-- ===== src/Host/Files.antt =====
-- Files, processes and sockets as the runtime host uses them: `require_file`, `terminate_pid`,
-- `copy_file_readonly`, `wait_for_socket` and the like, of
-- cert/beamscale-critical-section/infra-runtime-host/src/lib.rs.
use rust_app.Prelude.{
  min, u64_max, ◌*◌, ℕ, zero, suc, ◌+◌, ◌/◌, ◌%◌, Bool, true, false, not, ◌&&◌, ◌||◌, [], ◌∷◌, leb,
  nat_eq,
}
use rust_app.Prelude.Text.{Text, bytes}
use rust_app.Host.Types.{
  firecracker, cgroup, io, socket_timeout, not_found, other, required_file, not_regular,
  writable_file, interior_nul, chown_failed, kill_status, cgroup_write,
}
use rust_app.Host.System.{
  Command, Call, done, failed, Env, Io, raise, ask, or_io, or_raise, skip, guard, ◌>>=◌, ◌>>◌,
}
use rust_app.Host.Path.{join, parent, decimal}

abbrev pub kill_command : ℕ → Command
kill_command pid = record {
  program = bytes "kill";
  env = [];
  args = bytes "-TERM" ∷ decimal pid ∷ [];
}

-- The bit mask `mode & 0o022`: the write bits of the group and of the others.
abbrev shared_write : ℕ → Bool
shared_write mode = nat_eq (mode / 16 % 2) 1 || nat_eq (mode / 2 % 2) 1

abbrev contains_nul : Text → Bool
contains_nul [] = false
contains_nul (c ∷ p) = nat_eq c 0 || contains_nul p

-- `saturating_mul` on `u64`.
abbrev pub saturating_mul : ℕ → ℕ → ℕ
saturating_mul x y = min (x * y) u64_max

module _ (env : Env) where
  abbrev pub io_call : Call → Io (Unit {0})
  io_call c = ask c env.outcome >>= or_io

  unfoldable pub require_file : Text → Io (Unit {0})
  require_file path = do
    meta ← ask (Call.symlink_metadata path) env.metadata
    m ← or_raise (firecracker (required_file path)) meta
    guard (not m.is_symlink && m.is_file) (firecracker (not_regular path))
    guard (not (shared_write m.mode)) (firecracker (writable_file path))

  unfoldable pub terminate_pid : ℕ → Io (Unit {0})
  terminate_pid pid = do
    success ← ask (Call.status (kill_command pid)) env.exit
    stopped ← or_io success
    guard stopped (firecracker (kill_status pid))

  unfoldable pub copy_file_readonly : Text → Text → Io (Unit {0})
  copy_file_readonly source destination = do
    io_call (Call.create_dir_all (parent destination))
    removed ← ask (Call.remove_file destination) env.outcome
    elim removed [ done _ ↦ skip | failed not_found ↦ skip | failed other ↦ raise (io other) ]
    io_call (Call.copy source destination)
    io_call (Call.set_permissions destination 0o444)

  unfoldable pub prepare_jailer_writable_dir : Text → ℕ → ℕ → Io (Unit {0})
  prepare_jailer_writable_dir path uid gid = do
    io_call (Call.create_dir_all path)
    io_call (Call.set_permissions path 0o700)
    guard (not (contains_nul path)) (firecracker (interior_nul path))
    owned ← ask (Call.chown path uid gid) env.outcome
    or_raise (firecracker (chown_failed path)) owned

  -- The loop of `wait_for_socket`, over the rounds that are left.
  unfoldable pub wait_rounds : ℕ → Text → ℕ → Io (Unit {0})
  wait_rounds zero path deadline = raise (firecracker (socket_timeout path))
  wait_rounds (suc fuel) path deadline = do
    there ← ask (Call.exists path) env.flag
    elim there [
      | true ↦ skip
      | false ↦ do
        now ← ask Call.instant env.clock
        elim (leb deadline now) [
          | true ↦ raise (firecracker (socket_timeout path))
          | false ↦ do ask (Call.sleep 25) env.clock; wait_rounds fuel path deadline
        ]
    ]

  -- A round that does not end the loop sleeps for 25 ms, so `timeout_ms / 25 + 2` rounds are
  -- enough where the clock advances with the sleep.
  unfoldable pub wait_for_socket : Text → ℕ → Io (Unit {0})
  unfolding wait_rounds
  wait_for_socket path timeout_ms = do
    now ← ask Call.instant env.clock
    wait_rounds (timeout_ms / 25 + 2) path (now + timeout_ms)

  unfoldable pub write_cgroup : Text → Text → Text → Io (Unit {0})
  write_cgroup path name value = do
    written ← ask (Call.write (join path name) value) env.outcome
    or_raise (cgroup (cgroup_write (join path name))) written
