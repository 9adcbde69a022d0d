-- ===== src/Host/Layout.antt =====
-- Where a shard's files and its jail are, and what they are called, of
-- cert/beamscale-critical-section/infra-runtime-host/src/lib.rs.
use rust_app.Prelude.{ℕ, zero, suc, ◌+◌, ◌-◌, ◌/◌, ◌%◌, List, [], ◌∷◌, ◌++◌, ltb, if◌then◌else◌}
use rust_app.Prelude.Text.{Text, bytes}
use rust_app.Host.Types.{ExecutionClass, ShardRecord, HostConfig}
use rust_app.Host.Path.{join, decimal, sanitize}

unfoldable pub execution_class_name : ExecutionClass → Text
execution_class_name ExecutionClass.faas = bytes "faas"
execution_class_name ExecutionClass.phoenix = bytes "phoenix"
execution_class_name ExecutionClass.durable_actor = bytes "durable_actor"

-- `root/<class>/<tenant>/<shard>/<epoch>`, of `RuntimePaths::new` and of `cgroup_path`.
abbrev pub record_path : Text → ShardRecord → Text
record_path root r =
    join
      (join
        (join (join root (execution_class_name r.key.execution_class)) (sanitize r.key.tenant_id))
        (sanitize r.key.shard_id))
      (decimal r.runtime_epoch)

pub record RuntimePaths : Type 0 where
  pub dir : Text
  pub snapshot_state : Text
  pub snapshot_mem : Text

unfoldable pub runtime_paths : Text → ShardRecord → RuntimePaths
runtime_paths root r = record {
  dir = record_path root r;
  snapshot_state = join (record_path root r) (bytes "vm.state");
  snapshot_mem = join (record_path root r) (bytes "vm.mem");
}

unfoldable pub cgroup_path : HostConfig → ShardRecord → Text
cgroup_path config r = record_path config.cgroup_root r

unfoldable pub guest_boot_args : HostConfig → ShardRecord → Text
guest_boot_args config r =
    config.boot_args
    ++ (bytes " bmscl.execution_class="
        ++ (execution_class_name r.key.execution_class
            ++ (bytes " bmscl.execution_backend=firecracker bmscl.tenant_id="
                ++ (r.key.tenant_id
                    ++ (bytes " bmscl.runtime_epoch=" ++ decimal r.runtime_epoch)))))

pub record JailedRuntime : Type 0 where
  pub pid : ℕ
  pub id : Text
  pub instance_dir : Text
  pub root : Text
  pub api_socket : Text
  pub vsock_path : Text
  pub kernel : Text
  pub rootfs : Text
  pub snapshot_state : Text
  pub snapshot_mem : Text
  pub netns_name : Text
  pub netns_path : Text

unfoldable pub hex_digit : ℕ → ℕ
hex_digit d = if ltb d 10 then b'0' + d else b'a' + (d - 10)

-- `format!("{byte:02x}")` of the first bytes.
unfoldable pub hex_bytes : ℕ → List ℕ → Text
hex_bytes zero l = []
hex_bytes (suc n) [] = []
hex_bytes (suc n) (x ∷ l) = hex_digit (x / 16) ∷ hex_digit (x % 16) ∷ hex_bytes n l
