-- ===== src/Host/Metering.antt =====
-- Metering: `read_cgroup_metering` and `RuntimeHost::metering` of
-- cert/beamscale-critical-section/infra-runtime-host/src/lib.rs. The lock is held throughout.
use rust_app.Prelude.{ℕ, ◌-◌, ◌*◌, min, Option, none, some, List, [], ◌∷◌, u128_max, if◌then◌else◌}
use rust_app.Prelude.Text.{Text, bytes, text_eq}
use rust_app.Host.Types.{
  ShardKey, ShardRecord, MeteringSample, BackendKind, ExecutionBackend, ExecutionClass, HostConfig,
  HostError, cgroup, cpu_stat_read, cpu_stat_missing, memory_read, memory_parse,
}
use rust_app.Host.System
use rust_app.Host.System.{Call, Env, Io}
use rust_app.Host.Path.{join, parse_u64}
use rust_app.Host.Words.{split_whitespace, lines, trim}
use rust_app.Host.Files.{saturating_mul}
use rust_app.Host.Layout.{cgroup_path}
use rust_app.Host.State.{Action, pure, ◌>>=◌, ◌>>◌, with_record, set_record, now_ms, outside}
use rust_app.Host.Sections.{saturating_add128}

-- `saturating_mul` on `u128`.
abbrev pub saturating_mul128 : ℕ → ℕ → ℕ
saturating_mul128 x y = min (x * y) u128_max

-- The value of a line `usage_usec <n>`.
usage_of : List Text → Option ℕ
usage_of (name ∷ value ∷ rest) = if text_eq name (bytes "usage_usec") then parse_u64 value else none
usage_of _ = none

-- `find_map` over the lines.
find_usage : List Text → Option ℕ
unfolding usage_of
find_usage [] = none
find_usage (line ∷ rest) = elim (usage_of (split_whitespace line)) [
  | some n ↦ some n
  | none ↦ find_usage rest
]

option_or_raise : {A : Type 0} → HostError → Option A → Io A
option_or_raise e none = System.raise e
option_or_raise e (some x) = System.pure x

-- The two files of the control group, in the order of the source: the CPU time in nanoseconds,
-- and the memory.
unfoldable pub read_cgroup_metering : Env → HostConfig → ShardRecord → Io (ℕ × ℕ)
unfolding find_usage option_or_raise
read_cgroup_metering env config r h =
    let path = cgroup_path config r in
    System.◌>>=◌ (System.ask (Call.read_to_string (join path (bytes "cpu.stat"))) env.text)
      (λ cpu_reply. System.◌>>=◌ (System.or_raise (cgroup cpu_stat_read) cpu_reply) (λ cpu_stat.
        System.◌>>=◌ (option_or_raise (cgroup cpu_stat_missing) (find_usage (lines cpu_stat)))
          (λ usage_usec.
            System.◌>>=◌
              (System.ask (Call.read_to_string (join path (bytes "memory.current"))) env.text)
              (λ memory_reply.
                System.◌>>=◌ (System.or_raise (cgroup memory_read) memory_reply) (λ memory.
                  System.◌>>=◌ (option_or_raise (cgroup memory_parse) (parse_u64 (trim memory)))
                    (λ memory_current.
                      System.pure (saturating_mul usage_usec 1000, memory_current)))))))
      h

-- The record after a sample at time `now`.
unfoldable pub metered : ℕ → ℕ → ShardRecord → ShardRecord
metered memory now r = record r {
  memory_byte_ms =
      saturating_add128 r.memory_byte_ms (saturating_mul128 memory (now - r.last_meter_unix_ms));
  last_meter_unix_ms = now;
}

sample : ShardRecord → ℕ → ℕ → MeteringSample
sample r cpu memory = record {
  tenant_id = r.key.tenant_id;
  shard_id = r.key.shard_id;
  execution_class = r.key.execution_class;
  execution_backend = ExecutionBackend.firecracker;
  runtime_epoch = r.runtime_epoch;
  request_count = r.request_count;
  cpu_ns = cpu;
  memory_current_bytes = memory;
  memory_byte_ms = r.memory_byte_ms;
  ingress_bytes = r.ingress_bytes;
  egress_bytes = r.egress_bytes;
}

module _ (env : Env) (config : HostConfig) where
  unfoldable pub read_usage : BackendKind → ShardRecord → Action (ℕ × ℕ)
  read_usage BackendKind.mock r = pure (0, 0)
  read_usage BackendKind.firecracker r = outside (read_cgroup_metering env config r)

  unfoldable pub meter_record : ShardKey → ShardRecord → Action MeteringSample
  unfolding sample ◌>>=◌ ◌>>◌
  meter_record key r = do
    (cpu, memory) ← read_usage config.backend r
    now ← now_ms env
    set_record key (metered memory now r)
    pure (sample (metered memory now r) cpu memory)

  unfoldable pub metering : ExecutionClass → Text → Text → Action MeteringSample
  metering execution_class tenant_id shard_id = do
    let key : ShardKey = record {
      execution_class = execution_class;
      tenant_id = tenant_id;
      shard_id = shard_id;
    }
    with_record key λ r. meter_record key r
