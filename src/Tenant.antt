-- ===== src/Tenant.antt =====
-- The tenant runtime of the context ABI, the second half of
-- certification/beamscale-context-abi/rust/src/lib.rs: the states of a runtime, the policy for
-- production and the metering samples.
pub mod Laws
mod Examples
use rust_app.Prelude.{
  ℕ, ◌+◌, min, Bool, true, false, not, ◌||◌, ltb, leb, nat_eq, if◌then◌else◌, u64_max, u128_max,
}
use rust_app.Prelude.Text.{Text, bytes, text_eq}

pub data TenantIsolation : Type 0 where
  micro_vm linux_container : TenantIsolation

pub data MicroVmBackend : Type 0 where
  firecracker cloud_hypervisor : MicroVmBackend

pub data TenantRuntimeState : Type 0 where
  cold starting hot warm_idle hibernated draining terminated : TenantRuntimeState

abbrev pub can_transition_to : TenantRuntimeState → TenantRuntimeState → Bool
can_transition_to cold starting = true
can_transition_to starting hot = true
can_transition_to starting terminated = true
can_transition_to hot warm_idle = true
can_transition_to hot draining = true
can_transition_to warm_idle hot = true
can_transition_to warm_idle hibernated = true
can_transition_to warm_idle draining = true
can_transition_to hibernated starting = true
can_transition_to hibernated terminated = true
can_transition_to draining terminated = true
can_transition_to terminated cold = true
can_transition_to _ _ = false

pub record TenantRuntimePolicy : Type 0 where
  pub policy_version : Text
  pub isolation : TenantIsolation
  pub microvm_backend : MicroVmBackend
  pub vcpu_count : ℕ
  pub min_memory_bytes : ℕ
  pub max_memory_bytes : ℕ
  pub warm_idle_ms : ℕ
  pub hibernate_after_ms : ℕ
  pub destroy_after_ms : ℕ
  pub allow_snapshot_restore : Bool

abbrev pub tenant_runtime_policy_v1 : Text
tenant_runtime_policy_v1 = bytes "bmscl-tenant-runtime-v1"

abbrev pub default_microvm_backend : MicroVmBackend
default_microvm_backend = firecracker

abbrev pub default_policy : TenantRuntimePolicy
default_policy = record {
  policy_version = tenant_runtime_policy_v1;
  isolation = micro_vm;
  microvm_backend = firecracker;
  vcpu_count = 1;
  min_memory_bytes = 134217728;
  max_memory_bytes = 1073741824;
  warm_idle_ms = 10000;
  hibernate_after_ms = 60000;
  destroy_after_ms = 900000;
  allow_snapshot_restore = true;
}

pub data TenantRuntimePolicyError : Type 0 where
  version isolation cpu memory lifecycle : TenantRuntimePolicyError

pub data Verdict : Type 0 where
  valid : Verdict
  invalid : TenantRuntimePolicyError → Verdict

abbrev pub is_micro_vm : TenantIsolation → Bool
is_micro_vm micro_vm = true
is_micro_vm linux_container = false

unfoldable pub validate_production : TenantRuntimePolicy → Verdict
validate_production p =
    if not (text_eq p.policy_version tenant_runtime_policy_v1)
    then invalid TenantRuntimePolicyError.version
    else if not (is_micro_vm p.isolation)
    then invalid TenantRuntimePolicyError.isolation
    else if nat_eq p.vcpu_count 0
    then invalid TenantRuntimePolicyError.cpu
    else if ltb p.min_memory_bytes 67108864 || ltb p.max_memory_bytes p.min_memory_bytes
    then invalid TenantRuntimePolicyError.memory
    else if nat_eq p.warm_idle_ms 0
        || leb p.hibernate_after_ms p.warm_idle_ms
        || leb p.destroy_after_ms p.hibernate_after_ms
    then invalid TenantRuntimePolicyError.lifecycle
    else valid

pub record MeteringSample : Type 0 where
  pub request_count : ℕ
  pub cpu_ns : ℕ
  pub memory_byte_ms : ℕ
  pub ingress_bytes : ℕ
  pub egress_bytes : ℕ
  pub durable_storage_byte_ms : ℕ

unfoldable pub merge : MeteringSample → MeteringSample → MeteringSample
merge s other = record {
  request_count = min (s.request_count + other.request_count) u64_max;
  cpu_ns = min (s.cpu_ns + other.cpu_ns) u64_max;
  memory_byte_ms = min (s.memory_byte_ms + other.memory_byte_ms) u128_max;
  ingress_bytes = min (s.ingress_bytes + other.ingress_bytes) u64_max;
  egress_bytes = min (s.egress_bytes + other.egress_bytes) u64_max;
  durable_storage_byte_ms =
      min (s.durable_storage_byte_ms + other.durable_storage_byte_ms) u128_max;
}
