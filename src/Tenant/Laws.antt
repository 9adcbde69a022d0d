-- ===== src/Tenant/Laws.antt =====
-- The transitions, samples and production policy of the tenant runtime, of
-- certification/beamscale-context-abi/rust/src/lib.rs.
use rust_app.Prelude.{
  ℕ, ◌+◌, ◌≤◌, ◌<◌, ◌≡◌, ◌≢◌, ◌↔◌, Bool, true, false, ◌&&◌, min, List, [], ◌∷◌, arith, u64_max,
  u128_max,
}
use rust_app.Prelude.Lists.{All}
use rust_app.Prelude.Text.{text_eq_iff}
use rust_app.Tenant.{
  TenantRuntimeState, can_transition_to, cold, starting, hibernated, draining, terminated,
  TenantRuntimePolicy, micro_vm, tenant_runtime_policy_v1, validate_production, valid,
  MeteringSample, merge,
}

-- A runtime that has no running machine.
abbrev pub is_down : TenantRuntimeState → Bool
is_down cold = true
is_down hibernated = true
is_down draining = true
is_down terminated = true
is_down _ = false

-- Each state of the list may follow the one before it.
unfoldable pub walks : TenantRuntimeState → List TenantRuntimeState → Bool
walks s [] = true
walks s (t ∷ l) = can_transition_to s t && walks t l

step_down :
    (s t : TenantRuntimeState)
    → is_down s ≡ true
    → can_transition_to s t ≡ true
    → t ≢ starting
    → is_down t ≡ true
step_down s t down allowed other = ground arith

-- A runtime that is cold, hibernated, draining or terminated stays in those states along every
-- walk that never passes through starting: it cannot become hot or warm and idle.
pub stays_down :
    (s : TenantRuntimeState) (l : List TenantRuntimeState)
    → is_down s ≡ true
    → walks s l ≡ true
    → All (λ t. t ≢ starting) l
    → All (λ t. is_down t ≡ true) l
unfolding walks
stays_down s [] down walk others = tt
stays_down s (t ∷ l) down walk (other, others) =
    let t_down = step_down s t down (ground arith) other in
    (t_down, stays_down t l t_down (ground arith) others)

-- A policy is valid for production exactly if it is of this version, isolates by a microVM, has a
-- processor, 64 MiB or more and a greatest memory not below that, and idle thresholds that start
-- above zero and strictly increase.
pub validate_production_iff :
    (p : TenantRuntimePolicy)
    → (validate_production p ≡ valid) ↔ (
        (p.policy_version ≡ tenant_runtime_policy_v1)
        × (p.isolation ≡ micro_vm)
        × (0 < p.vcpu_count)
        × (67108864 ≤ p.min_memory_bytes)
        × (p.min_memory_bytes ≤ p.max_memory_bytes)
        × (0 < p.warm_idle_ms)
        × (p.warm_idle_ms < p.hibernate_after_ms)
        × (p.hibernate_after_ms < p.destroy_after_ms))
unfolding validate_production
validate_production_iff p =
    let same_version = text_eq_iff p.policy_version tenant_runtime_policy_v1 in
    (λ h. ground (arith, same_version.0), λ h. ground (arith, same_version.1))

saturating_comm : (m x y : ℕ) → min (x + y) m ≡ min (y + x) m
saturating_comm m x y = omega arith

saturating_assoc : (m x y z : ℕ) → min (min (x + y) m + z) m ≡ min (x + min (y + z) m) m
saturating_assoc m x y z = omega arith

merge_comm : (a b : MeteringSample) → merge a b ≡ merge b a
unfolding merge
merge_comm a b = λ i. record {
  request_count = saturating_comm u64_max a.request_count b.request_count i;
  cpu_ns = saturating_comm u64_max a.cpu_ns b.cpu_ns i;
  memory_byte_ms = saturating_comm u128_max a.memory_byte_ms b.memory_byte_ms i;
  ingress_bytes = saturating_comm u64_max a.ingress_bytes b.ingress_bytes i;
  egress_bytes = saturating_comm u64_max a.egress_bytes b.egress_bytes i;
  durable_storage_byte_ms =
      saturating_comm u128_max a.durable_storage_byte_ms b.durable_storage_byte_ms i;
}

merge_assoc : (a b c : MeteringSample) → merge (merge a b) c ≡ merge a (merge b c)
unfolding merge
merge_assoc a b c = λ i. record {
  request_count = saturating_assoc u64_max a.request_count b.request_count c.request_count i;
  cpu_ns = saturating_assoc u64_max a.cpu_ns b.cpu_ns c.cpu_ns i;
  memory_byte_ms = saturating_assoc u128_max a.memory_byte_ms b.memory_byte_ms c.memory_byte_ms i;
  ingress_bytes = saturating_assoc u64_max a.ingress_bytes b.ingress_bytes c.ingress_bytes i;
  egress_bytes = saturating_assoc u64_max a.egress_bytes b.egress_bytes c.egress_bytes i;
  durable_storage_byte_ms =
      saturating_assoc u128_max a.durable_storage_byte_ms b.durable_storage_byte_ms
        c.durable_storage_byte_ms i;
}

-- Samples may be merged in any order and any grouping.
pub merge_order :
    (a b c : MeteringSample) → (merge a b ≡ merge b a) × (merge (merge a b) c ≡ merge a (merge b c))
merge_order a b c = (merge_comm a b, merge_assoc a b c)
