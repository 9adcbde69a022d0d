-- ===== src/Host/Refusals.antt =====
-- The refusals of the runtime host, of
-- cert/beamscale-critical-section/infra-runtime-host/src/lib.rs.
use rust_app.Prelude.{◌∙◌, ℕ, ◌≡◌, ◌≢◌, ◌<◌, ◌≤◌, ◌↔◌, some, arith}
use rust_app.Prelude.Dict.{lookup}
use rust_app.Host.Types.{ShardKey, ShardRecord, RuntimePolicy, stale_epoch, ok, err, shard_key_eq}
use rust_app.Host.Validate.{validate}
use rust_app.Host.State.{RuntimeHost, Action, with_record, found, at_epoch, checked, check_epoch}

-- A policy is accepted exactly if it has 1 to 32 processors, 64 MiB or more, and idle thresholds
-- that start above zero and strictly increase.
pub validate_iff :
    (p : RuntimePolicy)
    → (validate p ≡ ok tt) ↔ (
        (0 < p.vcpu_count)
        × (p.vcpu_count ≤ 32)
        × (64 ≤ p.memory_mib)
        × (0 < p.warm_idle_ms)
        × (p.warm_idle_ms < p.hibernate_after_ms)
        × (p.hibernate_after_ms < p.destroy_after_ms))
unfolding validate
validate_iff p = (λ h. ground arith, λ h. ground arith)

module _ {A : Type 0} (key : ShardKey) (s : RuntimeHost) {r : ShardRecord}
    (at : lookup key s.shards ≡ some r) where
  pub with_record-some : (body : ShardRecord → Action A) → with_record key body s ≡ body r s
  unfolding with_record found
  with_record-some body = rw (at, with_record, found)

  pub at_epoch-stale :
      (epoch : ℕ) (body : ShardRecord → Action A)
      → epoch ≢ r.runtime_epoch
      → at_epoch key epoch body s ≡ (err (stale_epoch epoch r.runtime_epoch), s)
  unfolding at_epoch
  at_epoch-stale epoch body other =
      with_record-some (λ t. checked (check_epoch t epoch) (body t))
      ∙ unfold check_epoch checked in ground arith

  pub at_epoch-current :
      (epoch : ℕ) (body : ShardRecord → Action A)
      → epoch ≡ r.runtime_epoch
      → at_epoch key epoch body s ≡ body r s
  unfolding at_epoch
  at_epoch-current epoch body e =
      with_record-some (λ t. checked (check_epoch t epoch) (body t))
      ∙ unfold check_epoch checked in ground arith
