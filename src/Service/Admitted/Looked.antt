-- ===== src/Service/Admitted/Looked.antt =====
-- What the host's `get` and `touch` have done when they succeed, as the HTTP service calls them:
-- cert/beamscale-critical-section/infra-runtime-host/src/main.rs.

use rust_app.Prelude.{ℕ, ◌≡◌, ◌∷◌, refl, inl, inr, Option, none, some, arith, Option-cases}
use rust_app.Prelude.Dict.{lookup, insert}
use rust_app.Prelude.BTree.{text_key}
use rust_app.Host.Types
use rust_app.Host.Types.{
  HostConfig, ShardKey, ShardRecord, ShardStatus, TouchRequest, LifecycleState, hot, warm_idle, pos,
  negsuc, shard_key_eq, backend_name,
}
use rust_app.Host.System.{Env, system_time}
use rust_app.Host.State
use rust_app.Host.State.{RuntimeHost, status_from}
use rust_app.Host.Sections.{touched, touch_section, touch_record}
use rust_app.Host.Validate.{validate_execution_request}
use rust_app.Host.Refusals.{at_epoch-current}
use rust_app.Host.Ops
use rust_app.Host.Ops.{touch_key}
use rust_app.Service.Activations.{shard_epoch_key_eq}

module _ {A : Type 0} where
  checked-ok :
      (c : Types.Result (Unit {0})) (m : State.Action A) (h : RuntimeHost) {x : A}
      → (State.checked c m h).0 ≡ Types.ok x
      → (c ≡ Types.ok tt) × ((m h).0 ≡ Types.ok x)
  unfolding State.checked
  checked-ok (Types.ok _) m h e = (refl, e)
  checked-ok (Types.err _) m h e = cc e

  found-ok :
      (o : Option ShardRecord) (body : ShardRecord → State.Action A) (h : RuntimeHost) {x : A}
      → (State.found o body h).0 ≡ Types.ok x
      → (r : ShardRecord) × (o ≡ some r) × ((body r h).0 ≡ Types.ok x)
  unfolding State.found
  found-ok none body h e = cc e
  found-ok (some r) body h e = (r, refl, e)

module _ (env : Env) (config : HostConfig) where
  -- `get` finds the shard's record, and changes nothing.
  pub get-ok :
      (key : ShardKey) (h : RuntimeHost) {status : ShardStatus}
      → (Ops.get env config key.execution_class key.tenant_id key.shard_id h).0 ≡ Types.ok status
      → (r : ShardRecord) × (lookup key h.shards ≡ some r) × (status ≡ status_from config r)
  unfolding Ops.get State.with_record State.found
  get-ok key h e = elim (Option-cases (lookup key h.shards)) [
    | inl missing ↦ cc (rw missing at e)
    | inr (r, at) ↦ (r, at, cc (rw at at e))
  ]

  -- A touch in the shard's epoch writes the shard.
  pub touch-at :
      (req : TouchRequest) (h : RuntimeHost) {r : ShardRecord}
      → validate_execution_request req.execution_class req.execution_backend ≡ Types.ok tt
      → lookup (touch_key req) h.shards ≡ some r
      → req.runtime_epoch ≡ r.runtime_epoch
      → Ops.touch env config req h ≡ touch_record env config (touch_key req) req r h
  unfolding Ops.touch touch_section State.checked
  touch-at req h valid at same =
      rw valid (at_epoch-current (touch_key req) h at req.runtime_epoch _ same)

  pub touch_record-writes :
      (req : TouchRequest) (h : RuntimeHost) (r : ShardRecord)
      → (now : ℕ) × ((touch_record env config (touch_key req) req r h).0
          ≡ Types.ok (status_from config (touched req now r)))
        × ((touch_record env config (touch_key req) req r h).1.shards
            ≡ insert (touch_key req) (touched req now r) h.shards)
  unfolding touch_record State.◌>>=◌ State.◌>>◌ State.continue
  touch_record-writes req h r = (env.clock (system_time ∷ h.calls), refl, refl)

  -- A touch that succeeds found the shard in the epoch of the request, and writes it.
  pub touch-ok :
      (req : TouchRequest) (h : RuntimeHost) {status : ShardStatus}
      → (Ops.touch env config req h).0 ≡ Types.ok status
      → (r : ShardRecord) × (validate_execution_request req.execution_class req.execution_backend
          ≡ Types.ok tt)
        × (lookup (touch_key req) h.shards ≡ some r)
        × (req.runtime_epoch ≡ r.runtime_epoch)
        × (Ops.touch env config req h ≡ touch_record env config (touch_key req) req r h)
  unfolding Ops.touch touch_section State.at_epoch State.with_record State.check_epoch
  touch-ok req h e =
      let (valid, e1) = checked-ok _ _ h e in
      let (r, at, e2) = found-ok _ _ h e1 in
      let (current, e3) = checked-ok _ _ h e2 in
      let same : req.runtime_epoch ≡ r.runtime_epoch = ground arith in
      (r, valid, at, same, touch-at req h valid at same)
