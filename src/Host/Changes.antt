-- ===== src/Host/Changes.antt =====
-- The sections of the runtime host, cert/beamscale-critical-section/infra-runtime-host/src/lib.rs,
-- as updates of the one shard that they are called for.
use rust_app.Host.Validate.{validate, validate_digest}
use rust_app.Prelude.Text.{Text, text_eq}
use rust_app.Host.Metering.{metering, meter_record, metered, read_usage}
use rust_app.Prelude.{
  ◌||◌, not, ltb, ap, ℕ, ◌≡◌, ◌≢◌, refl, Option, none, some, arith, Bool-cases, inl, inr, nat_eq,
}
use rust_app.Prelude.Dict.{insert, lookup}
use rust_app.Host.Types.{
  ExecutionClass, BackendKind, EnsureShardRequest, ShardKey, ShardRecord, HostConfig,
  LifecycleState, cold, hot, warm_idle, hibernated, terminated, Result, ok, err, shard_key_eq,
  TouchRequest, RuntimeHandles,
}
use rust_app.Host.System.{Env}
use rust_app.Host.State.{
  continue, new_record, RuntimeHost, Action, with_record, found, checked, at_epoch, check_epoch,
}
use rust_app.Host.Sections.{
  refresh, fresh, ensure_found, ensure_existing, ensure_section, start_begin, start_from, launch,
  start_commit, start_result, idle_section, idle_from, touch_section, touch_record, touched,
  hibernate_policy, hibernate_begin, hibernate_from, stopped_commit, stop_record, terminate_begin,
  drain_record, is_terminated,
}
use rust_app.Host.Invariant.{created, IsSound, Follows, Change, same, updated}

module _ {A : Type 0} (key : ShardKey) (s : RuntimeHost) where
  found-Change :
      (o : Option ShardRecord) (body : ShardRecord → Action A)
      → ((r : ShardRecord) → o ≡ some r → Change key s.shards (body r s).1.shards)
      → Change key s.shards (found o body s).1.shards
  unfolding found
  found-Change none body each = same refl
  found-Change (some r) body each = each r refl

  with_record-Change :
      (body : ShardRecord → Action A)
      → ((r : ShardRecord) → lookup key s.shards ≡ some r → Change key s.shards (body r s).1.shards)
      → Change key s.shards (with_record key body s).1.shards
  unfolding with_record
  with_record-Change body each = found-Change (lookup key s.shards) body each

  checked-Change :
      (c : Result (Unit {0})) (next : Action A)
      → Change key s.shards (next s).1.shards
      → Change key s.shards (checked c next s).1.shards
  unfolding checked
  checked-Change (ok _) next h = h
  checked-Change (err e) next h = same refl

  at_epoch-Change :
      (epoch : ℕ) (body : ShardRecord → Action A)
      → ((r : ShardRecord) → lookup key s.shards ≡ some r → Change key s.shards (body r s).1.shards)
      → Change key s.shards (at_epoch key epoch body s).1.shards
  unfolding at_epoch
  at_epoch-Change epoch body each =
      with_record-Change _ λ r at. checked-Change (check_epoch r epoch) (body r) (each r at)

touched-Follows :
    (key : ShardKey) (req : TouchRequest) (now : ℕ) (r : ShardRecord)
    → IsSound key r
    → IsSound key (touched req now r) × Follows r (touched req now r)
unfolding touched
touched-Follows key req now r v = ground arith

module _ (env : Env) (config : HostConfig) (key : ShardKey) (s : RuntimeHost) where
  start_from-Change :
      (state : LifecycleState) (r : ShardRecord)
      → lookup key s.shards ≡ some r
      → Change key s.shards (start_from env config state key r s).1.shards
  unfolding start_from launch
  start_from-Change cold r at = updated r _ at refl (λ v. ground arith)
  start_from-Change hibernated r at = updated r _ at refl (λ v. ground arith)
  start_from-Change terminated r at = updated r _ at refl (λ v. ground arith)
  start_from-Change _ r at = same refl

  pub start_begin-Change :
      (epoch : ℕ) → Change key s.shards (start_begin env config key epoch s).1.shards
  unfolding start_begin
  start_begin-Change epoch = at_epoch-Change key s epoch _ λ r at. start_from-Change r.state r at

  pub start_commit-Change :
      (result : Result RuntimeHandles)
      → Change key s.shards (start_commit env config key result s).1.shards
  unfolding start_commit start_result
  start_commit-Change (ok runtime) =
      with_record-Change key s _ λ r at. updated r _ at refl (λ v. ground arith)
  start_commit-Change (err e) =
      with_record-Change key s _ λ r at. updated r _ at refl (λ v. ground arith)

  idle_from-Change :
      (state : LifecycleState) (r : ShardRecord)
      → r.active_invocations ≡ 0
      → lookup key s.shards ≡ some r
      → Change key s.shards (idle_from env config state key r s).1.shards
  unfolding idle_from
  idle_from-Change hot r quiet at = updated r _ at refl (λ v. ground arith)
  idle_from-Change warm_idle r quiet at = updated r _ at refl (λ v. ground arith)
  idle_from-Change _ r quiet at = same refl

  pub idle_section-Change :
      (epoch : ℕ) → Change key s.shards (idle_section env config key epoch s).1.shards
  unfolding idle_section
  idle_section-Change epoch = at_epoch-Change key s epoch _ λ r at.
      elim (Bool-cases (nat_eq r.active_invocations 0)) [
        | inl quiet ↦ rw quiet (idle_from-Change r.state r (ground arith) at)
        | inr busy ↦ rw busy (same refl)
      ]

  pub touch_section-Change :
      (req : TouchRequest) → Change key s.shards (touch_section env config key req s).1.shards
  unfolding touch_section touch_record
  touch_section-Change req =
      at_epoch-Change key s req.runtime_epoch _
        λ r at. updated r _ at refl (λ v. touched-Follows key req _ r v)

  hibernate_from-same :
      (state : LifecycleState) (r : ShardRecord) → (hibernate_from env config state r s).1 ≡ s
  unfolding hibernate_from
  hibernate_from-same cold r = refl
  hibernate_from-same _ r = refl

  pub hibernate_policy-Change :
      (epoch : ℕ) → Change key s.shards (hibernate_policy env config key epoch s).1.shards
  unfolding hibernate_policy
  hibernate_policy-Change epoch = at_epoch-Change key s epoch _ λ r at. same refl

  pub hibernate_begin-Change :
      (epoch : ℕ) → Change key s.shards (hibernate_begin env config key epoch s).1.shards
  unfolding hibernate_begin
  hibernate_begin-Change epoch = at_epoch-Change key s epoch _ λ r at.
      elim (Bool-cases (nat_eq r.active_invocations 0)) [
        | inl quiet ↦ rw quiet (same (ap (λ t. t.shards) (hibernate_from-same r.state r)))
        | inr busy ↦ rw busy (same refl)
      ]

  pub stopped_commit-Change :
      (state : LifecycleState)
      → state ≢ warm_idle
      → Change key s.shards (stopped_commit env config state key s).1.shards
  unfolding stopped_commit stop_record
  stopped_commit-Change state cool =
      with_record-Change key s _ λ r at. updated r _ at refl (λ v. ground arith)

  pub terminate_begin-Change :
      (epoch : ℕ) → Change key s.shards (terminate_begin env config key epoch s).1.shards
  unfolding terminate_begin drain_record
  terminate_begin-Change epoch = at_epoch-Change key s epoch _ λ r at.
      elim (Bool-cases (is_terminated r.state)) [
        | inl gone ↦ rw gone (same refl)
        | inr live ↦ rw live (updated r _ at refl (λ v. ground arith))
      ]

  -- What the section relies on of a request that `ensure` has checked.
  abbrev pub IsChecked : EnsureShardRequest → Type 0
  IsChecked req = (validate req.policy ≡ ok tt) × (validate_digest req.deployment_digest ≡ ok tt)

  ensure_existing-Change :
      (req : EnsureShardRequest) (r : ShardRecord)
      → IsChecked req
      → lookup key s.shards ≡ some r
      → Change key s.shards (ensure_existing env config key req r s).1.shards
  unfolding ensure_existing
  ensure_existing-Change req r c at = elim (Bool-cases (ltb req.runtime_epoch r.runtime_epoch)) [
    | inl stale ↦ rw stale (same refl)
    | inr current ↦ rw current (elim (Bool-cases (ltb r.runtime_epoch req.runtime_epoch)) [
      | inl newer ↦ rw newer (elim (Bool-cases (not (is_terminated r.state))) [
        | inl live ↦ rw live (same refl)
        | inr gone ↦ rw gone (unfold fresh new_record in updated r _ at refl (λ v. ground arith))
      ])
      | inr equal ↦
          let other =
            not (text_eq r.user_id req.user_id)
            || not (text_eq r.root_deployment_id req.root_deployment_id) in
          rw equal (elim (Bool-cases other) [
            | inl conflict ↦ rw conflict (same refl)
            | inr agrees ↦ rw agrees (unfold refresh in updated r _ at refl (λ v. ground arith))
          ])
    ])
  ]

  pub ensure_section-Change :
      (req : EnsureShardRequest)
      → IsChecked req
      → Change key s.shards (ensure_section env config key req s).1.shards
  unfolding ensure_section
  ensure_section-Change req c = go (lookup key s.shards) refl
    where
      go :
          (o : Option ShardRecord)
          → lookup key s.shards ≡ o
          → Change key s.shards (ensure_found env config key req o s).1.shards
      go none at = unfold ensure_found fresh new_record in created _ at refl (ground arith)
      go (some r) at = unfold ensure_found in ensure_existing-Change req r c at

  metered-Follows :
      (memory now : ℕ) (r : ShardRecord)
      → IsSound key r
      → IsSound key (metered memory now r) × Follows r (metered memory now r)
  unfolding metered
  metered-Follows memory now r v = ground arith

  usage-Change :
      (kind : BackendKind) (r : ShardRecord) → (read_usage env config kind r s).1.shards ≡ s.shards
  unfolding read_usage
  usage-Change BackendKind.mock r = refl
  usage-Change BackendKind.firecracker r = refl

  continue-Change :
      {A B : Type 0} (p : Result A × RuntimeHost) (k : A → Action B)
      → p.1.shards ≡ s.shards
      → ((x : A) (t : RuntimeHost) → t.shards ≡ s.shards → Change key s.shards (k x t).1.shards)
      → Change key s.shards (continue p k).1.shards
  unfolding continue
  continue-Change (ok x, t) k e each = each x t e
  continue-Change (err x, t) k e each = same e

  meter_record-Change :
      (r : ShardRecord)
      → lookup key s.shards ≡ some r
      → Change key s.shards (meter_record env config key r s).1.shards
  unfolding meter_record
  meter_record-Change r at =
      continue-Change (read_usage env config config.backend r s) _ (usage-Change config.backend r)
        λ x t e. updated r _ at (ap (insert key _) e) (λ v. metered-Follows x.1 _ r v)

  pub metering-Change :
      (execution_class : ExecutionClass) (tenant_id shard_id : Text)
      → key
        ≡ record { execution_class = execution_class; tenant_id = tenant_id; shard_id = shard_id }
      → Change key s.shards (metering env config execution_class tenant_id shard_id s).1.shards
  unfolding metering
  metering-Change c t d e = rw (← e) (with_record-Change key s _ (λ r at. meter_record-Change r at))
