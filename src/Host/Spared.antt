-- ===== src/Host/Spared.antt =====
-- The shards that `sweep_once` of cert/beamscale-critical-section/infra-runtime-host/src/lib.rs
-- leaves alone.

use rust_app.Prelude.{
  ◌∙◌, ℕ, ◌-◌, ◌≤◌, ◌≡◌, ◌≢◌, ◌⊎◌, inl, inr, refl, Bool, true, false, none, some, [], ◌∷◌, arith,
  Option-cases,
}
use rust_app.Prelude.Lists.{All}
use rust_app.Prelude.Dict.{lookup, eq_cases, lookup-head, lookup-tail}
use rust_app.Host.Types.{
  ShardKey, ShardRecord, HostConfig, EpochRequest, LifecycleState, hot, warm_idle, hibernated,
  terminated, shard_key_eq,
}
use rust_app.Host.System.{Env, Call}
use rust_app.Host.State.{RuntimeHost, Shards}
use rust_app.Host.Sections.{stopped_commit}
use rust_app.Host.Ops.{
  mark_warm_idle, tear_down, terminate, put_to_sleep, hibernate_if, hibernate, epoch_key,
}
use rust_app.Host.Sweep.{
  SweepAction, idle, sleep, destroy, due_in, due, sweep_request, sweep_actions, perform,
  perform_all, sweep_once,
}
use rust_app.Host.Invariant.{Sound}
use rust_app.Host.Changes.{
  idle_section-Change, hibernate_policy-Change, hibernate_begin-Change, stopped_commit-Change,
  terminate_begin-Change,
}
use rust_app.Host.Elsewhere.{
  Spares, bind-Spares, then-Spares, outside-Spares, checked-Spares, follow-Spares, Change-Spares,
}

module _ (env : Env) (config : HostConfig) (k : ShardKey) (req : EpochRequest)
    (other : k ≢ epoch_key req) where
  idle-Spares : Spares k (mark_warm_idle env config req)
  unfolding mark_warm_idle
  idle-Spares = checked-Spares k _ _ (
      Change-Spares k (epoch_key req) _ other
        λ s. idle_section-Change env config (epoch_key req) s req.runtime_epoch)

  stopped-Spares :
      (state : LifecycleState)
      → state ≢ warm_idle
      → Spares k (stopped_commit env config state (epoch_key req))
  stopped-Spares state cool =
      Change-Spares k (epoch_key req) _ other
        λ s. stopped_commit-Change env config (epoch_key req) s state cool

  tear_down-Spares : (r : ShardRecord) → Spares k (tear_down env config (epoch_key req) r)
  unfolding tear_down
  tear_down-Spares r =
      then-Spares k _ _ (outside-Spares k _)
        (then-Spares k _ _ (outside-Spares k _) (stopped-Spares terminated (λ e. cc)))

  terminate-Spares : Spares k (terminate env config req)
  unfolding terminate
  terminate-Spares = checked-Spares k _ _ (
      bind-Spares k _ _
        (Change-Spares k (epoch_key req) _ other
          λ s. terminate_begin-Change env config (epoch_key req) s req.runtime_epoch)
        (λ plan. follow-Spares k _ plan tear_down-Spares))

  put_to_sleep-Spares : (r : ShardRecord) → Spares k (put_to_sleep env config (epoch_key req) r)
  unfolding put_to_sleep
  put_to_sleep-Spares r =
      then-Spares k _ _ (outside-Spares k _) (stopped-Spares hibernated (λ e. cc))

  hibernate_if-Spares : (on : Bool) → Spares k (hibernate_if env config req on)
  unfolding hibernate_if
  hibernate_if-Spares false = terminate-Spares
  hibernate_if-Spares true =
      bind-Spares k _ _
        (Change-Spares k (epoch_key req) _ other
          λ s. hibernate_begin-Change env config (epoch_key req) s req.runtime_epoch)
        (λ plan. follow-Spares k _ plan put_to_sleep-Spares)

  hibernate-Spares : Spares k (hibernate env config req)
  unfolding hibernate
  hibernate-Spares = checked-Spares k _ _ (
      bind-Spares k _ _
        (Change-Spares k (epoch_key req) _ other
          λ s. hibernate_policy-Change env config (epoch_key req) s req.runtime_epoch)
        hibernate_if-Spares)

  perform-Spares : (a : SweepAction) → Spares k (perform env config a req)
  unfolding perform
  perform-Spares idle = idle-Spares
  perform-Spares sleep = hibernate-Spares
  perform-Spares destroy = terminate-Spares

-- The time without activity after which a shard of a state is moved on.
abbrev pub HasWaited : LifecycleState → ℕ → ShardRecord → Type 0
HasWaited hot elapsed r = r.policy.warm_idle_ms ≤ elapsed
HasWaited warm_idle elapsed r = r.policy.hibernate_after_ms ≤ elapsed
HasWaited hibernated elapsed r = r.policy.destroy_after_ms ≤ elapsed
HasWaited _ elapsed r = ⊥

-- The sweep is for shards without active invocations that have waited long enough.
pub record IsDue (now : ℕ) (r : ShardRecord) : Type 0 where
  pub quiet : r.active_invocations ≡ 0
  pub waited : HasWaited r.state (now - r.last_active_unix_ms) r

due_in-HasWaited :
    (state : LifecycleState) (elapsed : ℕ) (r : ShardRecord) {a : SweepAction}
    → due_in state elapsed r ≡ some a
    → HasWaited state elapsed r
unfolding due_in
due_in-HasWaited hot elapsed r e = ground arith
due_in-HasWaited warm_idle elapsed r e = ground arith
due_in-HasWaited hibernated elapsed r e = ground arith
due_in-HasWaited _ elapsed r e = cc e

due-IsDue : (now : ℕ) (r : ShardRecord) {a : SweepAction} → due now r ≡ some a → IsDue now r
unfolding due
due-IsDue now r {a} e =
    let moved : due_in r.state (now - r.last_active_unix_ms) r ≡ some a = ground arith in
    record { quiet = ground arith; waited = due_in-HasWaited r.state _ r moved }

-- No key stands twice, as in a HashMap.
abbrev pub HasDistinctKeys : Shards → Type 0
HasDistinctKeys [] = Unit
HasDistinctKeys ((key, r) ∷ d) = (lookup key d ≡ none) × HasDistinctKeys d

-- What the entries of a map without double keys have in common with what is found in it.
entries-found :
    (P : ShardKey × ShardRecord → Type 0) (d : Shards)
    → HasDistinctKeys d
    → ((j : ShardKey) (r : ShardRecord) → lookup j d ≡ some r → P (j, r))
    → All P d
entries-found P [] distinct h = tt
entries-found P ((key, r) ∷ d) (fresh, distinct) h = (
  h key r (lookup-head key r d),
  entries-found P d distinct λ j t at. h j t (lookup-tail j key r t d fresh at),
)

module _ (env : Env) (config : HostConfig) (k : ShardKey) (now : ℕ) where
  -- An entry that the sweep may act on is another shard's.
  abbrev IsAside : ShardKey × ShardRecord → Type 0
  IsAside e = (k ≢ e.1.key) ⊎ (due now e.1 ≡ none)

  actions-spare :
      (l : Shards)
      → All IsAside l
      → (s : RuntimeHost)
      → lookup k (perform_all env config (sweep_actions now l) s).shards ≡ lookup k s.shards
  unfolding perform_all sweep_actions
  actions-spare [] aside s = refl
  actions-spare ((key, r) ∷ l) (here, aside) s = elim (Option-cases (due now r)) [
    | inl none_due ↦ rw (none_due, perform_all, sweep_actions) (actions-spare l aside s)
    | inr (a, acts) ↦
        rw (acts, perform_all, sweep_actions)
          (elim here [
            | inl other ↦
                actions-spare l aside (perform env config a (sweep_request r) s).1
                ∙ (perform-Spares env config k (sweep_request r) other a).spared s
            | inr quiet ↦ cc (acts, quiet)
          ])
  ]

module _ (env : Env) (config : HostConfig) where
  -- A sweep leaves a shard's record exactly as it is, whatever the environment does to the other
  -- shards, unless the shard has no active invocations and has waited, at the sweep's time, for the
  -- threshold of its state: of a hot shard the one for warm and idle, of a warm and idle one that
  -- for hibernation, of a hibernated one that for its end. Every shard is sound, and no key stands
  -- twice.
  pub sweep_once-spares :
      (s : RuntimeHost) (k : ShardKey) (r : ShardRecord)
      → Sound s.shards
      → HasDistinctKeys s.shards
      → lookup k s.shards ≡ some r
      → (IsDue (env.clock (Call.system_time ∷ s.calls)) r → ⊥)
      → lookup k (sweep_once env config s).shards ≡ some r
  unfolding sweep_once
  sweep_once-spares s k r sound distinct at idle_not =
      let h = Call.system_time ∷ s.calls in
      let now = env.clock h in
      actions-spare env config k now s.shards
        (entries-found (IsAside env config k now) s.shards distinct entry) (record s { calls = h })
      ∙ at
    where
      entry :
          (j : ShardKey) (t : ShardRecord)
          → lookup j s.shards ≡ some t
          → IsAside env config k (env.clock (Call.system_time ∷ s.calls)) (j, t)
      entry j t at_j = elim (eq_cases k t.key) [
        | inl here ↦
            let own = (sound j t at_j).same_key in
            let same_record : t ≡ r = cc (at, at_j, here, own) in
            inr (elim (Option-cases (due (env.clock (Call.system_time ∷ s.calls)) t)) [
              | inl none_due ↦ none_due
              | inr (a, acts) ↦ absurd (idle_not (due-IsDue _ r (rw same_record at acts)))
            ])
        | inr other ↦ inl other
      ]
