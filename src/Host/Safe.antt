-- ===== src/Host/Safe.antt =====
-- The methods of the runtime host, cert/beamscale-critical-section/infra-runtime-host/src/lib.rs, on
-- every branch and whatever the environment answers, and the invariant on its shards.
use rust_app.Prelude.{◌≡◌, ◌≢◌, refl, Bool, true, false, List, [], ◌∷◌}
use rust_app.Prelude.Text.{Text}
use rust_app.Host.Types.{
  ShardKey, ShardRecord, ShardStatus, HostConfig, EnsureShardRequest, EpochRequest, TouchRequest,
  LifecycleState, warm_idle, hibernated, terminated, ExecutionClass, Result, ok, err,
}
use rust_app.Host.System.{Call, Env, Io}
use rust_app.Host.State.{
  continue, RuntimeHost, Shards, Action, ◌>>=◌, ◌>>◌, outside, attempt, checked,
}
use rust_app.Host.Sections.{Plan, answered, proceed}
use rust_app.Host.Sections.{stopped_commit}
use rust_app.Host.Metering.{metering}
use rust_app.Host.Sweep.{
  sweep_actions, SweepAction, idle, sleep, destroy, perform, perform_all, sweep_once,
}
use rust_app.Host.Ops.{
  restore_choice, launch_vm, ensure, ensure_checks, and_then, bring_up, start, mark_warm_idle,
  touch, tear_down, terminate, put_to_sleep, hibernate_if, hibernate, follow, ensure_key, epoch_key,
  touch_key,
}
use rust_app.Host.Types.{shard_key_eq}
use rust_app.Host.Invariant.{Keeps, Keeps-trans, Change, Change-Keeps, Follows-refl}
use rust_app.Host.Changes.{
  metering-Change, start_begin-Change, start_commit-Change, idle_section-Change,
  touch_section-Change, hibernate_policy-Change, hibernate_begin-Change, stopped_commit-Change,
  terminate_begin-Change, ensure_section-Change, IsChecked,
}

pub record Safe {A : Type 0} (m : Action A) : Type 0 where
  pub keeps : (s : RuntimeHost) → Keeps s.shards (m s).1.shards

pub Keeps-same : (d e : Shards) → e ≡ d → Keeps d e
Keeps-same d e p sound = rw p (sound, λ k r at. (r, at, Follows-refl r))

continue-Keeps :
    {A B : Type 0} (d : Shards) (p : Result A × RuntimeHost) (k : A → Action B)
    → Keeps d p.1.shards
    → ((x : A) → Safe (k x))
    → Keeps d (continue p k).1.shards
unfolding continue
continue-Keeps d (ok x, t) k first later =
    Keeps-trans d t.shards (k x t).1.shards first ((later x).keeps t)
continue-Keeps d (err e, t) k first later = first

module _ {A B : Type 0} where
  bind-Safe : (m : Action A) (k : A → Action B) → Safe m → ((x : A) → Safe (k x)) → Safe (m >>= k)
  unfolding ◌>>=◌
  bind-Safe m k first later = record {
    keeps = λ s. continue-Keeps s.shards (m s) k (first.keeps s) later;
  }

  then-Safe : (m : Action A) (k : Action B) → Safe m → Safe k → Safe (m >> k)
  unfolding ◌>>◌
  then-Safe m k first later = bind-Safe m (λ _. k) first (λ _. later)

module _ {A : Type 0} where
  same-Safe : (m : Action A) → ((s : RuntimeHost) → (m s).1.shards ≡ s.shards) → Safe m
  same-Safe m same_shards = record {
    keeps = λ s. Keeps-same s.shards (m s).1.shards (same_shards s);
  }

  Change-Safe :
      (key : ShardKey) (m : Action A)
      → ((s : RuntimeHost) → Change key s.shards (m s).1.shards)
      → Safe m
  Change-Safe key m h = record { keeps = λ s. Change-Keeps key s.shards (m s).1.shards (h s) }

  checked-Safe : (c : Result (Unit {0})) (m : Action A) → (c ≡ ok tt → Safe m) → Safe (checked c m)
  unfolding checked
  checked-Safe (ok _) m h = h refl
  checked-Safe (err e) m h = same-Safe _ (λ s. refl)

module _ {A : Type 0} where
  outside-Safe : (m : Io A) → Safe (outside m)
  outside-Safe m = same-Safe _ (λ s. refl)

  attempt-Safe : (m : Io A) → Safe (attempt m)
  attempt-Safe m = same-Safe (attempt m) (λ s. refl)

  follow-Safe :
      (next : A → Action ShardStatus) (p : Plan A)
      → ((x : A) → Safe (next x))
      → Safe (follow next p)
  unfolding follow
  follow-Safe next (answered status) h = same-Safe _ (λ s. refl)
  follow-Safe next (proceed x) h = h x

and_then-ok : (a c : Result (Unit {0})) → and_then a c ≡ ok tt → (a ≡ ok tt) × (c ≡ ok tt)
unfolding and_then
and_then-ok (ok _) c h = (refl, h)
and_then-ok (err e) c h = cc

ensure_checks-IsChecked :
    (env : Env) (config : HostConfig) (key : ShardKey) (s : RuntimeHost) (req : EnsureShardRequest)
    → ensure_checks req ≡ ok tt
    → IsChecked env config key s req
unfolding ensure_checks
ensure_checks-IsChecked env config key s req h =
    let (_, h1) = and_then-ok _ _ h in
    let (policy, h2) = and_then-ok _ _ h1 in
    let (digest, _) = and_then-ok _ _ h2 in (policy, digest)

module _ (env : Env) (config : HostConfig) where
  pub ensure-Safe : (req : EnsureShardRequest) → Safe (ensure env config req)
  unfolding ensure
  ensure-Safe req = checked-Safe (ensure_checks req) _ λ c. Change-Safe (ensure_key req) _ λ s.
      ensure_section-Change env config (ensure_key req) s req
        (ensure_checks-IsChecked env config (ensure_key req) s req c)

  restore_choice-Safe :
      (snapshot : ShardRecord) (should_restore : Bool)
      → Safe (restore_choice env config snapshot should_restore)
  unfolding restore_choice
  restore_choice-Safe snapshot true = outside-Safe _
  restore_choice-Safe snapshot false = same-Safe _ (λ s. refl)

  launch_vm-Safe :
      (snapshot : ShardRecord) (restore : Bool) → Safe (launch_vm env config snapshot restore)
  unfolding launch_vm
  launch_vm-Safe snapshot true = attempt-Safe _
  launch_vm-Safe snapshot false = attempt-Safe _

  bring_up-Safe : (key : ShardKey) (work : ShardRecord × Bool) → Safe (bring_up env config key work)
  unfolding bring_up
  bring_up-Safe key (snapshot, should_restore) =
      bind-Safe _ _ (restore_choice-Safe snapshot should_restore) λ restore.
        bind-Safe _ _ (launch_vm-Safe snapshot restore)
          λ result. Change-Safe key _ λ s. start_commit-Change env config key s result

  pub start-Safe : (req : EpochRequest) → Safe (start env config req)
  unfolding start
  start-Safe req = checked-Safe _ _ λ _.
      bind-Safe _ _
        (Change-Safe (epoch_key req) _
          λ s. start_begin-Change env config (epoch_key req) s req.runtime_epoch)
        (λ plan. follow-Safe _ plan (bring_up-Safe (epoch_key req)))

  pub mark_warm_idle-Safe : (req : EpochRequest) → Safe (mark_warm_idle env config req)
  unfolding mark_warm_idle
  mark_warm_idle-Safe req = checked-Safe _ _ λ _.
      Change-Safe (epoch_key req) _
        λ s. idle_section-Change env config (epoch_key req) s req.runtime_epoch

  pub touch-Safe : (req : TouchRequest) → Safe (touch env config req)
  unfolding touch
  touch-Safe req =
      checked-Safe _ _ λ _.
        Change-Safe (touch_key req) _ λ s. touch_section-Change env config (touch_key req) s req

  stopped-Safe :
      (state : LifecycleState) (key : ShardKey)
      → state ≢ warm_idle
      → Safe (stopped_commit env config state key)
  stopped-Safe state key cool =
      Change-Safe key _ λ s. stopped_commit-Change env config key s state cool

  tear_down-Safe : (key : ShardKey) (r : ShardRecord) → Safe (tear_down env config key r)
  unfolding tear_down
  tear_down-Safe key r =
      then-Safe _ _ (outside-Safe _)
        (then-Safe _ _ (outside-Safe _) (stopped-Safe terminated key (λ e. cc)))

  pub terminate-Safe : (req : EpochRequest) → Safe (terminate env config req)
  unfolding terminate
  terminate-Safe req = checked-Safe _ _ λ _.
      bind-Safe _ _
        (Change-Safe (epoch_key req) _
          λ s. terminate_begin-Change env config (epoch_key req) s req.runtime_epoch)
        (λ plan. follow-Safe _ plan (tear_down-Safe (epoch_key req)))

  put_to_sleep-Safe : (key : ShardKey) (r : ShardRecord) → Safe (put_to_sleep env config key r)
  unfolding put_to_sleep
  put_to_sleep-Safe key r = then-Safe _ _ (outside-Safe _) (stopped-Safe hibernated key (λ e. cc))

  hibernate_if-Safe : (req : EpochRequest) (on : Bool) → Safe (hibernate_if env config req on)
  unfolding hibernate_if
  hibernate_if-Safe req false = terminate-Safe req
  hibernate_if-Safe req true =
      bind-Safe _ _
        (Change-Safe (epoch_key req) _
          λ s. hibernate_begin-Change env config (epoch_key req) s req.runtime_epoch)
        (λ plan. follow-Safe _ plan (put_to_sleep-Safe (epoch_key req)))

  pub hibernate-Safe : (req : EpochRequest) → Safe (hibernate env config req)
  unfolding hibernate
  hibernate-Safe req = checked-Safe _ _ λ _.
      bind-Safe _ _
        (Change-Safe (epoch_key req) _
          λ s. hibernate_policy-Change env config (epoch_key req) s req.runtime_epoch)
        (hibernate_if-Safe req)

  pub metering-Safe : (c : ExecutionClass) (t h : Text) → Safe (metering env config c t h)
  metering-Safe c t h =
      Change-Safe (record { execution_class = c; tenant_id = t; shard_id = h }) _
        λ s. metering-Change env config _ s c t h refl

  perform-Safe : (a : SweepAction) (req : EpochRequest) → Safe (perform env config a req)
  unfolding perform
  perform-Safe idle req = mark_warm_idle-Safe req
  perform-Safe sleep req = hibernate-Safe req
  perform-Safe destroy req = terminate-Safe req

  perform_all-Keeps :
      (l : List (SweepAction × EpochRequest)) (s : RuntimeHost)
      → Keeps s.shards (perform_all env config l s).shards
  unfolding perform_all
  perform_all-Keeps [] s = Keeps-same s.shards s.shards refl
  perform_all-Keeps ((a, req) ∷ l) s =
      Keeps-trans s.shards (perform env config a req s).1.shards _ ((perform-Safe a req).keeps s)
        (perform_all-Keeps l (perform env config a req s).1)

  pub sweep_once-Keeps : (s : RuntimeHost) → Keeps s.shards (sweep_once env config s).shards
  unfolding sweep_once
  sweep_once-Keeps s =
      let h = Call.system_time ∷ s.calls in
      perform_all-Keeps (sweep_actions (env.clock h) s.shards) (record s { calls = h })
