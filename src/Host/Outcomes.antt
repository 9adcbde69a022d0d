-- ===== src/Host/Outcomes.antt =====
-- The methods of the runtime host when no other method runs between their sections: `start`,
-- `terminate` and `hibernate` of cert/beamscale-critical-section/infra-runtime-host/src/lib.rs.
use rust_app.Prelude.{
  ◌≢◌, ◌⊎◌, ◌∙◌, Bool-cases, inl, inr, ◌∷◌, ◌≡◌, refl, Bool, true, false, none, some, arith,
}
use rust_app.Prelude.Dict.{insert, lookup, lookup-insert_self}
use rust_app.Host.Types.{
  hibernated, starting, ShardKey, ShardRecord, ShardStatus, HostConfig, EpochRequest,
  LifecycleState, cold, hot, draining, terminated, Result, ok, err, RuntimeHandles, shard_key_eq,
}
use rust_app.Host.System
use rust_app.Host.System.{Env, Io, History, Call}
use rust_app.Host.Validate.{validate_execution_request}
use rust_app.Host.State.{outside, RuntimeHost, Action, checked, continue, ◌>>=◌, ◌>>◌, status_from}
use rust_app.Host.Sections.{
  start_from, launch, start_begin, start_commit, start_result, terminate_begin, drain_record,
  proceed, hibernate_policy, is_terminated, stopped_commit, stop_record, no_runtime,
}
use rust_app.Host.Vm.{snapshot_has_files, stop_vm, cleanup_terminated_jail}
use rust_app.Host.Layout.{runtime_paths}
use rust_app.Host.Ops.{
  epoch_key, start, terminate, hibernate, hibernate_if, follow, restore_choice, launch_vm, bring_up,
  tear_down,
}
use rust_app.Host.Refusals.{at_epoch-current, with_record-some}

-- What `start` leaves when its machine has come up or failed: the shard is hot, as the answer
-- says, or cold with the error that is answered.
pub Settled : HostConfig → ShardKey → Result ShardStatus × RuntimeHost → Type 0
Settled config key (ok status, s) =
    (t : ShardRecord) × (lookup key s.shards ≡ some t)
    × (t.state ≡ hot)
    × (status ≡ status_from config t)
Settled config key (err e, s) =
    (t : ShardRecord) × (lookup key s.shards ≡ some t) × (t.state ≡ cold) × (t.last_error ≡ some e)

-- What `terminate` leaves: a terminated shard with no process and no sockets if it answers, and
-- the shard as it is if it fails.
unfoldable pub Torn : ShardKey → ShardRecord → Result ShardStatus × RuntimeHost → Type 0
Torn key r (ok status, s) =
    lookup key s.shards ≡ some (record (no_runtime r) { state = terminated })
Torn key r (err e, s) = lookup key s.shards ≡ some r

module _ (env : Env) (config : HostConfig) (key : ShardKey) where
  start_commit-Settled :
      (result : Result RuntimeHandles) (s : RuntimeHost) {r : ShardRecord}
      → lookup key s.shards ≡ some r
      → Settled config key (start_commit env config key result s)
  unfolding start_commit start_result Settled
  start_commit-Settled (ok runtime) s at =
      rw (with_record-some key s at _) (_, lookup-insert_self key _ s.shards, refl, refl)
  start_commit-Settled (err e) s at =
      rw (with_record-some key s at _) (_, lookup-insert_self key _ s.shards, refl, refl)

  launch_vm-Settled :
      (snapshot : ShardRecord) (restore : Bool) (s : RuntimeHost) {r : ShardRecord}
      → lookup key s.shards ≡ some r
      → Settled config key
          ((launch_vm env config snapshot restore >>= start_commit env config key) s)
  unfolding launch_vm ◌>>=◌ continue
  launch_vm-Settled snapshot true s at = start_commit-Settled _ _ at
  launch_vm-Settled snapshot false s at = start_commit-Settled _ _ at

  has_files-ok :
      (r : ShardRecord) (h : History)
      → (there : Bool) × (h' : History) × (snapshot_has_files env config r h ≡ (ok there, h'))
  unfolding snapshot_has_files System.◌>>=◌
  has_files-ok r h =
      let first = Call.exists (runtime_paths config.runtime_dir r).snapshot_state ∷ h in
      let second = Call.exists (runtime_paths config.runtime_dir r).snapshot_mem in
      elim (Bool-cases (env.flag first)) [
        | inl yes_state ↦ (env.flag (second ∷ first), second ∷ first, rw yes_state)
        | inr no_state ↦ (false, first, rw no_state)
      ]

  -- A start that was let through never leaves its shard starting when it runs alone: whatever the
  -- environment answers, the shard ends hot and the status says so, or ends cold and holds the
  -- error that is answered.
  pub bring_up-Settled :
      (snapshot : ShardRecord) (should_restore : Bool) (s : RuntimeHost) (r : ShardRecord)
      → lookup key s.shards ≡ some r
      → Settled config key (bring_up env config key (snapshot, should_restore) s)
  unfolding bring_up restore_choice ◌>>=◌ continue
  bring_up-Settled snapshot true s r at =
      let (there, h, e) = has_files-ok snapshot s.calls in
      rw (e, continue) (launch_vm-Settled snapshot there (record s { calls = h }) at)
  bring_up-Settled snapshot false s r at = launch_vm-Settled snapshot false s at

  stopped-Torn :
      (s : RuntimeHost) (r : ShardRecord)
      → lookup key s.shards ≡ some r
      → Torn key r (stopped_commit env config terminated key s)
  unfolding stopped_commit stop_record Torn
  stopped-Torn s r at = rw (with_record-some key s at _) (lookup-insert_self key _ s.shards)

  outside-Torn :
      {A : Type 0} (m : Io A) (k : A → Action ShardStatus) (s : RuntimeHost) (r : ShardRecord)
      → lookup key s.shards ≡ some r
      → ((x : A) (t : RuntimeHost) → lookup key t.shards ≡ some r → Torn key r (k x t))
      → Torn key r ((outside m >>= k) s)
  unfolding ◌>>=◌ continue Torn
  outside-Torn m k s r at each = go (m s.calls).0 (m s.calls).1
    where
      go : (q : Result _) (h : History) → Torn key r (continue (q, record s { calls = h }) k)
      go (ok x) h = each x (record s { calls = h }) at
      go (err e) h = at

  pub tear_down-Torn :
      (s : RuntimeHost) (r : ShardRecord)
      → lookup key s.shards ≡ some r
      → Torn key r (tear_down env config key r s)
  unfolding tear_down ◌>>◌
  tear_down-Torn s r at = outside-Torn (stop_vm env config r) _ s r at λ _ t at'.
      outside-Torn (cleanup_terminated_jail env config r) _ t r at'
        λ _ u at''. stopped-Torn u r at''

not_terminated : {state : LifecycleState} → state ≢ terminated → is_terminated state ≡ false
not_terminated h = ground arith

-- The states from which `start` brings a shard up.
abbrev pub IsStartable : LifecycleState → Type 0
IsStartable state = (state ≡ cold) ⊎ ((state ≡ hibernated) ⊎ (state ≡ terminated))

module _ (env : Env) (config : HostConfig) (req : EpochRequest) (s : RuntimeHost)
    (r : ShardRecord) where
  IsLaunched : Bool → Type 0
  IsLaunched b = start_begin env config (epoch_key req) req.runtime_epoch s ≡ (
    ok (proceed (record r { state = starting; last_error = none }, b)),
    record s {
      shards = insert (epoch_key req) (record r { state = starting; last_error = none }) s.shards;
    },
  )

  begun :
      lookup (epoch_key req) s.shards ≡ some r
      → req.runtime_epoch ≡ r.runtime_epoch
      → IsStartable r.state
      → (b : Bool) × IsLaunched b
  unfolding start_begin start_from launch IsLaunched
  begun at same_epoch (inl e) =
      (false, at_epoch-current (epoch_key req) s at req.runtime_epoch _ same_epoch ∙ rw e)
  begun at same_epoch (inr (inl e)) =
      (true, at_epoch-current (epoch_key req) s at req.runtime_epoch _ same_epoch ∙ rw e)
  begun at same_epoch (inr (inr e)) =
      (false, at_epoch-current (epoch_key req) s at req.runtime_epoch _ same_epoch ∙ rw e)

  -- A valid start of a cold, hibernated or terminated shard of the same epoch, with no other
  -- method in between, never leaves the shard starting: it ends hot and the status says so, or
  -- ends cold and holds the error that is answered, whatever the environment does.
  pub start_settles :
      validate_execution_request req.execution_class req.execution_backend ≡ ok tt
      → lookup (epoch_key req) s.shards ≡ some r
      → req.runtime_epoch ≡ r.runtime_epoch
      → IsStartable r.state
      → Settled config (epoch_key req) (start env config req s)
  unfolding start checked ◌>>=◌ continue follow IsLaunched
  start_settles valid at same_epoch startable =
      let (b, e) = begun at same_epoch startable in
      rw valid (
        rw e (
          bring_up-Settled env config (epoch_key req) _ b _ _
            (lookup-insert_self (epoch_key req) _ s.shards)))

  -- A valid terminate of a shard of the same epoch that is not terminated yet, with no other
  -- method in between, ends with the shard terminated and without process and sockets, or fails
  -- and leaves it draining and otherwise as it was.
  pub terminate_ends :
      validate_execution_request req.execution_class req.execution_backend ≡ ok tt
      → lookup (epoch_key req) s.shards ≡ some r
      → req.runtime_epoch ≡ r.runtime_epoch
      → r.state ≢ terminated
      → Torn (epoch_key req) (record r { state = draining }) (terminate env config req s)
  unfolding terminate terminate_begin drain_record checked ◌>>=◌ continue follow
  terminate_ends valid at same_epoch live = rw valid (
      rw (at_epoch-current (epoch_key req) s at req.runtime_epoch _ same_epoch) (
        rw (not_terminated live) (
          tear_down-Torn env config (epoch_key req) _ _
            (lookup-insert_self (epoch_key req) _ s.shards))))

  -- A shard whose policy forbids snapshots is terminated by `hibernate`, also while invocations
  -- are active.
  pub hibernate-terminate :
      validate_execution_request req.execution_class req.execution_backend ≡ ok tt
      → lookup (epoch_key req) s.shards ≡ some r
      → req.runtime_epoch ≡ r.runtime_epoch
      → r.policy.snapshot_enabled ≡ false
      → hibernate env config req s ≡ terminate env config req s
  unfolding hibernate hibernate_policy hibernate_if checked ◌>>=◌ continue
  hibernate-terminate valid at same_epoch off =
      rw valid (rw (at_epoch-current (epoch_key req) s at req.runtime_epoch _ same_epoch) (rw off))
