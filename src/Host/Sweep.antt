-- ===== src/Host/Sweep.antt =====
-- The lifecycle sweep, `RuntimeHost::sweep_once` of
-- cert/beamscale-critical-section/infra-runtime-host/src/lib.rs. The order of the actions is the
-- order in which the map lists its entries.
use rust_app.Prelude.{ℕ, ◌-◌, Option, none, some, List, [], ◌∷◌, leb, nat_eq, if◌then◌else◌}
use rust_app.Host.Types.{
  ShardRecord, ShardStatus, HostConfig, EpochRequest, LifecycleState, hot, warm_idle, hibernated,
  ExecutionBackend, ok, err,
}
use rust_app.Host.System.{Env}
use rust_app.Host.State.{RuntimeHost, Shards, Action, now_ms}
use rust_app.Host.Ops.{mark_warm_idle, hibernate, terminate}

-- What one sweep does to a shard.
pub data SweepAction : Type 0 where
  idle sleep destroy : SweepAction

unfoldable pub due_in : LifecycleState → ℕ → ShardRecord → Option SweepAction
due_in hot elapsed r = if leb r.policy.warm_idle_ms elapsed then some idle else none
due_in warm_idle elapsed r = if leb r.policy.hibernate_after_ms elapsed then some sleep else none
due_in hibernated elapsed r = if leb r.policy.destroy_after_ms elapsed then some destroy else none
due_in _ elapsed r = none

-- The `filter_map` of `sweep_once`, on one record.
unfoldable pub due : ℕ → ShardRecord → Option SweepAction
unfolding due_in
due now r =
    if nat_eq r.active_invocations 0 then due_in r.state (now - r.last_active_unix_ms) r else none

abbrev pub sweep_request : ShardRecord → EpochRequest
sweep_request r = record {
  tenant_id = r.key.tenant_id;
  shard_id = r.key.shard_id;
  execution_class = r.key.execution_class;
  execution_backend = ExecutionBackend.firecracker;
  runtime_epoch = r.runtime_epoch;
}

unfoldable pub sweep_actions : ℕ → Shards → List (SweepAction × EpochRequest)
sweep_actions now [] = []
sweep_actions now ((key, r) ∷ rest) = elim (due now r) [
  | none ↦ sweep_actions now rest
  | some a ↦ (a, sweep_request r) ∷ sweep_actions now rest
]

module _ (env : Env) (config : HostConfig) where
  unfoldable pub perform : SweepAction → EpochRequest → Action ShardStatus
  perform idle req = mark_warm_idle env config req
  perform sleep req = hibernate env config req
  perform destroy req = terminate env config req

  -- An error of one action is logged, and the next action follows.
  unfoldable pub perform_all : List (SweepAction × EpochRequest) → RuntimeHost → RuntimeHost
  perform_all [] s = s
  perform_all ((a, req) ∷ rest) s = perform_all rest (perform a req s).1

  unfoldable pub sweep_once : RuntimeHost → RuntimeHost
  unfolding sweep_actions perform_all
  sweep_once s =
      let (r, s') = now_ms env s in
      elim r [ ok now ↦ perform_all (sweep_actions now s'.shards) s' | err e ↦ s' ]
