-- ===== src/Host/Stale.antt =====
-- Requests of an epoch that is over, of
-- cert/beamscale-critical-section/infra-runtime-host/src/lib.rs.
use rust_app.Prelude.{◌≡◌, ◌≢◌, ◌<◌, ◌≤◌, true, some, List, arith, ltb}
use rust_app.Prelude.Dict.{lookup}
use rust_app.Host.Types.{
  ShardRecord, HostConfig, EnsureShardRequest, EpochRequest, TouchRequest, stale_epoch, ok, err,
  shard_key_eq,
}
use rust_app.Host.System.{Env}
use rust_app.Host.Validate.{validate_execution_request}
use rust_app.Host.State.{RuntimeHost, checked, continue, ◌>>=◌}
use rust_app.Host.Sections.{
  start_begin, idle_section, touch_section, hibernate_policy, terminate_begin, ensure_section,
  ensure_found, ensure_existing,
}
use rust_app.Host.Ops.{
  ensure, ensure_checks, start, mark_warm_idle, touch, terminate, hibernate, ensure_key, epoch_key,
  touch_key,
}
use rust_app.Host.Invariant.{Sound}
use rust_app.Host.Interleaving.{Move, interleave, interleave-Follows}
use rust_app.Host.Refusals.{at_epoch-stale}

module _ (env : Env) (config : HostConfig) where
  module _ (s : RuntimeHost) (t : ShardRecord) where
    ensure_older :
        (wanted : EnsureShardRequest)
        → ensure_checks wanted ≡ ok tt
        → lookup (ensure_key wanted) s.shards ≡ some t
        → wanted.runtime_epoch < t.runtime_epoch
        → ensure env config wanted s ≡ (err (stale_epoch wanted.runtime_epoch t.runtime_epoch), s)
    unfolding ensure checked ensure_section ensure_found ensure_existing
    ensure_older wanted valid at older =
        let behind : ltb wanted.runtime_epoch t.runtime_epoch ≡ true = ground arith in
        rw valid (rw at (rw behind))

    -- Every method that takes an epoch refuses it, with both epochs in the error, and changes
    -- neither shards nor calls.
    pub record Refuses (req : EpochRequest) (touched : TouchRequest) (wanted : EnsureShardRequest)
        : Type 0 where
      pub no_start :
          start env config req s ≡ (err (stale_epoch req.runtime_epoch t.runtime_epoch), s)
      pub no_idle :
          mark_warm_idle env config req s ≡ (err (stale_epoch req.runtime_epoch t.runtime_epoch), s)
      pub no_hibernate :
          hibernate env config req s ≡ (err (stale_epoch req.runtime_epoch t.runtime_epoch), s)
      pub no_terminate :
          terminate env config req s ≡ (err (stale_epoch req.runtime_epoch t.runtime_epoch), s)
      pub no_touch :
          touch env config touched s ≡ (err (stale_epoch touched.runtime_epoch t.runtime_epoch), s)
      pub no_ensure :
          ensure env config wanted s ≡ (err (stale_epoch wanted.runtime_epoch t.runtime_epoch), s)

    older-Refuses :
        (req : EpochRequest) (touched : TouchRequest) (wanted : EnsureShardRequest)
        → validate_execution_request req.execution_class req.execution_backend ≡ ok tt
        → validate_execution_request touched.execution_class touched.execution_backend ≡ ok tt
        → ensure_checks wanted ≡ ok tt
        → lookup (epoch_key req) s.shards ≡ some t
        → lookup (touch_key touched) s.shards ≡ some t
        → lookup (ensure_key wanted) s.shards ≡ some t
        → req.runtime_epoch < t.runtime_epoch
        → touched.runtime_epoch < t.runtime_epoch
        → wanted.runtime_epoch < t.runtime_epoch
        → Refuses req touched wanted
    unfolding start mark_warm_idle hibernate terminate touch start_begin idle_section
        hibernate_policy terminate_begin touch_section checked ◌>>=◌ continue
    older-Refuses req touched wanted valid valid' valid'' at at' at'' older older' older'' =
        let other : req.runtime_epoch ≢ t.runtime_epoch = λ e. omega (arith, e) in
        let other' : touched.runtime_epoch ≢ t.runtime_epoch = λ e. omega (arith, e) in
        record {
          no_start = rw valid (rw (at_epoch-stale (epoch_key req) s at req.runtime_epoch _ other));
          no_idle = rw valid (rw (at_epoch-stale (epoch_key req) s at req.runtime_epoch _ other));
          no_hibernate =
              rw valid (rw (at_epoch-stale (epoch_key req) s at req.runtime_epoch _ other));
          no_terminate =
              rw valid (rw (at_epoch-stale (epoch_key req) s at req.runtime_epoch _ other));
          no_touch =
              rw valid'
                (rw (at_epoch-stale (touch_key touched) s at' touched.runtime_epoch _ other'));
          no_ensure = ensure_older wanted valid'' at'' older'';
        }

  -- Where every shard is sound, valid requests of an epoch that is over for their shard stay
  -- refused after any sections, in any order and with any results: the shard is still there, of the
  -- same epoch or a later one, and ensure, start, mark_warm_idle, touch, hibernate and terminate
  -- refuse them with both epochs in the error, and change neither shards nor calls.
  pub stale_refused :
      (l : List Move) (s : RuntimeHost) (r : ShardRecord) (req : EpochRequest)
      (touched : TouchRequest) (wanted : EnsureShardRequest)
      → Sound s.shards
      → lookup (epoch_key req) s.shards ≡ some r
      → touch_key touched ≡ epoch_key req
      → ensure_key wanted ≡ epoch_key req
      → validate_execution_request req.execution_class req.execution_backend ≡ ok tt
      → validate_execution_request touched.execution_class touched.execution_backend ≡ ok tt
      → ensure_checks wanted ≡ ok tt
      → req.runtime_epoch < r.runtime_epoch
      → touched.runtime_epoch < r.runtime_epoch
      → wanted.runtime_epoch < r.runtime_epoch
      → (t : ShardRecord) × (lookup (epoch_key req) (interleave env config l s).shards ≡ some t)
        × (r.runtime_epoch ≤ t.runtime_epoch)
        × Refuses (interleave env config l s) t req touched wanted
  stale_refused l s r req touched wanted sound at same same' valid valid' valid'' older older'
        older'' =
      let (t, at_t, step) = interleave-Follows env config l s (epoch_key req) r sound at in
      let up = step.epoch_up in
      (
        t,
        at_t,
        up,
        older-Refuses (interleave env config l s) t req touched wanted valid valid' valid'' at_t
            (rw same at_t) (rw same' at_t) (omega arith) (omega arith) (omega arith),
      )
