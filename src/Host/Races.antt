-- ===== src/Host/Races.antt =====
-- Other methods between the two sections of `start`, of
-- cert/beamscale-critical-section/infra-runtime-host/src/lib.rs.
use rust_app.Prelude.{◌≡◌, ◌<◌, refl, ◌∙◌, some, arith}
use rust_app.Prelude.Dict.{lookup, lookup-insert_self}
use rust_app.Host.Types.{
  ShardKey, ShardRecord, HostConfig, EnsureShardRequest, hot, terminated, ok, RuntimeHandles,
  shard_key_eq,
}
use rust_app.Host.System.{Env}
use rust_app.Host.State.{RuntimeHost, new_record}
use rust_app.Host.Sections.{
  no_runtime, ensure_section, ensure_found, ensure_existing, fresh, start_commit, start_result,
  stopped_commit, stop_record,
}
use rust_app.Host.Refusals.{with_record-some}

-- What a commit with the handles `runtime` makes of a shard that was `r`.
pub record IsRevived (runtime : RuntimeHandles) (r t : ShardRecord) : Type 0 where
  pub is_hot : t.state ≡ hot
  pub has_pid : t.process_pid ≡ runtime.pid
  pub has_socket : t.api_socket ≡ runtime.api_socket
  pub same_epoch : t.runtime_epoch ≡ r.runtime_epoch
  pub same_user : t.user_id ≡ r.user_id

module _ (env : Env) (config : HostConfig) (key : ShardKey) (runtime : RuntimeHandles) where
  -- The commit of a start whose machine has come up makes the shard hot with that machine's
  -- process and socket, whatever the shard has become in the meantime: also one that was
  -- terminated, and one that was replaced by a later epoch.
  pub start_commit_revives :
      (s : RuntimeHost) (r : ShardRecord)
      → lookup key s.shards ≡ some r
      → (t : ShardRecord) × (lookup key (start_commit env config key (ok runtime) s).1.shards
          ≡ some t)
        × IsRevived runtime r t
  unfolding start_commit start_result
  start_commit_revives s r at = rw (with_record-some key s at _) (
    _,
    lookup-insert_self key _ s.shards,
    record {
      is_hot = refl;
      has_pid = refl;
      has_socket = refl;
      same_epoch = refl;
      same_user = refl;
    },
  )

  ensure_existing-newer :
      (req : EnsureShardRequest) (s : RuntimeHost) (r : ShardRecord)
      → r.state ≡ terminated
      → r.runtime_epoch < req.runtime_epoch
      → ensure_existing env config key req r s ≡ fresh env config key req s
  unfolding ensure_existing
  ensure_existing-newer req s r gone newer = ground arith

  replaced :
      (req : EnsureShardRequest) (s : RuntimeHost) (r : ShardRecord)
      → lookup key s.shards ≡ some r
      → r.state ≡ terminated
      → r.runtime_epoch < req.runtime_epoch
      → (t : ShardRecord) × (lookup key (ensure_section env config key req s).1.shards ≡ some t)
        × (t.runtime_epoch ≡ req.runtime_epoch)
        × (t.user_id ≡ req.user_id)
  unfolding ensure_section ensure_found
  replaced req s r at gone newer = rw at (
      rw (ensure_existing-newer req s r gone newer)
        (unfold fresh new_record in (_, lookup-insert_self key _ s.shards, refl, refl)))

  -- A shard that is terminated and then ensured for a later epoch, while a start of the old epoch
  -- is still waiting for its machine: the old start's commit makes the new epoch's shard, of the
  -- new user, hot with the old machine.
  pub late_start_takes_epoch :
      (req : EnsureShardRequest) (s : RuntimeHost) (r : ShardRecord)
      → lookup key s.shards ≡ some r
      → r.runtime_epoch < req.runtime_epoch
      → let torn = (stopped_commit env config terminated key s).1 in
        let renewed = (ensure_section env config key req torn).1 in
        (t : ShardRecord) × (lookup key (start_commit env config key (ok runtime) renewed).1.shards
          ≡ some t)
        × (t.runtime_epoch ≡ req.runtime_epoch)
        × (t.user_id ≡ req.user_id)
        × (t.state ≡ hot)
        × (t.process_pid ≡ runtime.pid)
  unfolding stopped_commit stop_record
  late_start_takes_epoch req s r at newer =
      let (u, at_u, epoch, user) =
        replaced req (stopped_commit env config terminated key s).1
          (record (no_runtime r) { state = terminated })
          (rw (with_record-some key s at _) (lookup-insert_self key _ s.shards)) refl newer in
      let (t, at_t, revived) = start_commit_revives _ u at_u in
      (
        t,
        at_t,
        revived.same_epoch ∙ epoch,
        revived.same_user ∙ user,
        revived.is_hot,
        revived.has_pid,
      )
