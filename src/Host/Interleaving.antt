-- ===== src/Host/Interleaving.antt =====
-- Methods of the runtime host that run at once: their sections follow one another in any order.
use rust_app.Prelude.Dict.{lookup}
use rust_app.Prelude.{some, ◌≡◌, ℕ, refl, List, [], ◌∷◌}
use rust_app.Prelude.Text.{Text}
use rust_app.Host.Types.{
  ShardRecord, shard_key_eq, ShardKey, HostConfig, EnsureShardRequest, TouchRequest, RuntimeHandles,
  ExecutionClass, hibernated, terminated, Result,
}
use rust_app.Host.System.{Env, History}
use rust_app.Host.State.{RuntimeHost}
use rust_app.Host.Sections.{
  start_begin, start_commit, idle_section, touch_section, hibernate_policy, hibernate_begin,
  stopped_commit, terminate_begin,
}
use rust_app.Host.Metering.{metering}
use rust_app.Host.Ops.{ensure}
use rust_app.Host.Invariant.{Keeps, Keeps-trans, Change-Keeps, Sound, IsSound, Follows}
use rust_app.Host.Changes.{
  start_begin-Change, start_commit-Change, idle_section-Change, touch_section-Change,
  hibernate_policy-Change, hibernate_begin-Change, stopped_commit-Change, terminate_begin-Change,
}
use rust_app.Host.Safe.{Keeps-same, ensure-Safe, metering-Safe}

-- One section of some method, or calls that another thread makes of the environment.
pub data Move : Type 0 where
  ensure_move : EnsureShardRequest → Move
  start_begin_move : ShardKey → ℕ → Move
  start_commit_move : ShardKey → Result RuntimeHandles → Move
  idle_move : ShardKey → ℕ → Move
  touch_move : ShardKey → TouchRequest → Move
  hibernate_policy_move : ShardKey → ℕ → Move
  hibernate_begin_move : ShardKey → ℕ → Move
  hibernate_commit_move : ShardKey → Move
  terminate_begin_move : ShardKey → ℕ → Move
  terminate_commit_move : ShardKey → Move
  metering_move : ExecutionClass → Text → Text → Move
  calls_move : History → Move

module _ (env : Env) (config : HostConfig) where
  unfoldable pub advance : Move → RuntimeHost → RuntimeHost
  advance (ensure_move req) s = (ensure env config req s).1
  advance (start_begin_move key epoch) s = (start_begin env config key epoch s).1
  advance (start_commit_move key result) s = (start_commit env config key result s).1
  advance (idle_move key epoch) s = (idle_section env config key epoch s).1
  advance (touch_move key req) s = (touch_section env config key req s).1
  advance (hibernate_policy_move key epoch) s = (hibernate_policy env config key epoch s).1
  advance (hibernate_begin_move key epoch) s = (hibernate_begin env config key epoch s).1
  advance (hibernate_commit_move key) s = (stopped_commit env config hibernated key s).1
  advance (terminate_begin_move key epoch) s = (terminate_begin env config key epoch s).1
  advance (terminate_commit_move key) s = (stopped_commit env config terminated key s).1
  advance (metering_move c t h) s = (metering env config c t h s).1
  advance (calls_move calls) s = record s { calls = calls }

  unfoldable pub interleave : List Move → RuntimeHost → RuntimeHost
  unfolding advance
  interleave [] s = s
  interleave (m ∷ l) s = interleave l (advance m s)

  advance-Keeps : (m : Move) (s : RuntimeHost) → Keeps s.shards (advance m s).shards
  unfolding advance
  advance-Keeps (ensure_move req) s = (ensure-Safe env config req).keeps s
  advance-Keeps (start_begin_move key epoch) s =
      Change-Keeps key _ _ (start_begin-Change env config key s epoch)
  advance-Keeps (start_commit_move key result) s =
      Change-Keeps key _ _ (start_commit-Change env config key s result)
  advance-Keeps (idle_move key epoch) s =
      Change-Keeps key _ _ (idle_section-Change env config key s epoch)
  advance-Keeps (touch_move key req) s =
      Change-Keeps key _ _ (touch_section-Change env config key s req)
  advance-Keeps (hibernate_policy_move key epoch) s =
      Change-Keeps key _ _ (hibernate_policy-Change env config key s epoch)
  advance-Keeps (hibernate_begin_move key epoch) s =
      Change-Keeps key _ _ (hibernate_begin-Change env config key s epoch)
  advance-Keeps (hibernate_commit_move key) s =
      Change-Keeps key _ _ (stopped_commit-Change env config key s hibernated (λ e. cc))
  advance-Keeps (terminate_begin_move key epoch) s =
      Change-Keeps key _ _ (terminate_begin-Change env config key s epoch)
  advance-Keeps (terminate_commit_move key) s =
      Change-Keeps key _ _ (stopped_commit-Change env config key s terminated (λ e. cc))
  advance-Keeps (metering_move c t h) s = (metering-Safe env config c t h).keeps s
  advance-Keeps (calls_move calls) s = Keeps-same s.shards s.shards refl

  interleave-Keeps : (l : List Move) (s : RuntimeHost) → Keeps s.shards (interleave l s).shards
  unfolding interleave
  interleave-Keeps [] s = Keeps-same s.shards s.shards refl
  interleave-Keeps (m ∷ l) s =
      Keeps-trans s.shards (advance m s).shards _ (advance-Keeps m s)
        (interleave-Keeps l (advance m s))

  -- Where every shard is sound to begin with, every shard that is found after any sections, in
  -- any order and with any results, is sound: it stands under its own key, its policy and digest
  -- are valid, its counters are in range, and it has no invocation while it is warm and idle.
  pub interleave-IsSound :
      (l : List Move) (s : RuntimeHost) (k : ShardKey) (t : ShardRecord)
      → Sound s.shards
      → lookup k (interleave l s).shards ≡ some t
      → IsSound k t
  interleave-IsSound l s k t sound at = (interleave-Keeps l s sound).0 k t at

  -- Where every shard is sound to begin with, a shard that is there stays there through any
  -- sections, in any order and with any results: its epoch does not go back, and within an epoch
  -- its user and root deployment are fixed and its metered counts do not fall.
  pub interleave-Follows :
      (l : List Move) (s : RuntimeHost) (k : ShardKey) (r : ShardRecord)
      → Sound s.shards
      → lookup k s.shards ≡ some r
      → (t : ShardRecord) × (lookup k (interleave l s).shards ≡ some t) × Follows r t
  interleave-Follows l s k r sound at = (interleave-Keeps l s sound).1 k r at
