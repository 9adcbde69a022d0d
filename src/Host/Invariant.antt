-- ===== src/Host/Invariant.antt =====
-- The invariant on the shards of a runtime host,
-- cert/beamscale-critical-section/infra-runtime-host/src/lib.rs, and the updates of one shard.
use rust_app.Prelude.{[], ◌≤◌, ◌≡◌, ◌∙◌, inl, inr, none, some, arith, u32_max, u64_max, u128_max}
use rust_app.Prelude.Dict.{
  lookup, insert, lookup-insert_self, lookup-insert_ne, found-insert, eq_cases,
}
use mathlib.Core.Path.{subst}
use rust_app.Host.Types.{ShardKey, ShardRecord, warm_idle, ok, shard_key_eq}
use rust_app.Host.Validate.{validate, validate_digest}
use rust_app.Host.State.{Shards}

-- A shard stands under its own key, with a valid policy and digest, counters in their range, and
-- no invocation while it is warm and idle.
pub record IsSound (key : ShardKey) (r : ShardRecord) : Type 0 where
  pub same_key : r.key ≡ key
  pub policy_valid : validate r.policy ≡ ok tt
  pub digest_valid : validate_digest r.deployment_digest ≡ ok tt
  pub idle : r.state ≡ warm_idle → r.active_invocations ≡ 0
  pub active_u32 : r.active_invocations ≤ u32_max
  pub requests_u64 : r.request_count ≤ u64_max
  pub ingress_u64 : r.ingress_bytes ≤ u64_max
  pub egress_u64 : r.egress_bytes ≤ u64_max
  pub memory_u128 : r.memory_byte_ms ≤ u128_max

-- Within an epoch the identity is fixed and what is metered does not fall.
pub record SameEpoch (r t : ShardRecord) : Type 0 where
  pub same_user : t.user_id ≡ r.user_id
  pub same_root : t.root_deployment_id ≡ r.root_deployment_id
  pub requests_up : r.request_count ≤ t.request_count
  pub ingress_up : r.ingress_bytes ≤ t.ingress_bytes
  pub egress_up : r.egress_bytes ≤ t.egress_bytes
  pub memory_up : r.memory_byte_ms ≤ t.memory_byte_ms

-- `t` may come after `r` under one key.
pub record Follows (r t : ShardRecord) : Type 0 where
  pub epoch_up : r.runtime_epoch ≤ t.runtime_epoch
  pub within : t.runtime_epoch ≡ r.runtime_epoch → SameEpoch r t

pub Follows-refl : (r : ShardRecord) → Follows r r
Follows-refl r = ground arith

pub Follows-trans : (r t u : ShardRecord) → Follows r t → Follows t u → Follows r u
Follows-trans r t u f g = record {
  epoch_up = omega arith;
  within = λ e. let a = f.within (omega arith) in let b = g.within (omega arith) in ground arith;
}

abbrev pub Sound : Shards → Type 0
Sound d = (k : ShardKey) (r : ShardRecord) → lookup k d ≡ some r → IsSound k r

-- Every shard of `d` is still there in `e`, as one that may come after it.
abbrev pub Evolved : Shards → Shards → Type 0
Evolved d e =
    (k : ShardKey) (r : ShardRecord)
    → lookup k d ≡ some r
    → (t : ShardRecord) × (lookup k e ≡ some t) × Follows r t

-- How one operation may leave the map: as it was, with one shard updated, or with a new one.
pub data Change (key : ShardKey) (d e : Shards) : Type 0 where
  same : e ≡ d → Change key d e
  updated :
      (r t : ShardRecord)
      → lookup key d ≡ some r
      → e ≡ insert key t d
      → (IsSound key r → IsSound key t × Follows r t)
      → Change key d e
  created :
      (t : ShardRecord) → lookup key d ≡ none → e ≡ insert key t d → IsSound key t → Change key d e

abbrev pub Keeps : Shards → Shards → Type 0
Keeps d e = Sound d → Sound e × Evolved d e

pub Keeps-trans : (d e f : Shards) → Keeps d e → Keeps e f → Keeps d f
Keeps-trans d e f p q sound =
    let first = p sound in
    let later = q first.0 in
    (
      later.0,
      λ k r at.
          let (t, at_t, step) = first.1 k r at in
          let (u, at_u, step') = later.1 k t at_t in (u, at_u, Follows-trans r t u step step'),
    )

-- A host with no shard is sound.
pub empty-Sound : Sound []
unfolding lookup
empty-Sound k r at = cc

pub insert-Sound :
    (key : ShardKey) (t : ShardRecord) (d : Shards)
    → IsSound key t
    → Sound d
    → Sound (insert key t d)
insert-Sound key t d new sound k r at = elim (found-insert k key t r d at) [
  | inl (here, same_record) ↦ rw (here, same_record) new
  | inr (there, old) ↦ sound k r old
]

insert-Evolved :
    (key : ShardKey) (t : ShardRecord) (d : Shards)
    → ((r : ShardRecord) → lookup key d ≡ some r → Follows r t)
    → Evolved d (insert key t d)
insert-Evolved key t d step k r at = elim (eq_cases k key) [
  | inl here ↦ (t, rw here (lookup-insert_self key t d), step r (rw here at at))
  | inr there ↦ (r, lookup-insert_ne k key t d there ∙ at, Follows-refl r)
]

-- An update that respects its shard keeps every shard of the map sound, and every shard follows
-- what it was.
pub Change-Keeps : (key : ShardKey) (d e : Shards) → Change key d e → Keeps d e
Change-Keeps key d e (same p) sound = rw p (sound, λ k r at. (r, at, Follows-refl r))
Change-Keeps key d e (updated r t at p evolves) sound =
    let (new, step) = evolves (sound key r at) in
    rw p (
      insert-Sound key t d new sound,
      insert-Evolved key t d (λ r' at'. subst (λ x. Follows x t) (cc (at, at')) step),
    )
Change-Keeps key d e (created t at p new) sound =
    rw p (insert-Sound key t d new sound, insert-Evolved key t d (λ r' at'. cc (at, at')))
