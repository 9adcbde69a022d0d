-- ===== src/Host/Elsewhere.antt =====
-- Methods of the runtime host that leave a shard alone, of
-- cert/beamscale-critical-section/infra-runtime-host/src/lib.rs: they work on another one.
use rust_app.Prelude.{◌∙◌, ◌≡◌, ◌≢◌, refl, ap, Option}
use rust_app.Prelude.Dict.{lookup, lookup-insert_ne}
use rust_app.Host.Types.{Result, ok, err, ShardKey, ShardRecord, ShardStatus, shard_key_eq}
use rust_app.Host.System.{Io}
use rust_app.Host.State.{RuntimeHost, Shards, Action, outside, checked, continue, ◌>>=◌, ◌>>◌}
use rust_app.Host.Sections.{Plan, answered, proceed}
use rust_app.Host.Ops.{follow}
use rust_app.Host.Invariant.{Change, same, updated, created}

-- A method leaves the record under the key alone.
pub record Spares (k : ShardKey) {A : Type 0} (m : Action A) : Type 0 where
  pub spared : (s : RuntimeHost) → lookup k (m s).1.shards ≡ lookup k s.shards

Change-elsewhere :
    (k key : ShardKey) (d e : Shards) → k ≢ key → Change key d e → lookup k e ≡ lookup k d
Change-elsewhere k key d e other (same p) = ap (lookup k) p
Change-elsewhere k key d e other (updated r t at p evolves) =
    ap (lookup k) p ∙ lookup-insert_ne k key t d other
Change-elsewhere k key d e other (created t at p new) =
    ap (lookup k) p ∙ lookup-insert_ne k key t d other

module _ (k : ShardKey) where
  continue-Spares :
      {A B : Type 0} (d : Option ShardRecord) (p : Result A × RuntimeHost) (f : A → Action B)
      → lookup k p.1.shards ≡ d
      → ((x : A) → Spares k (f x))
      → lookup k (continue p f).1.shards ≡ d
  unfolding continue
  continue-Spares d (ok x, t) f first later = (later x).spared t ∙ first
  continue-Spares d (err e, t) f first later = first

  pub bind-Spares :
      {A B : Type 0} (m : Action A) (f : A → Action B)
      → Spares k m
      → ((x : A) → Spares k (f x))
      → Spares k (m >>= f)
  unfolding ◌>>=◌
  bind-Spares m f first later = record {
    spared = λ s. continue-Spares (lookup k s.shards) (m s) f (first.spared s) later;
  }

  pub then-Spares :
      {A B : Type 0} (m : Action A) (n : Action B) → Spares k m → Spares k n → Spares k (m >> n)
  unfolding ◌>>◌
  then-Spares m n first later = bind-Spares m (λ _. n) first (λ _. later)

  pub outside-Spares : {A : Type 0} (m : Io A) → Spares k (outside m)
  outside-Spares m = record { spared = λ s. refl }

  pub checked-Spares :
      {A : Type 0} (c : Result (Unit {0})) (m : Action A) → Spares k m → Spares k (checked c m)
  unfolding checked
  checked-Spares (ok _) m h = h
  checked-Spares (err e) m h = record { spared = λ s. refl }

  pub follow-Spares :
      {A : Type 0} (next : A → Action ShardStatus) (p : Plan A)
      → ((x : A) → Spares k (next x))
      → Spares k (follow next p)
  unfolding follow
  follow-Spares next (answered status) h = record { spared = λ s. refl }
  follow-Spares next (proceed x) h = h x

  pub Change-Spares :
      {A : Type 0} (key : ShardKey) (m : Action A)
      → k ≢ key
      → ((s : RuntimeHost) → Change key s.shards (m s).1.shards)
      → Spares k m
  Change-Spares key m other h = record {
    spared = λ s. Change-elsewhere k key s.shards (m s).1.shards other (h s);
  }
