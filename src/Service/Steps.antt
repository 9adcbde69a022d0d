-- ===== src/Service/Steps.antt =====
-- What every handler of the HTTP service keeps, whatever is outside of it:
-- cert/beamscale-critical-section/infra-runtime-host/src/main.rs. The actions that a handler is
-- composed of.
use rust_app.Prelude.{◌∙◌, ◌≡◌, refl}
use rust_app.Prelude.Text.{Text}
use rust_app.Prelude.BTree.{text_key}
use rust_app.Prelude.Result.{Result, ok, err}
use rust_app.Host.Types.{ExecutionClass}
use rust_app.Host.State
use rust_app.Host.Invariant.{Keeps, Keeps-trans}
use rust_app.Host.Safe.{Safe, Keeps-same}
use rust_app.Store
use rust_app.Store.{ArtifactStoreError}
use rust_app.Service.Types.{ApiError, StatusCode, GuestError}
use rust_app.Service.Checks.{Check}
use rust_app.Service.Stream
use rust_app.Service.Observations.{Observed, without_shard-found}
use rust_app.Service.Activations.{shard_epoch_key_eq, clear_observed_for_shard}
use rust_app.Service.State.{
  AppState, Handler, continue, ◌>>=◌, ◌>>◌, check, attempt, on_host, on_store, on_wire,
}

-- From one state to a later one of the same request, once it is authorized.
pub record Step (s t : AppState) : Type 0 where
  pub shards_kept : Keeps s.host.shards t.host.shards
  pub observed_kept : Observed s.observed_activation → Observed t.observed_activation
  pub same_nonces : t.consumed_nonces ≡ s.consumed_nonces
  pub same_reads : t.clock_reads ≡ s.clock_reads

pub Step-refl : (s : AppState) → Step s s
Step-refl s = record {
  shards_kept = Keeps-same s.host.shards s.host.shards refl;
  observed_kept = λ o. o;
  same_nonces = refl;
  same_reads = refl;
}

pub Step-trans : (s t u : AppState) → Step s t → Step t u → Step s u
Step-trans s t u p q = record {
  shards_kept = Keeps-trans s.host.shards t.host.shards u.host.shards p.shards_kept q.shards_kept;
  observed_kept = λ o. q.observed_kept (p.observed_kept o);
  same_nonces = q.same_nonces ∙ p.same_nonces;
  same_reads = q.same_reads ∙ p.same_reads;
}

pub record Steady {A : Type 0} (m : Handler A) : Type 0 where
  pub step : (s : AppState) → Step s (m s).1

continue-Step :
    {A B : Type 0} (s : AppState) (p : Result ApiError A × AppState) (k : A → Handler B)
    → Step s p.1
    → ((x : A) → p.0 ≡ ok x → Steady (k x))
    → Step s (continue p k).1
unfolding continue
continue-Step s (ok x, t) k first later = Step-trans s t (k x t).1 first ((later x refl).step t)
continue-Step s (err e, t) k first later = first

module _ {A B : Type 0} where
  pub bind-Steady :
      (m : Handler A) (k : A → Handler B) → Steady m → ((x : A) → Steady (k x)) → Steady (m >>= k)
  unfolding ◌>>=◌
  bind-Steady m k first later = record {
    step = λ s. continue-Step s (m s) k (first.step s) (λ x _. later x);
  }

  pub then-Steady : (m : Handler A) (k : Handler B) → Steady m → Steady k → Steady (m >> k)
  unfolding ◌>>◌
  then-Steady m k first later = bind-Steady m (λ _. k) first (λ _. later)

  -- After a check the rest knows what it gave.
  pub check-Steady :
      (r : Check A) (k : A → Handler B)
      → ((x : A) → r ≡ ok x → Steady (k x))
      → Steady (check r >>= k)
  unfolding ◌>>=◌
  check-Steady r k later = record { step = λ s. continue-Step s (r, s) k (Step-refl s) later }

module _ {A : Type 0} where
  pub same-Steady : (m : Handler A) → ((s : AppState) → (m s).1 ≡ s) → Steady m
  same-Steady m same = record { step = λ s. rw (same s) (Step-refl s) }

  pub pure-Steady : (r : Check A) → Steady (check r)
  pure-Steady r = record { step = Step-refl }

  pub attempt-Steady : (m : Handler A) → Steady m → Steady (attempt m)
  attempt-Steady m h = record { step = h.step }

  pub on_host-Steady : (m : State.Action A) → Safe m → Steady (on_host m)
  unfolding on_host
  on_host-Steady m safe = record {
    step = λ s. record {
      shards_kept = safe.keeps s.host;
      observed_kept = λ o. o;
      same_nonces = refl;
      same_reads = refl;
    };
  }

  pub on_store-Steady : (f : ArtifactStoreError → ApiError) (m : Store.Io A) → Steady (on_store f m)
  unfolding on_store
  on_store-Steady f m = record {
    step = λ s. record {
      shards_kept = Keeps-same s.host.shards s.host.shards refl;
      observed_kept = λ o. o;
      same_nonces = refl;
      same_reads = refl;
    };
  }

  pub on_wire-Steady :
      (status : StatusCode) (m : Stream.History → Result GuestError A × Stream.History)
      → Steady (on_wire status m)
  unfolding on_wire
  on_wire-Steady status m = record {
    step = λ s. record {
      shards_kept = Keeps-same s.host.shards s.host.shards refl;
      observed_kept = λ o. o;
      same_nonces = refl;
      same_reads = refl;
    };
  }

module _ (class : ExecutionClass) (tenant shard : Text) where
  pub clear-Steady : Steady (clear_observed_for_shard class tenant shard)
  unfolding clear_observed_for_shard
  clear-Steady = record {
    step = λ s. record {
      shards_kept = Keeps-same s.host.shards s.host.shards refl;
      observed_kept = λ o key p at. o key p (without_shard-found class tenant shard _ key p at).0;
      same_nonces = refl;
      same_reads = refl;
    };
  }
