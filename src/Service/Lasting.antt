-- ===== src/Service/Lasting.antt =====
-- What the HTTP service keeps through any requests and sweeps:
-- cert/beamscale-critical-section/infra-runtime-host/src/main.rs.
use mathlib.Core.Path.{subst}
use rust_app.Prelude.{◌≡◌, refl, sym, ap, inl, inr, some, List, [], ◌∷◌, Option-cases}
use rust_app.Prelude.Dict.{lookup}
use rust_app.Prelude.Result.{Result}
use rust_app.Host.Types.{ShardKey, ShardRecord, shard_key_eq}
use rust_app.Host.Invariant.{Keeps, Keeps-trans, Sound, Follows}
use rust_app.Host.Safe.{Keeps-same, sweep_once-Keeps}
use rust_app.Service.Types.{ApiError}
use rust_app.Service.State.{World, Setup, AppState, Handler, continue}
use rust_app.Service.Activations.{shard_epoch_key_eq}
use rust_app.Service.Observations.{Observed}
use rust_app.Service.Handlers.{sweep}
use rust_app.Service.Guest.{HttpRequest, serve, sweep_round, request, Event, handle, run}
use rust_app.Service.Steps.{Step, Steady}
use rust_app.Service.Authorized.Guards.{Signed, signed_of, serve-IsGuarded, open-Steady, Untouched}
use rust_app.Service.Authorized.{Outcome, refusal, admission, authorize-Outcome}

-- The shards and the observed activations of a later state.
pub record Later (s t : AppState) : Type 0 where
  pub shards : Keeps s.host.shards t.host.shards
  pub observed : Observed s.observed_activation → Observed t.observed_activation

Later-trans : (s t u : AppState) → Later s t → Later t u → Later s u
Later-trans s t u p q = record {
  shards = Keeps-trans s.host.shards t.host.shards u.host.shards p.shards q.shards;
  observed = λ o. q.observed (p.observed o);
}

Untouched-Later : (s t : AppState) → Untouched s t → Later s t
Untouched-Later s t same = record {
  shards = Keeps-same s.host.shards t.host.shards (ap (λ h. h.shards) same.same_host);
  observed = λ o. subst Observed (sym same.same_observed) o;
}

Step-Later : (s t : AppState) → Step s t → Later s t
Step-Later s t st = record { shards = st.shards_kept; observed = st.observed_kept }

module _ (world : World) (setup : Setup) where
  continue-Later :
      {A : Type 0} (r : Signed) (s : AppState) (p : Result ApiError (Unit {0}) × AppState)
      (rest : Handler A)
      → Steady rest
      → Outcome world setup r s p
      → Later s (continue p (λ _. rest)).1
  unfolding continue
  continue-Later r s p rest steady (refusal e t at same marked) =
      subst (λ q. Later s (continue q (λ _. rest)).1) (sym at) (Untouched-Later s t same)
  continue-Later r s p rest steady (admission _ _ t at same _ _ _ _ _) =
      subst (λ q. Later s (continue q (λ _. rest)).1) (sym at)
        (Later-trans s t _ (Untouched-Later s t same) (Step-Later t _ (steady.step t)))

  serve-Later : (req : HttpRequest) (s : AppState) → Later s (serve world setup req s).1
  serve-Later req s = elim (Option-cases (signed_of req)) [
    | inl e ↦ Step-Later s _ ((open-Steady world setup req e).step s)
    | inr (r, e) ↦
        let g = serve-IsGuarded world setup req r e in
        subst (λ q. Later s q.1) (sym (g.guarded s))
          (continue-Later r s _ g.rest g.steady (authorize-Outcome world setup r s))
  ]

  handle-Later : (event : Event) (s : AppState) → Later s (handle world setup event s)
  unfolding handle sweep
  handle-Later (request req) s = serve-Later req s
  handle-Later sweep_round s = record {
    shards = sweep_once-Keeps world.host setup.config s.host;
    observed = λ o. o;
  }

  run-Later : (events : List Event) (s : AppState) → Later s (run world setup events s)
  unfolding run
  run-Later [] s = record {
    shards = Keeps-same s.host.shards s.host.shards refl;
    observed = λ o. o;
  }
  run-Later (event ∷ events) s =
      let t = handle world setup event s in
      Later-trans s t _ (handle-Later event s) (run-Later events t)

  -- Where every shard is sound and every observed activation is canonical, as in the empty state
  -- that the service starts with, all are so after any requests and sweeps, one after the other,
  -- whatever is outside of the service: every shard that is there then, also a new one, is sound,
  -- and every observed activation holds canonical digests, the one that is active among those that
  -- are loaded. A shard that was there is still there, and follows what it was.
  pub run-IsSound :
      (events : List Event) (s : AppState)
      → Sound s.host.shards
      → Observed s.observed_activation
      → Sound (run world setup events s).host.shards
        × Observed (run world setup events s).observed_activation
        × ((key : ShardKey) (r : ShardRecord)
            → lookup key s.host.shards ≡ some r
            → (t : ShardRecord) × (lookup key (run world setup events s).host.shards ≡ some t)
              × Follows r t)
  run-IsSound events s sound observed =
      let l = run-Later events s in
      let (later, moved) = l.shards sound in (later, l.observed observed, moved)
