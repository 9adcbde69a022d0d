-- ===== src/Service/Authorized.antt =====
-- The authorization of the requests of the HTTP service:
-- cert/beamscale-critical-section/infra-runtime-host/src/main.rs.
pub mod Guards
use mathlib.Core.Path.{subst}
use rust_app.Prelude.{
  ◌∙◌, ℕ, ◌+◌, ◌≤◌, ◌≡◌, refl, ap, ◌⊎◌, inl, inr, Option, none, some, List, arith, Option-cases,
}
use rust_app.Prelude.Text.{Text, bytes}
use rust_app.Prelude.Dict.{lookup, insert}
use rust_app.Prelude.BTree.{text_key}
use rust_app.Prelude.Result.{Result, ok, err}
use rust_app.Auth
use rust_app.Auth.Verify.{accepted_expiry}
use rust_app.Auth.{AuthError, clock_before_epoch, RuntimeContract, SignedRequest, verify, now_unix}
use rust_app.Host.Types.{ExecutionClass, EnsureShardRequest, EpochRequest, TouchRequest}
use rust_app.Service.Types.{
  ActivateRequest, InvokeRequest, CriticalSectionRequest, api_error, RuntimeRequest, ensure_body,
  epoch_body, touch_body, activate_body, invoke_body, critical_section_body, unauthorized,
  replay_detected, internal_server_error, auth, ApiError, Answer,
}
use rust_app.Service.State.{World, Setup, AppState, Handler, continue, ◌>>=◌, ◌>>◌}
use rust_app.Service.Authority.{
  outside_at, expected_request, retain_unexpired, consume_runtime_nonce, verify_request, read_clock,
  consume, authorize_runtime_request,
}
use rust_app.Service.Handlers
use rust_app.Service.Invocations
use rust_app.Service.Guest.{
  HttpRequest, get_healthz, post_ensure, post_start, post_warm_idle, post_hibernate, post_terminate,
  post_activate, post_touch, post_invoke, post_critical_section, get_activation, get_metering,
  get_shard, activate, replying, serve,
}
use rust_app.Service.Steps.{Steady, bind-Steady, pure-Steady}
use rust_app.Service.Kept
use rust_app.Service.Kept.Guest as KeptGuest
use rust_app.Service.Authorized.Guards.{Signed, Result-cases, Untouched, untouched, authorize}

module _ (world : World) (setup : Setup) where
  -- How an authorization leaves the clock and the nonces: the nonce of a contract is put in, also
  -- where it is refused for having been there.
  pub record Marked (r : Signed) (s t : AppState) : Type 0 where
    pub reads_up : s.clock_reads ≤ t.clock_reads
    pub nonces :
        (t.consumed_nonces ≡ s.consumed_nonces)
        ⊎ ((now : ℕ) × (world.clock (s.clock_reads + 1) ≡ some now)
            × (t.consumed_nonces
                ≡ insert r.contract.nonce r.contract.expires_at_unix
                    (retain_unexpired now s.consumed_nonces)))

  -- How an authorization at `s` may end.
  pub data Outcome (r : Signed) (s : AppState) (p : Result ApiError (Unit {0}) × AppState)
      : Type 0 where
    refusal :
        (e : ApiError) (t : AppState)
        → p ≡ (err e, t)
        → Untouched s t
        → Marked r s t
        → Outcome r s p
    admission :
        (expires_at now : ℕ) (t : AppState)
        → p ≡ (ok tt, t)
        → Untouched s t
        → verify world.body
            (outside_at world s.clock_reads)
            setup.runtime_control_secret
            (expected_request r.operation r.body)
            r.body
            r.contract
          ≡ Auth.ok expires_at
        → world.clock (s.clock_reads + 1) ≡ some now
        → lookup r.contract.nonce (retain_unexpired now s.consumed_nonces) ≡ none
        → t.consumed_nonces
          ≡ insert r.contract.nonce expires_at (retain_unexpired now s.consumed_nonces)
        → t.clock_reads ≡ s.clock_reads + 1 + 1
        → Outcome r s p

  kept_mark :
      (r : Signed) (s : AppState) (reads : ℕ)
      → s.clock_reads ≤ reads
      → Marked r s (record s { clock_reads = reads })
  kept_mark r s reads up = record { reads_up = up; nonces = inl refl }

  pub authorize-Outcome : (r : Signed) (s : AppState) → Outcome r s (authorize world setup r s)
  unfolding authorize_runtime_request ◌>>=◌ continue verify_request read_clock consume
      consume_runtime_nonce now_unix outside_at
  authorize-Outcome r s =
      let checked =
        verify world.body (outside_at world s.clock_reads) setup.runtime_control_secret
          (expected_request r.operation r.body) r.body r.contract in
      elim (Result-cases checked) [
        | inl (e, p) ↦
            refusal (api_error unauthorized (auth e)) (record s { clock_reads = s.clock_reads + 1 })
              (rw p) untouched (kept_mark r s _ (omega arith))
        | inr (expires_at, p) ↦ elim (Option-cases (world.clock (s.clock_reads + 1))) [
          | inl q ↦
              refusal (api_error internal_server_error (auth clock_before_epoch))
                (record s { clock_reads = s.clock_reads + 1 + 1 }) (rw (p, q)) untouched
                (kept_mark r s _ (omega arith))
          | inr (now, q) ↦
              let retained = retain_unexpired now s.consumed_nonces in
              let t = record s {
                clock_reads = s.clock_reads + 1 + 1;
                consumed_nonces = insert r.contract.nonce expires_at retained;
              } in
              elim (Option-cases (lookup r.contract.nonce retained)) [
                | inl fresh ↦
                    admission expires_at now t (rw (p, q, fresh)) untouched p q fresh refl
                      (omega arith)
                | inr (old, seen) ↦
                    refusal (api_error unauthorized replay_detected) t (rw (p, q, seen)) untouched
                      (record {
                        reads_up = omega arith;
                        nonces = inr (
                          now,
                          q,
                          ap (λ e. insert r.contract.nonce e retained)
                              (accepted_expiry world.body _ _ _ r.body r.contract expires_at p),
                        );
                      })
              ]
        ]
      ]
