-- ===== src/Service/Once.antt =====
-- Whether a contract is accepted twice by the HTTP service,
-- cert/beamscale-critical-section/infra-runtime-host/src/main.rs.
use mathlib.Core.Path.{subst}
use rust_app.Prelude.{
  ◌∙◌, ℕ, ◌+◌, ◌≤◌, ◌<◌, ◌≡◌, sym, ap, inl, inr, none, some, List, [], ◌∷◌, arith, u64_max,
}
use rust_app.Prelude.Text.{Text, text_eq_iff}
use rust_app.Prelude.Dict.{lookup, insert, lookup-insert_self}
use rust_app.Prelude.BTree.{text_key}
use rust_app.Prelude.Result.{ok}
use rust_app.Auth
use rust_app.Auth.{verify, now_unix}
use rust_app.Auth.Verify.{accepted_expiry}
use rust_app.Service.State.{World, Setup, AppState, Handler, continue, ◌>>=◌}
use rust_app.Service.Authority.{
  outside_at, expected_request, retain_unexpired, consume_runtime_nonce, verify_request, read_clock,
  consume, authorize_runtime_request,
}
use rust_app.Service.Guest.{HttpRequest, serve, Event, run}
use rust_app.Service.Steps.{Steady}
use rust_app.Service.Authorized.Guards.{Signed, signed_of, authorize, serve-IsGuarded}
use rust_app.Service.Authorized.{Outcome, refusal, admission, authorize-Outcome}
use rust_app.Service.Admission.{Refusal, serve_authorized}
use rust_app.Service.Replay.{ReadsBy, Held, Held-retain, AllSpare, run-reads, run-Held}

-- A new nonce goes once its time has passed.
lookup-retain-insert :
    (nonce : Text) (expiry now : ℕ) (d : List (Text × ℕ))
    → lookup nonce d ≡ none
    → expiry < now
    → lookup nonce (retain_unexpired now (insert nonce expiry d)) ≡ none
unfolding lookup insert retain_unexpired
lookup-retain-insert nonce expiry now [] fresh past = ground arith
lookup-retain-insert nonce expiry now ((n, e) ∷ d) fresh past =
    ground (arith, text_eq_iff nonce n, lookup-retain-insert nonce expiry now d)

module _ (world : World) (setup : Setup) where
  continue-Held :
      {A : Type 0} (nonce : Text) (until : ℕ) (t : AppState) (rest : Handler A)
      → Steady rest
      → Held nonce until t.consumed_nonces
      → Held nonce until (rest t).1.consumed_nonces
  continue-Held nonce until t rest steady v =
      subst (Held nonce until) (sym (steady.step t).same_nonces) v

  accepted-Held :
      (req : HttpRequest) (r : Signed) (s : AppState)
      → signed_of req ≡ some r
      → (authorize world setup r s).0 ≡ ok tt
      → Outcome world setup r s (authorize world setup r s)
      → Held r.contract.nonce r.contract.expires_at_unix (serve world setup req s).1.consumed_nonces
  unfolding continue
  accepted-Held req r s e accepted (refusal x t at same marked) = cc (accepted, ap (λ q. q.0) at)
  accepted-Held req r s e accepted
        (admission expires_at now t at same verified at_now fresh consumed reads) =
      let g = serve-IsGuarded world setup req r e in
      let expiry = accepted_expiry world.body _ _ _ r.body r.contract expires_at verified in
      let held : Held r.contract.nonce r.contract.expires_at_unix t.consumed_nonces = record {
        expiry = expires_at;
        found = ap (lookup r.contract.nonce) consumed ∙ lookup-insert_self r.contract.nonce _ _;
        late = omega arith;
      } in
      subst (λ q. Held r.contract.nonce r.contract.expires_at_unix q.1.consumed_nonces)
        (sym (g.guarded s ∙ ap (λ q. continue q (λ _. g.rest)) at))
        (continue-Held r.contract.nonce r.contract.expires_at_unix t g.rest g.steady held)

  -- A contract that a route has accepted is not accepted again, by any route and with any
  -- request, after any further requests and sweeps, as long as no reading of the clock since then,
  -- up to the one where its nonce would be looked up again, is later than its expiry. A reading may
  -- fail, and the clock may go back. No contract of the same nonce that came in between expires
  -- earlier, and the time of issue is a 64-bit number.
  pub replay_refused :
      (req again : HttpRequest) (r q : Signed) (s : AppState) (events : List Event)
      → signed_of req ≡ some r
      → signed_of again ≡ some q
      → q.contract.nonce ≡ r.contract.nonce
      → q.contract.issued_at_unix ≤ u64_max
      → (authorize world setup r s).0 ≡ ok tt
      → AllSpare r.contract.nonce r.contract.expires_at_unix events
      → ReadsBy world.clock
          (serve world setup req s).1.clock_reads
          ((run world setup events (serve world setup req s).1).clock_reads + 1)
          r.contract.expires_at_unix
      → Refusal world setup
          (run world setup events (serve world setup req s).1)
          (serve world setup again (run world setup events (serve world setup req s).1))
  replay_refused req again r q s events e e' same fits accepted spare in_time =
      let u = (serve world setup req s).1 in
      let t = run world setup events u in
      let held =
        run-Held world setup r.contract.nonce r.contract.expires_at_unix events u spare in_time
          (accepted-Held req r s e accepted (authorize-Outcome world setup r s)) in
      let onward = run-reads world setup r.contract.nonce r.contract.expires_at_unix events u in
      elim (serve_authorized world setup again q t e' fits) [
        | inl refused ↦ refused
        | inr admitted ↦
            let on_time =
              in_time (t.clock_reads + 1) admitted.now (omega arith) (omega arith) admitted.clock in
            let still =
              Held-retain r.contract.nonce r.contract.expires_at_unix admitted.now t.consumed_nonces
                on_time held in
            cc (still.found, admitted.fresh, same)
      ]

  -- The acceptance of a contract.
  pub authorize-accepts :
      (r : Signed) (s : AppState) (expires_at now : ℕ)
      → verify world.body
          (outside_at world s.clock_reads)
          setup.runtime_control_secret
          (expected_request r.operation r.body)
          r.body
          r.contract
        ≡ Auth.ok expires_at
      → world.clock (s.clock_reads + 1) ≡ some now
      → lookup r.contract.nonce (retain_unexpired now s.consumed_nonces) ≡ none
      → authorize world setup r s ≡ (
        ok tt,
        record s {
          clock_reads = s.clock_reads + 1 + 1;
          consumed_nonces =
              insert r.contract.nonce expires_at (retain_unexpired now s.consumed_nonces);
        },
      )
  unfolding authorize_runtime_request ◌>>=◌ continue verify_request read_clock consume
      consume_runtime_nonce now_unix
  authorize-accepts r s expires_at now verified at_now fresh =
      rw (verified, continue) (unfold outside_at in rw (at_now, fresh))

  forgotten :
      (r : Signed) (s t : AppState) (now : ℕ)
      → authorize world setup r s ≡ (ok tt, t)
      → r.contract.expires_at_unix < now
      → Outcome world setup r s (authorize world setup r s)
      → lookup r.contract.nonce (retain_unexpired now t.consumed_nonces) ≡ none
  forgotten r s t now accepted past (refusal x u at same marked) =
      cc (ap (λ q. q.0) accepted, ap (λ q. q.0) at)
  forgotten r s t now accepted past
        (admission expires_at first u at same verified at_now fresh consumed reads) =
      let expiry = accepted_expiry world.body _ _ _ r.body r.contract expires_at verified in
      ap (λ q. lookup r.contract.nonce (retain_unexpired now q.1.consumed_nonces))
        (sym accepted ∙ at)
      ∙ ap (λ d. lookup r.contract.nonce (retain_unexpired now d)) consumed
      ∙ lookup-retain-insert r.contract.nonce expires_at now _ fresh (omega arith)

  -- A contract that was just accepted is accepted once more, where it is verified before it
  -- expires and the clock passes its expiry before the nonce is looked up.
  pub replay_at_expiry :
      (r : Signed) (s t : AppState) (expires_at now : ℕ)
      → authorize world setup r s ≡ (ok tt, t)
      → verify world.body
          (outside_at world t.clock_reads)
          setup.runtime_control_secret
          (expected_request r.operation r.body)
          r.body
          r.contract
        ≡ Auth.ok expires_at
      → world.clock (t.clock_reads + 1) ≡ some now
      → r.contract.expires_at_unix < now
      → (authorize world setup r t).0 ≡ ok tt
  replay_at_expiry r s t expires_at now accepted verified at_now past =
      ap (λ q. q.0)
        (authorize-accepts r t expires_at now verified at_now
          (forgotten r s t now accepted past (authorize-Outcome world setup r s)))
