-- ===== src/Service/Replay.antt =====
-- Contracts that come twice: the consumed nonces of the HTTP service,
-- cert/beamscale-critical-section/infra-runtime-host/src/main.rs.
use mathlib.Core.Path.{subst}
use rust_app.Prelude.{
  ◌∙◌, ℕ, ◌+◌, ◌≤◌, ◌≡◌, refl, sym, ap, inl, inr, Option, some, List, [], ◌∷◌, arith, Option-cases,
}
use rust_app.Prelude.Text.{Text, text_eq_iff}
use rust_app.Prelude.Dict.{lookup, insert, lookup-insert_self, lookup-insert_ne, eq_cases}
use rust_app.Prelude.BTree.{text_key}
use rust_app.Prelude.Result.{Result, ok, err}
use rust_app.Auth.Verify.{accepted_expiry}
use rust_app.Service.Types.{ApiError}
use rust_app.Service.State.{World, Setup, AppState, Handler, continue}
use rust_app.Service.Authority.{retain_unexpired}
use rust_app.Service.Handlers.{sweep}
use rust_app.Service.Guest.{HttpRequest, serve, sweep_round, request, Event, handle, run}
use rust_app.Service.Steps.{Steady}
use rust_app.Service.Authorized.Guards.{Signed, signed_of, serve-IsGuarded, open-Steady}
use rust_app.Service.Authorized.{Outcome, refusal, admission, authorize-Outcome, Marked}

-- No reading of the clock from one to another is later than a time. It may fail, and go back.
abbrev pub ReadsBy : (ℕ → Option ℕ) → ℕ → ℕ → ℕ → Type 0
ReadsBy clock first last until =
    (n now : ℕ) → first ≤ n → n ≤ last → clock n ≡ some now → now ≤ until

-- A nonce that has not expired is retained.
lookup-retain :
    (now e : ℕ) (nonce : Text) (d : List (Text × ℕ))
    → lookup nonce d ≡ some e
    → now ≤ e
    → lookup nonce (retain_unexpired now d) ≡ some e
unfolding lookup retain_unexpired
lookup-retain now e nonce [] at h = cc
lookup-retain now e nonce ((n, x) ∷ d) at h =
    ground (arith, text_eq_iff nonce n, lookup-retain now e nonce d)

-- A nonce is consumed up to a time or beyond.
pub record Held (nonce : Text) (until : ℕ) (d : List (Text × ℕ)) : Type 0 where
  pub expiry : ℕ
  pub found : lookup nonce d ≡ some expiry
  pub late : until ≤ expiry

pub Held-retain :
    (nonce : Text) (until now : ℕ) (d : List (Text × ℕ))
    → now ≤ until
    → Held nonce until d
    → Held nonce until (retain_unexpired now d)
Held-retain nonce until now d h v =
    let later = v.late in
    record {
      expiry = v.expiry;
      found = lookup-retain now v.expiry nonce d v.found (omega arith);
      late = later;
    }

Held-insert :
    (nonce other : Text) (until expiry : ℕ) (d : List (Text × ℕ))
    → (other ≡ nonce → until ≤ expiry)
    → Held nonce until d
    → Held nonce until (insert other expiry d)
Held-insert nonce other until expiry d late v = elim (eq_cases nonce other) [
  | inl here ↦ record {
    expiry = expiry;
    found = rw here (lookup-insert_self other expiry d);
    late = late (sym here);
  }
  | inr apart ↦ record {
    expiry = v.expiry;
    found = lookup-insert_ne nonce other expiry d apart ∙ v.found;
    late = v.late;
  }
]

-- A contract of the given nonce that an event brings expires no earlier than the given time.
abbrev pub Spares : Text → ℕ → Event → Type 0
Spares nonce until sweep_round = Unit
Spares nonce until (request req) =
    (r : Signed)
    → signed_of req ≡ some r
    → r.contract.nonce ≡ nonce
    → until ≤ r.contract.expires_at_unix

abbrev pub AllSpare : Text → ℕ → List Event → Type 0
AllSpare nonce until [] = Unit
AllSpare nonce until (event ∷ events) = Spares nonce until event × AllSpare nonce until events

module _ (world : World) (setup : Setup) (nonce : Text) (until : ℕ) where
  Marked-Held :
      (r : Signed) (s t : AppState)
      → (r.contract.nonce ≡ nonce → until ≤ r.contract.expires_at_unix)
      → ((now : ℕ) → world.clock (s.clock_reads + 1) ≡ some now → now ≤ until)
      → Marked world setup r s t
      → Held nonce until s.consumed_nonces
      → Held nonce until t.consumed_nonces
  Marked-Held r s t spares in_time m v = elim m.nonces [
    | inl same ↦ subst (Held nonce until) (sym same) v
    | inr (now, at_now, new) ↦ subst (Held nonce until) (sym new) (
        Held-insert nonce r.contract.nonce until _ _ spares
          (Held-retain nonce until now s.consumed_nonces (in_time now at_now) v))
  ]

  outcome-Marked :
      (r : Signed) (s : AppState) (p : Result ApiError (Unit {0}) × AppState)
      → Outcome world setup r s p
      → Marked world setup r s p.1
  outcome-Marked r s p (refusal e t at same marked) =
      subst (Marked world setup r s) (sym (ap (λ q. q.1) at)) marked
  outcome-Marked r s p (admission expires_at now t at same verified at_now fresh consumed reads) =
      let expiry = accepted_expiry world.body _ _ _ r.body r.contract expires_at verified in
      subst (Marked world setup r s) (sym (ap (λ q. q.1) at)) (record {
        reads_up = omega arith;
        nonces = inr (
          now,
          at_now,
          consumed
              ∙ ap (λ e. insert r.contract.nonce e (retain_unexpired now s.consumed_nonces)) expiry,
        );
      })

  continue-Marked :
      {A : Type 0} (r : Signed) (s : AppState) (p : Result ApiError (Unit {0}) × AppState)
      (rest : Handler A)
      → Steady rest
      → Marked world setup r s p.1
      → Marked world setup r s (continue p (λ _. rest)).1
  unfolding continue
  continue-Marked r s (ok _, t) rest steady m =
      let st = steady.step t in
      record {
        reads_up = omega (arith, m.reads_up, st.same_reads);
        nonces = elim m.nonces [
          | inl same ↦ inl (st.same_nonces ∙ same)
          | inr (now, at_now, new) ↦ inr (now, at_now, st.same_nonces ∙ new)
        ];
      }
  continue-Marked r s (err e, t) rest steady m = m

  served-Marked :
      (req : HttpRequest) (r : Signed) (s : AppState)
      → signed_of req ≡ some r
      → Marked world setup r s (serve world setup req s).1
  served-Marked req r s e =
      let g = serve-IsGuarded world setup req r e in
      subst (λ q. Marked world setup r s q.1) (sym (g.guarded s))
        (continue-Marked r s _ g.rest g.steady
          (outcome-Marked r s _ (authorize-Outcome world setup r s)))

  -- An event that is no signed request leaves the nonces and the readings alone.
  pub data Effect (s : AppState) (event : Event) (t : AppState) : Type 0 where
    none_signed :
        t.consumed_nonces ≡ s.consumed_nonces → t.clock_reads ≡ s.clock_reads → Effect s event t
    one_signed :
        (req : HttpRequest) (r : Signed)
        → event ≡ request req
        → signed_of req ≡ some r
        → Marked world setup r s t
        → Effect s event t

  handle-Effect : (event : Event) (s : AppState) → Effect s event (handle world setup event s)
  unfolding handle sweep
  handle-Effect sweep_round s = none_signed refl refl
  handle-Effect (request req) s = elim (Option-cases (signed_of req)) [
    | inl e ↦
        let st = (open-Steady world setup req e).step s in none_signed st.same_nonces st.same_reads
    | inr (r, e) ↦ one_signed req r refl e (served-Marked req r s e)
  ]

  Effect-reads : (event : Event) (s t : AppState) → Effect s event t → s.clock_reads ≤ t.clock_reads
  Effect-reads event s t (none_signed same reads) = omega arith
  Effect-reads event s t (one_signed req r e e' m) = m.reads_up

  pub run-reads :
      (events : List Event) (s : AppState) → s.clock_reads ≤ (run world setup events s).clock_reads
  unfolding run
  run-reads [] s = omega arith
  run-reads (event ∷ events) s =
      let t = handle world setup event s in
      omega (arith, Effect-reads event s t (handle-Effect event s), run-reads events t)

  Effect-Held :
      (event : Event) (s t : AppState)
      → Spares nonce until event
      → ((now : ℕ) → world.clock (s.clock_reads + 1) ≡ some now → now ≤ until)
      → Effect s event t
      → Held nonce until s.consumed_nonces
      → Held nonce until t.consumed_nonces
  Effect-Held event s t spares in_time (none_signed same reads) v =
      subst (Held nonce until) (sym same) v
  Effect-Held event s t spares in_time (one_signed req r e e' m) v =
      Marked-Held r s t (subst (Spares nonce until) e spares r e') in_time m v

  -- A consumed nonce is consumed after further events, while its time has not passed.
  pub run-Held :
      (events : List Event) (s : AppState)
      → AllSpare nonce until events
      → ReadsBy world.clock s.clock_reads ((run world setup events s).clock_reads + 1) until
      → Held nonce until s.consumed_nonces
      → Held nonce until (run world setup events s).consumed_nonces
  unfolding run
  run-Held [] s spare in_time v = v
  run-Held (event ∷ events) s (here, later) in_time v =
      let t = handle world setup event s in
      let effect = handle-Effect event s in
      let onward = Effect-reads event s t effect in
      let ahead = run-reads events t in
      run-Held events t later (λ n now first last at. in_time n now (omega arith) last at)
        (Effect-Held event s t here
          (λ now at. in_time (s.clock_reads + 1) now (omega arith) (omega arith) at) effect v)
