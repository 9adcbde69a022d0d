-- ===== src/Service/Admission.antt =====
-- What the HTTP service does with a signed request, and the nonces of the contracts that it has
-- accepted: cert/beamscale-critical-section/infra-runtime-host/src/main.rs.
use mathlib.Core.Path.{subst}
use rust_app.Prelude.{◌∙◌, ℕ, ◌+◌, ◌≤◌, ◌≡◌, sym, ap, ◌⊎◌, inl, inr, none, some, u64_max}
use rust_app.Prelude.Dict.{lookup, lookup-insert_self}
use rust_app.Prelude.BTree.{text_key}
use rust_app.Prelude.Result.{Result, err}
use rust_app.Auth.Verify.{Authentic, verify_iff}
use rust_app.Service.Types.{ApiError, Answer}
use rust_app.Service.State.{World, Setup, AppState, continue}
use rust_app.Service.Authority.{outside_at, expected_request, retain_unexpired}
use rust_app.Service.Guest.{HttpRequest, serve}
use rust_app.Service.Authorized.Guards.{
  Signed, signed_of, authorize, IsGuarded, serve-IsGuarded, Untouched,
}
use rust_app.Service.Authorized.{Outcome, refusal, admission, authorize-Outcome}

module _ (world : World) (setup : Setup) where
  pub record Refusal (s : AppState) (p : Result ApiError Answer × AppState) : Type 0 where
    pub error : ApiError
    pub answered : p.0 ≡ err error
    pub untouched : Untouched s p.1

  -- The request is authentic at the reading of `s`, its nonce is fresh, and consumed in `t`.
  pub record Admission (r : Signed) (s t : AppState) : Type 0 where
    pub authentic :
        Authentic world.body
          (outside_at world s.clock_reads)
          setup.runtime_control_secret
          (expected_request r.operation r.body)
          r.body
          r.contract
    pub now : ℕ
    pub clock : world.clock (s.clock_reads + 1) ≡ some now
    pub fresh : lookup r.contract.nonce (retain_unexpired now s.consumed_nonces) ≡ none
    pub consumed : lookup r.contract.nonce t.consumed_nonces ≡ some r.contract.expires_at_unix

  served :
      (req : HttpRequest) (r : Signed) (s : AppState) (g : IsGuarded world setup req r)
      → r.contract.issued_at_unix ≤ u64_max
      → Outcome world setup r s (authorize world setup r s)
      → Refusal s (serve world setup req s) ⊎ Admission r s (serve world setup req s).1
  unfolding continue
  served req r s g fits (refusal e t p same marked) =
      let after : serve world setup req s ≡ (err e, t) =
        g.guarded s ∙ ap (λ q. continue q (λ _. g.rest)) p in
      inl (record {
        error = e;
        answered = ap (λ q. q.0) after;
        untouched = subst (Untouched s) (sym (ap (λ q. q.1) after)) same;
      })
  served req r s g fits (admission expires_at now t p same verified at_now fresh consumed reads) =
      let after : serve world setup req s ≡ g.rest t =
        g.guarded s ∙ ap (λ q. continue q (λ _. g.rest)) p in
      let (authentic, expiry) =
        (verify_iff world.body _ _ _ r.body r.contract expires_at fits).0 verified in
      inr (record {
        authentic = authentic;
        now = now;
        clock = at_now;
        fresh = fresh;
        consumed =
            ap (λ q. lookup r.contract.nonce q.1.consumed_nonces) after
            ∙ ap (lookup r.contract.nonce) ((g.steady.step t).same_nonces ∙ consumed)
            ∙ lookup-insert_self r.contract.nonce expires_at _
            ∙ ap some expiry;
      })

  -- A signed request is refused, and then neither the host nor the store nor a guest is called
  -- and what is observed stays, or its contract is authentic for the operation of its route and
  -- for who the request is for, its nonce has not been consumed by a contract that is still
  -- unexpired, and is consumed from then on. The time of issue is a 64-bit number.
  pub serve_authorized :
      (req : HttpRequest) (r : Signed) (s : AppState)
      → signed_of req ≡ some r
      → r.contract.issued_at_unix ≤ u64_max
      → Refusal s (serve world setup req s) ⊎ Admission r s (serve world setup req s).1
  serve_authorized req r s e fits =
      served req r s (serve-IsGuarded world setup req r e) fits (authorize-Outcome world setup r s)
