-- ===== src/Auth/Checks.antt =====
-- The checks of `verify` one by one, and its early returns, of
-- cert/beamscale-critical-section/infra-runtime-host/src/runtime_auth.rs.
use rust_app.Prelude.{
  if◌then◌else◌, ℕ, ◌+◌, ◌≤◌, ◌<◌, ◌≡◌, ◌↔◌, refl, Bool, true, false, arith, u64_max, not,
}
use rust_app.Prelude.Lists.{length, all}
use rust_app.Prelude.Text.{Text, text_eq_iff}
use rust_app.Auth.{
  and_then, Result, ok, err, AuthError, RuntimeContract, ExpectedRuntimeRequest, same_identity,
  out_of_window, bad_nonce, is_nonce_byte,
}

abbrev pub IsExpected : RuntimeContract → ExpectedRuntimeRequest → Type 0
IsExpected contract expected =
    (contract.operation ≡ expected.operation)
    × (contract.tenant_id ≡ expected.tenant_id)
    × (contract.shard_id ≡ expected.shard_id)
    × (contract.execution_class ≡ expected.execution_class)
    × (contract.execution_backend ≡ expected.execution_backend)
    × (contract.runtime_epoch ≡ expected.runtime_epoch)

-- Issued at most five seconds ahead, not expired, and valid for one to sixty seconds.
abbrev pub IsCurrent : ℕ → RuntimeContract → Type 0
IsCurrent now contract =
    (contract.issued_at_unix ≤ now + 5)
    × (now ≤ contract.expires_at_unix)
    × (contract.issued_at_unix < contract.expires_at_unix)
    × (contract.expires_at_unix ≤ contract.issued_at_unix + 60)

abbrev pub IsNonce : Text → Type 0
IsNonce nonce = (16 ≤ length nonce) × (length nonce ≤ 128) × (all is_nonce_byte nonce ≡ true)

pub same_identity_iff :
    (c : RuntimeContract) (e : ExpectedRuntimeRequest) → (same_identity c e ≡ true) ↔ IsExpected c e
unfolding same_identity
same_identity_iff c e =
    let operation = text_eq_iff c.operation e.operation in
    let tenant = text_eq_iff c.tenant_id e.tenant_id in
    let shard = text_eq_iff c.shard_id e.shard_id in
    let class = text_eq_iff c.execution_class e.execution_class in
    let backend = text_eq_iff c.execution_backend e.execution_backend in
    (
      λ h. ground (arith, operation.0, tenant.0, shard.0, class.0, backend.0),
      λ h. ground (arith, operation.1, tenant.1, shard.1, class.1, backend.1),
    )

pub out_of_window_iff :
    (now : ℕ) (c : RuntimeContract)
    → c.issued_at_unix ≤ u64_max
    → (out_of_window now c ≡ false) ↔ IsCurrent now c
unfolding out_of_window
out_of_window_iff now c fits = (λ h. ground arith, λ h. ground arith)

pub bad_nonce_iff : (nonce : Text) → (bad_nonce nonce ≡ false) ↔ IsNonce nonce
unfolding bad_nonce
bad_nonce_iff nonce = (λ h. ground arith, λ h. ground arith)

pub if_err :
    {A : Type 0} (b : Bool) (e : AuthError) (r : Result A) (t : A)
    → (if b then err e else r) ≡ ok t
    → (b ≡ false) × (r ≡ ok t)
if_err true e r t h = cc
if_err false e r t h = (refl, h)

pub and_then-ok :
    {A B : Type 0} (r : Result A) (k : A → Result B) (t : B)
    → and_then r k ≡ ok t
    → (x : A) × (r ≡ ok x) × (k x ≡ ok t)
and_then-ok (ok x) k t h = (x, refl, h)
and_then-ok (err e) k t h = cc

pub if_ok :
    {A : Type 0} (b : Bool) (e : AuthError) (r : Result A) (t : A)
    → b ≡ false
    → r ≡ ok t
    → (if b then err e else r) ≡ ok t
if_ok true e r t h h' = cc
if_ok false e r t h h' = h'

pub and_then_ok :
    {A B : Type 0} (r : Result A) (k : A → Result B) (x : A) (t : B)
    → r ≡ ok x
    → k x ≡ ok t
    → and_then r k ≡ ok t
and_then_ok r k x t e h = rw e h

pub not-false : (b : Bool) → not b ≡ false → b ≡ true
not-false b h = ground arith
