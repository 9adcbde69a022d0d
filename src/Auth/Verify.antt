-- ===== src/Auth/Verify.antt =====
-- The requests that `verify` accepts, of
-- cert/beamscale-critical-section/infra-runtime-host/src/runtime_auth.rs.
use rust_app.Prelude.{ap, ◌∙◌, sym, ℕ, ◌≤◌, ◌≡◌, ◌↔◌, refl, false, some, arith, u64_max, ltb, not}
use rust_app.Prelude.Lists.{length}
use rust_app.Prelude.Text.{Text, text_eq_iff}
use rust_app.Auth.{
  secret_invalid, and_then, Result, ok, RuntimeContract, ExpectedRuntimeRequest, Outside,
  contract_version, now_unix, hex_lower, signature_for, out_of_window, request_sha256, signed,
  verified_at, verify,
}
use rust_app.Auth.Compare.{constant_time_eq_iff}
use rust_app.Auth.Hex.{AreBytes, hex_lower-injective}
use rust_app.Auth.Checks.{
  IsExpected, IsCurrent, IsNonce, same_identity_iff, out_of_window_iff, bad_nonce_iff, if_err,
  and_then-ok, if_ok, and_then_ok, not-false,
}

module _ {T : Type 0} (to_vec : T → Result Text) (outside : Outside) where
  -- The contract stands for this request, for who expects it, and is signed with the secret.
  pub record Authentic (secret : Text) (expected : ExpectedRuntimeRequest) (request : T)
      (contract : RuntimeContract) : Type 0 where
    pub secret_long : 32 ≤ length secret
    pub now : ℕ
    pub clock : outside.clock ≡ some now
    pub version : contract.version ≡ contract_version
    pub identity : IsExpected contract expected
    pub current : IsCurrent now contract
    pub nonce : IsNonce contract.nonce
    pub body : Text
    pub serialized : to_vec request ≡ ok body
    pub digest : contract.request_sha256 ≡ hex_lower (outside.sha256 body)
    pub signature :
        contract.signature ≡ signature_for outside secret contract contract.request_sha256

  signed-ok :
      (secret : Text) (contract : RuntimeContract) (digest : Text) (t : ℕ)
      → signed to_vec outside secret contract digest ≡ ok t
      → (contract.request_sha256 ≡ digest)
        × (contract.signature ≡ signature_for outside secret contract digest)
        × (t ≡ contract.expires_at_unix)
  unfolding signed
  signed-ok secret contract digest t h =
      let same_digest = constant_time_eq_iff contract.request_sha256 digest in
      let same_signature =
        constant_time_eq_iff contract.signature (signature_for outside secret contract digest) in
      ground (arith, same_digest.0, same_signature.0)

  verified_at-ok :
      (secret : Text) (expected : ExpectedRuntimeRequest) (request : T) (contract : RuntimeContract)
      (now t : ℕ)
      → verified_at to_vec outside secret expected request contract now ≡ ok t
      → (contract.version ≡ contract_version)
        × IsExpected contract expected
        × (out_of_window now contract ≡ false)
        × IsNonce contract.nonce
        × ((body : Text) × (to_vec request ≡ ok body)
            × (signed to_vec outside secret contract (hex_lower (outside.sha256 body)) ≡ ok t))
  unfolding verified_at request_sha256
  verified_at-ok secret expected request contract now t h =
      let (version, h1) = if_err _ _ _ t h in
      let (identity, h2) = if_err _ _ _ t h1 in
      let (current, h3) = if_err _ _ _ t h2 in
      let (nonce, h4) = if_err _ _ _ t h3 in
      let (_, digested, h5) = and_then-ok _ _ t h4 in
      let (body, serialized, same) = and_then-ok _ _ _ digested in
      (
        (text_eq_iff contract.version contract_version).0 (not-false _ version),
        (same_identity_iff contract expected).0 (not-false _ identity),
        current,
        (bad_nonce_iff contract.nonce).0 nonce,
        (body, serialized, cc h5),
      )

  now_unix-ok : (now : ℕ) → now_unix outside ≡ ok now → outside.clock ≡ some now
  unfolding now_unix
  now_unix-ok now h = ground arith

  verify-ok :
      (secret : Text) (expected : ExpectedRuntimeRequest) (request : T) (contract : RuntimeContract)
      (t : ℕ)
      → verify to_vec outside secret expected request contract ≡ ok t
      → (ltb (length secret) 32 ≡ false)
        × ((now : ℕ) × (now_unix outside ≡ ok now)
            × (verified_at to_vec outside secret expected request contract now ≡ ok t))
  unfolding verify
  verify-ok secret expected request contract t h =
      let rest = verified_at to_vec outside secret expected request contract in
      let (long, h1) =
        if_err (ltb (length secret) 32) secret_invalid (and_then (now_unix outside) rest) t h in
      (long, and_then-ok (now_unix outside) rest t h1)

  verify-Authentic :
      (secret : Text) (expected : ExpectedRuntimeRequest) (request : T) (contract : RuntimeContract)
      (t : ℕ)
      → contract.issued_at_unix ≤ u64_max
      → verify to_vec outside secret expected request contract ≡ ok t
      → Authentic secret expected request contract × (t ≡ contract.expires_at_unix)
  verify-Authentic secret expected request contract t fits h =
      let (long, (now, at_now, h2)) = verify-ok secret expected request contract t h in
      let (version, identity, current, nonce, (body, serialized, h3)) =
        verified_at-ok secret expected request contract now t h2 in
      let (digest, signature, expires) = signed-ok secret contract _ t h3 in
      (
        record {
          secret_long = ground arith;
          now = now;
          clock = now_unix-ok now at_now;
          version = version;
          identity = identity;
          current = (out_of_window_iff now contract fits).0 current;
          nonce = nonce;
          body = body;
          serialized = serialized;
          digest = digest;
          signature = signature ∙ ap (signature_for outside secret contract) (sym digest);
        },
        expires,
      )

  Authentic-verify :
      (secret : Text) (expected : ExpectedRuntimeRequest) (request : T) (contract : RuntimeContract)
      → contract.issued_at_unix ≤ u64_max
      → Authentic secret expected request contract
      → verify to_vec outside secret expected request contract ≡ ok contract.expires_at_unix
  unfolding verify now_unix verified_at request_sha256 signed
  Authentic-verify secret expected request contract fits a =
      let long : ltb (length secret) 32 ≡ false = let h = a.secret_long in ground arith in
      let time : now_unix outside ≡ ok a.now = rw a.clock in
      let body : request_sha256 to_vec outside request ≡ ok (hex_lower (outside.sha256 a.body)) =
        rw a.serialized in
      let signature = a.signature ∙ ap (signature_for outside secret contract) a.digest in
      if_ok _ _ _ _ long (
        and_then_ok _ _ _ _ time (
          if_ok _ _ _ _ (ap not ((text_eq_iff _ _).1 a.version)) (
            if_ok _ _ _ _ (ap not ((same_identity_iff _ _).1 a.identity)) (
              if_ok _ _ _ _ ((out_of_window_iff _ _ fits).1 a.current) (
                if_ok _ _ _ _ ((bad_nonce_iff _).1 a.nonce) (
                  and_then_ok _ _ _ _ body (
                    if_ok _ _ _ _ (ap not ((constant_time_eq_iff _ _).1 a.digest))
                      (if_ok _ _ _ _ (ap not ((constant_time_eq_iff _ _).1 signature)) refl))))))))

  -- `verify` accepts a request with the given expiry exactly if the secret has 32 bytes or more,
  -- the clock works, the contract has this version and is for who expects it, it was issued at
  -- most five seconds ahead and is valid for one to sixty seconds that have not passed, its nonce
  -- has the right form, it carries the digest of the serialized request and is signed with the
  -- secret, and the expiry is the contract's. The time of issue is a 64-bit number.
  pub verify_iff :
      (secret : Text) (expected : ExpectedRuntimeRequest) (request : T) (contract : RuntimeContract)
      (t : ℕ)
      → contract.issued_at_unix ≤ u64_max
      → (verify to_vec outside secret expected request contract ≡ ok t)
        ↔ (Authentic secret expected request contract × (t ≡ contract.expires_at_unix))
  verify_iff secret expected request contract t fits = (
    verify-Authentic secret expected request contract t fits,
    λ h. rw (h.1) (Authentic-verify secret expected request contract fits h.0),
  )

  accepted_digest :
      (secret : Text) (expected : ExpectedRuntimeRequest) (request : T) (contract : RuntimeContract)
      (t : ℕ) (body : Text)
      → to_vec request ≡ ok body
      → verify to_vec outside secret expected request contract ≡ ok t
      → contract.request_sha256 ≡ hex_lower (outside.sha256 body)
  accepted_digest secret expected request contract t body serialized h =
      let (_, (now, _, h2)) = verify-ok secret expected request contract t h in
      let (_, _, _, _, (found, e, h3)) = verified_at-ok secret expected request contract now t h2 in
      let (same, _, _) = signed-ok secret contract _ t h3 in cc (same, e, serialized)

  pub accepted_expiry :
      (secret : Text) (expected : ExpectedRuntimeRequest) (request : T) (contract : RuntimeContract)
      (t : ℕ)
      → verify to_vec outside secret expected request contract ≡ ok t
      → t ≡ contract.expires_at_unix
  accepted_expiry secret expected request contract t h =
      let (_, (now, _, h2)) = verify-ok secret expected request contract t h in
      let (_, _, _, _, (_, _, h3)) = verified_at-ok secret expected request contract now t h2 in
      (signed-ok secret contract _ t h3).2

module _ {T : Type 0} (to_vec : T → Result Text) (outside later : Outside) where
  -- A contract that is accepted with two requests, at two moments, carries the same SHA-256 digest
  -- for both: the body cannot be changed without a collision. SHA-256 is the same at both moments,
  -- and gives bytes.
  pub accepted_same_digest :
      (secret other : Text) (expected wanted : ExpectedRuntimeRequest) (request changed : T)
      (contract : RuntimeContract) (t u : ℕ) (body changed_body : Text)
      → ((x : Text) → later.sha256 x ≡ outside.sha256 x)
      → ((x : Text) → AreBytes (outside.sha256 x))
      → to_vec request ≡ ok body
      → to_vec changed ≡ ok changed_body
      → verify to_vec outside secret expected request contract ≡ ok t
      → verify to_vec later other wanted changed contract ≡ ok u
      → outside.sha256 body ≡ outside.sha256 changed_body
  accepted_same_digest secret other expected wanted request changed contract t u body changed_body
        same sha e e' h h' =
      hex_lower-injective _ _ (sha body) (sha changed_body) (
        sym (accepted_digest to_vec outside secret expected request contract t body e h)
        ∙ accepted_digest to_vec later other wanted changed contract u changed_body e' h'
        ∙ ap hex_lower (same changed_body))
