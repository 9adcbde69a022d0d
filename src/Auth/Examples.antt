-- ===== src/Auth/Examples.antt =====
-- The theorems on the authentication at a concrete secret, request and contract.
use rust_app.Prelude.{ℕ, ◌≤◌, ◌≡◌, ◌↔◌, refl, sym, true, some, [], ◌∷◌, ◌%◌, arith}
use rust_app.Prelude.Lists.{length}
use rust_app.Prelude.Text.{Text, bytes}
use rust_app.Host.Path.{decimal}
use rust_app.Auth.{
  Result, ok, Outside, RuntimeContract, ExpectedRuntimeRequest, contract_version, hex_lower,
  constant_time_eq, signature_for, canonical, verify, hmac_sha256, hmac_key,
}
use rust_app.Auth.Compare.{constant_time_eq_iff}
use rust_app.Auth.Hex.{AreBytes}
use rust_app.Auth.Canonical.{IsPlain, IsSameSigned, canonical-injective}
use rust_app.Auth.Verify.{Authentic, verify_iff, accepted_same_digest}

-- A stand-in for SHA-256 that gives one byte.
abbrev outside : Outside
outside = record {
  clock = some 1700000010;
  secret_var = some (bytes "0123456789abcdef0123456789abcdef");
  sha256 = λ x. length x % 256 ∷ [];
}

abbrev secret : Text
secret = bytes "0123456789abcdef0123456789abcdef"

abbrev to_vec : ℕ → Result Text
to_vec n = ok (decimal n)

abbrev unsigned : RuntimeContract
unsigned = record {
  version = contract_version;
  operation = bytes "invoke";
  tenant_id = bytes "tenant-a";
  shard_id = bytes "0";
  execution_class = bytes "phoenix";
  execution_backend = bytes "firecracker";
  runtime_epoch = 7;
  request_sha256 = bytes "02";
  issued_at_unix = 1700000000;
  expires_at_unix = 1700000030;
  nonce = bytes "nonce-1234567890";
  signature = [];
}

abbrev contract : RuntimeContract
contract = record unsigned { signature = signature_for outside secret unsigned (bytes "02") }

abbrev expected : ExpectedRuntimeRequest
expected = record {
  operation = bytes "invoke";
  tenant_id = bytes "tenant-a";
  shard_id = bytes "0";
  execution_class = bytes "phoenix";
  execution_backend = bytes "firecracker";
  runtime_epoch = 7;
}

-- The same at another moment.
abbrev outside_at : ℕ → Outside
outside_at now = record outside { clock = some now }

contract-Authentic :
    (n now : ℕ)
    → hex_lower (outside.sha256 (decimal n)) ≡ bytes "02"
    → 1700000010 ≤ now
    → now ≤ 1700000030
    → Authentic to_vec (outside_at now) secret expected n contract
unfolding signature_for canonical hmac_sha256 hmac_key
contract-Authentic n now h early late = record {
  secret_long = omega arith;
  now = now;
  clock = refl;
  version = refl;
  identity = (refl, refl, refl, refl, refl, refl);
  current = (omega arith, omega arith, omega arith, omega arith);
  nonce = (omega arith, omega arith, refl);
  body = decimal n;
  serialized = refl;
  digest = sym h;
  signature = refl;
}

two_digits : hex_lower (outside.sha256 (decimal 42)) ≡ bytes "02"
unfolding hex_lower decimal
two_digits = refl

other_digits : hex_lower (outside.sha256 (decimal 57)) ≡ bytes "02"
unfolding hex_lower decimal
other_digits = refl

verify_iff_example : (verify to_vec outside secret expected 42 contract ≡ ok 1700000030) ↔ (
    Authentic to_vec outside secret expected 42 contract × (1700000030 ≡ contract.expires_at_unix))
verify_iff_example = verify_iff to_vec outside secret expected 42 contract 1700000030 (omega arith)

accepted :
    (n now : ℕ)
    → hex_lower (outside.sha256 (decimal n)) ≡ bytes "02"
    → 1700000010 ≤ now
    → now ≤ 1700000030
    → verify to_vec (outside_at now) secret expected n contract ≡ ok 1700000030
accepted n now h early late =
    (verify_iff to_vec (outside_at now) secret expected n contract 1700000030 (omega arith)).1
      (contract-Authentic n now h early late, refl)

one_byte : (x : Text) → AreBytes (outside.sha256 x)
one_byte x = (omega arith, tt)

accepted_same_digest_example : outside.sha256 (decimal 42) ≡ outside.sha256 (decimal 57)
accepted_same_digest_example =
    accepted_same_digest to_vec (outside_at 1700000010) (outside_at 1700000020) secret secret
      expected expected 42 57 contract 1700000030 1700000030 (decimal 42) (decimal 57) (λ x. refl)
      one_byte refl refl (accepted 42 1700000010 two_digits (omega arith) (omega arith))
      (accepted 57 1700000020 other_digits (omega arith) (omega arith))

unsigned-IsPlain : IsPlain unsigned
unsigned-IsPlain = record {
  version = ground arith;
  operation = ground arith;
  tenant_id = ground arith;
  shard_id = ground arith;
  execution_class = ground arith;
  execution_backend = ground arith;
  nonce = ground arith;
  runtime_epoch = omega arith;
  issued_at_unix = omega arith;
  expires_at_unix = omega arith;
}

canonical-injective_example : (bytes "02" ≡ bytes "02") × IsSameSigned unsigned unsigned
canonical-injective_example =
    canonical-injective unsigned unsigned (bytes "02") (bytes "02") unsigned-IsPlain
      unsigned-IsPlain (ground arith) (ground arith) refl

constant_time_eq_iff_example :
    (constant_time_eq (bytes "02") (bytes "03") ≡ true) ↔ (bytes "02" ≡ bytes "03")
constant_time_eq_iff_example = constant_time_eq_iff (bytes "02") (bytes "03")
