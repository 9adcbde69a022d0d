-- ===== src/Auth.antt =====
-- The authentication of the requests that the runtime host's HTTP service receives,
-- cert/beamscale-critical-section/infra-runtime-host/src/runtime_auth.rs.
pub mod Compare
pub mod Hex
pub mod Canonical
pub mod Checks
pub mod Verify
mod Examples
use Prim.Native.Nat.{bit_or, bit_xor}
use rust_app.Prelude.{
  ℕ, zero, suc, ◌+◌, ◌-◌, ◌/◌, ◌%◌, min, Bool, true, false, not, ◌&&◌, ◌||◌, Option, none, some,
  List, [], ◌∷◌, ◌++◌, map, ltb, leb, nat_eq, if◌then◌else◌, u64_max,
}
use rust_app.Prelude.Lists.{length, all}
use rust_app.Prelude.Text.{Text, bytes, text_eq}
use rust_app.Host.Path.{decimal, is_alphanumeric}

-- The messages of the `Err`s, one constructor each.
pub data AuthError : Type 0 where
  secret_required secret_too_short secret_invalid clock_before_epoch unsupported_contract
        identity_mismatch expired_or_invalid nonce_invalid digest_mismatch signature_mismatch :
      AuthError
  serialize : Text → AuthError

pub data Result (A : Type 0) : Type 0 where
  ok : A → Result A
  err : AuthError → Result A

-- The operator `?`.
abbrev pub and_then : {A B : Type 0} → Result A → (A → Result B) → Result B
and_then (ok x) k = k x
and_then (err e) k = err e

pub record RuntimeContract : Type 0 where
  pub version : Text
  pub operation : Text
  pub tenant_id : Text
  pub shard_id : Text
  pub execution_class : Text
  pub execution_backend : Text
  pub runtime_epoch : ℕ
  pub request_sha256 : Text
  pub issued_at_unix : ℕ
  pub expires_at_unix : ℕ
  pub nonce : Text
  pub signature : Text

pub record SignedRequest (T : Type 0) : Type 0 where
  pub contract : RuntimeContract
  pub request : T

pub record ExpectedRuntimeRequest : Type 0 where
  pub operation : Text
  pub tenant_id : Text
  pub shard_id : Text
  pub execution_class : Text
  pub execution_backend : Text
  pub runtime_epoch : ℕ

-- What is outside of the program: the seconds of the system clock, or nothing where it is before
-- 1970; the variable BMSCL_RUNTIME_CONTROL_SECRET, where it is UTF-8; and SHA-256.
pub record Outside : Type 0 where
  pub clock : Option ℕ
  pub secret_var : Option Text
  pub sha256 : Text → List ℕ

abbrev pub contract_version : Text
contract_version = bytes "bmscl.runtime-control.v1"

abbrev pub max_ttl_seconds : ℕ
max_ttl_seconds = 60

abbrev pub clock_skew_seconds : ℕ
clock_skew_seconds = 5

abbrev pub long_enough : Text → Result Text
long_enough secret = if ltb (length secret) 32 then err secret_too_short else ok secret

unfoldable pub load_secret : Outside → Result Text
load_secret outside = elim outside.secret_var [
  | none ↦ err secret_required
  | some value ↦ long_enough value
]

unfoldable pub now_unix : Outside → Result ℕ
now_unix outside = elim outside.clock [ none ↦ err clock_before_epoch | some now ↦ ok now ]

abbrev pub hex_digit : ℕ → ℕ
hex_digit d = if ltb d 10 then b'0' + d else b'a' + (d - 10)

-- `{byte:02x}` of each byte.
unfoldable pub hex_lower : List ℕ → Text
hex_lower [] = []
hex_lower (x ∷ l) = hex_digit (x / 16) ∷ hex_digit (x % 16) ∷ hex_lower l

-- The loop of `constant_time_eq`, over the zip of its two arguments.
unfoldable pub diff_from : ℕ → Text → Text → ℕ
diff_from diff (a ∷ left) (b ∷ right) = diff_from (bit_or diff (bit_xor a b)) left right
diff_from diff _ _ = diff

unfoldable pub constant_time_eq : Text → Text → Bool
constant_time_eq left right =
    if not (nat_eq (length left) (length right)) then false else nat_eq (diff_from 0 left right) 0

-- The array of `n` bytes that starts with the given ones and is zero after them.
unfoldable pub padded : ℕ → List ℕ → List ℕ
padded zero l = []
padded (suc n) [] = 0 ∷ padded n []
padded (suc n) (x ∷ l) = x ∷ padded n l

unfoldable pub hmac_key : Outside → Text → List ℕ
hmac_key outside secret =
    padded 64 (if ltb 64 (length secret) then outside.sha256 secret else secret)

unfoldable pub hmac_sha256 : Outside → Text → Text → List ℕ
hmac_sha256 outside secret message =
    let key = hmac_key outside secret in
    outside.sha256 (map (bit_xor 0x5c) key ++ outside.sha256 (map (bit_xor 0x36) key ++ message))

-- `"{}\n"` in front of a text.
unfoldable pub line : Text → Text → Text
line field rest = field ++ (10 ∷ rest)

unfoldable pub canonical : RuntimeContract → Text → Text
canonical contract digest = line contract.version (
    line contract.operation (
      line contract.tenant_id (
        line contract.shard_id (
          line contract.execution_class (
            line contract.execution_backend (
              line (decimal contract.runtime_epoch) (
                line digest (
                  line (decimal contract.issued_at_unix)
                    (line (decimal contract.expires_at_unix) (line contract.nonce []))))))))))

unfoldable pub signature_for : Outside → Text → RuntimeContract → Text → Text
signature_for outside secret contract digest =
    hex_lower (hmac_sha256 outside secret (canonical contract digest))

unfoldable pub same_identity : RuntimeContract → ExpectedRuntimeRequest → Bool
same_identity contract expected =
    text_eq contract.operation expected.operation
    && text_eq contract.tenant_id expected.tenant_id
    && text_eq contract.shard_id expected.shard_id
    && text_eq contract.execution_class expected.execution_class
    && text_eq contract.execution_backend expected.execution_backend
    && nat_eq contract.runtime_epoch expected.runtime_epoch

unfoldable pub out_of_window : ℕ → RuntimeContract → Bool
out_of_window now contract =
    ltb (min (now + clock_skew_seconds) u64_max) contract.issued_at_unix
    || ltb contract.expires_at_unix now
    || leb contract.expires_at_unix contract.issued_at_unix
    || ltb max_ttl_seconds (contract.expires_at_unix - contract.issued_at_unix)

abbrev pub is_nonce_byte : ℕ → Bool
is_nonce_byte b = is_alphanumeric b || nat_eq b b'-' || nat_eq b b'_'

unfoldable pub bad_nonce : Text → Bool
bad_nonce nonce = ltb (length nonce) 16 || ltb 128 (length nonce) || not (all is_nonce_byte nonce)

-- `serde_json::to_vec` is a parameter, as `Serialize` is of the source.
module _ {T : Type 0} (to_vec : T → Result Text) (outside : Outside) where
  unfoldable pub request_sha256 : T → Result Text
  request_sha256 request = and_then (to_vec request) λ body. ok (hex_lower (outside.sha256 body))

  -- What `verify` does once it has the digest of the request.
  unfoldable pub signed : Text → RuntimeContract → Text → Result ℕ
  signed secret contract digest =
      if not (constant_time_eq contract.request_sha256 digest)
      then err digest_mismatch
      else if not
          (constant_time_eq contract.signature (signature_for outside secret contract digest))
      then err signature_mismatch
      else ok contract.expires_at_unix

  -- What `verify` does once it has the time.
  unfoldable pub verified_at : Text → ExpectedRuntimeRequest → T → RuntimeContract → ℕ → Result ℕ
  verified_at secret expected request contract now =
      if not (text_eq contract.version contract_version)
      then err unsupported_contract
      else if not (same_identity contract expected)
      then err identity_mismatch
      else if out_of_window now contract
      then err expired_or_invalid
      else if bad_nonce contract.nonce
      then err nonce_invalid
      else and_then (request_sha256 request) (signed secret contract)

  unfoldable pub verify : Text → ExpectedRuntimeRequest → T → RuntimeContract → Result ℕ
  verify secret expected request contract =
      if ltb (length secret) 32
      then err secret_invalid
      else and_then (now_unix outside) (verified_at secret expected request contract)
