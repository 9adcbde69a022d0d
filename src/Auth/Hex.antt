-- ===== src/Auth/Hex.antt =====
-- The hexadecimal text of a digest, `hex_lower` of
-- cert/beamscale-critical-section/infra-runtime-host/src/runtime_auth.rs.
use rust_app.Prelude.{ℕ, ◌/◌, ◌%◌, ◌<◌, ◌≡◌, refl, List, [], ◌∷◌, arith}
use rust_app.Prelude.Lists.{All}
use rust_app.Auth.{hex_lower, hex_digit}

abbrev pub AreBytes : List ℕ → Type 0
AreBytes = All (λ x. x < 256)

hex_digit-injective : (d e : ℕ) → d < 16 → e < 16 → hex_digit d ≡ hex_digit e → d ≡ e
hex_digit-injective d e small small' h = ground arith

-- Two lists of bytes with the same hexadecimal text are the same.
pub hex_lower-injective :
    (l m : List ℕ) → AreBytes l → AreBytes m → hex_lower l ≡ hex_lower m → l ≡ m
unfolding hex_lower
hex_lower-injective [] [] p q h = refl
hex_lower-injective [] (y ∷ m) p q h = cc
hex_lower-injective (x ∷ l) [] p q h = cc
hex_lower-injective (x ∷ l) (y ∷ m) (x_byte, p) (y_byte, q) h =
    let high : x / 16 ≡ y / 16 = hex_digit-injective _ _ (omega arith) (omega arith) (cc h) in
    let low : x % 16 ≡ y % 16 = hex_digit-injective _ _ (omega arith) (omega arith) (cc h) in
    let same : x ≡ y = omega arith in cc (same, hex_lower-injective l m p q (cc h))
