-- ===== src/Host/Decimal.antt =====
-- The decimal numbers of the runtime host: `to_string` and `parse` of Rust's unsigned integers.
use rust_app.Prelude.{
  ap, ℕ, zero, suc, ◌+◌, ◌*◌, ◌/◌, ◌%◌, ◌≤◌, ◌<◌, ◌≡◌, ◌∙◌, false, some, [], ◌∷◌, arith, ltb,
  nat_eq, Bool-cases, inl, inr, u32_max, u64_max,
}
use rust_app.Prelude.Text.{Text}
use rust_app.Host.Path.{
  parse_u16, digits_from, decimal, parse_digits, parse_unsigned, parse_u32, parse_u64,
}

one_digit :
    (top m d : ℕ) (acc : Text)
    → d < 10
    → m * 10 + d ≤ top
    → parse_digits top m ((b'0' + d) ∷ acc) ≡ parse_digits top (m * 10 + d) acc
unfolding parse_digits
one_digit top m d acc small fits = ground arith

-- Reading the digits of `n` in front of a text gives `n`, and goes on with the text.
parse_digits-digits_from :
    (top fuel n : ℕ) (acc : Text)
    → n < fuel
    → n ≤ top
    → parse_digits top 0 (digits_from fuel n acc) ≡ parse_digits top n acc
unfolding digits_from
parse_digits-digits_from top zero n acc h fits = absurd (omega arith)
parse_digits-digits_from top (suc fuel) n acc h fits = elim (Bool-cases (ltb n 10)) [
  | inl last ↦ rw last (
      one_digit top 0 n acc (ground arith) (omega arith)
      ∙ ap (λ m. parse_digits top m acc) (omega arith))
  | inr more ↦ rw more (
      parse_digits-digits_from top fuel (n / 10) ((b'0' + n % 10) ∷ acc) (ground arith)
        (omega arith)
      ∙ one_digit top (n / 10) (n % 10) acc (omega arith) (omega arith)
      ∙ ap (λ m. parse_digits top m acc) (omega arith))
]

-- The digits begin with a digit, so they are not empty and have no sign.
digits_from-head :
    (fuel n : ℕ) (acc : Text)
    → n < fuel
    → (c : ℕ) × (s : Text) × (digits_from fuel n acc ≡ c ∷ s) × (nat_eq c b'+' ≡ false)
unfolding digits_from
digits_from-head zero n acc h = absurd (omega arith)
digits_from-head (suc fuel) n acc h = elim (Bool-cases (ltb n 10)) [
  | inl last ↦ (b'0' + n, acc, rw last, ground arith)
  | inr more ↦ rw more (digits_from-head fuel (n / 10) ((b'0' + n % 10) ∷ acc) (ground arith))
]

parse_unsigned-no_sign :
    (top c : ℕ) (s t : Text)
    → t ≡ c ∷ s
    → nat_eq c b'+' ≡ false
    → parse_unsigned top t ≡ parse_digits top 0 t
unfolding parse_unsigned
parse_unsigned-no_sign top c s t shape plain = rw shape (rw plain)

parse_unsigned-decimal : (top n : ℕ) → n ≤ top → parse_unsigned top (decimal n) ≡ some n
unfolding decimal parse_digits
parse_unsigned-decimal top n fits =
    let (c, s, shape, plain) = digits_from-head (n + 1) n [] (omega arith) in
    parse_unsigned-no_sign top c s (decimal n) shape plain
    ∙ parse_digits-digits_from top (n + 1) n [] (omega arith) fits

-- A number that fits in 32 bits is read back from its decimal text.
pub parse_u32-decimal : (n : ℕ) → n ≤ u32_max → parse_u32 (decimal n) ≡ some n
unfolding parse_u32
parse_u32-decimal n = parse_unsigned-decimal u32_max n

-- A number that fits in 64 bits is read back from its decimal text.
pub parse_u64-decimal : (n : ℕ) → n ≤ u64_max → parse_u64 (decimal n) ≡ some n
unfolding parse_u64
parse_u64-decimal n = parse_unsigned-decimal u64_max n

-- A number that fits in 16 bits is read back from its decimal text.
pub parse_u16-decimal : (n : ℕ) → n ≤ 65535 → parse_u16 (decimal n) ≡ some n
unfolding parse_u16
parse_u16-decimal n = parse_unsigned-decimal 65535 n
