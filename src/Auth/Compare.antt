-- ===== src/Auth/Compare.antt =====
-- The comparison in constant time, `constant_time_eq` of
-- cert/beamscale-critical-section/infra-runtime-host/src/runtime_auth.rs.
use Prim.Native.Nat.{digits, differ, bit_or, bit_xor, bit_or-bitwise, bit_xor-bitwise, max}
use rust_app.Prelude.{
  ℕ, zero, suc, ◌/◌, ◌%◌, ◌≤◌, ◌≡◌, ◌↔◌, ◌∙◌, sym, ap, refl, true, [], ◌∷◌, arith,
}
use rust_app.Prelude.Lists.{length}
use rust_app.Prelude.Text.{Text}
use rust_app.Auth.{diff_from, constant_time_eq}

differ-zero : (x y : ℕ) → differ x y ≡ 0 → x ≡ y
differ-zero zero y h = sym h
differ-zero (suc x) zero h = absurd (omega arith)
differ-zero (suc x) (suc y) h = ap suc (differ-zero x y h)

differ-same : (x : ℕ) → differ x x ≡ 0
differ-same zero = refl
differ-same (suc x) = differ-same x

xor_digits-zero : (n a b : ℕ) → a ≤ n → digits (λ d. d) differ n a b ≡ 0 → a ≡ b
xor_digits-zero zero zero b h e = sym e
xor_digits-zero zero (suc a) b h e = absurd (omega arith)
xor_digits-zero (suc n) zero b h e = sym e
xor_digits-zero (suc n) (suc a) b h e =
    let high = xor_digits-zero n (suc a / 2) (b / 2) (omega arith) (omega arith) in
    let low = differ-zero (suc a % 2) (b % 2) (omega arith) in omega arith

xor_digits-same : (n a : ℕ) → a ≤ n → digits (λ d. d) differ n a a ≡ 0
xor_digits-same zero a h = omega arith
xor_digits-same (suc n) zero h = refl
xor_digits-same (suc n) (suc a) h =
    let high = xor_digits-same n (suc a / 2) (omega arith) in
    let low = differ-same (suc a % 2) in omega arith

max-zero : (x y : ℕ) → max x y ≡ 0 → (x ≡ 0) × (y ≡ 0)
max-zero x y h = omega arith

or_digits-zero : (n a b : ℕ) → a ≤ n → digits (λ d. d) max n a b ≡ 0 → (a ≡ 0) × (b ≡ 0)
or_digits-zero zero zero b h e = (refl, e)
or_digits-zero zero (suc a) b h e = absurd (omega arith)
or_digits-zero (suc n) zero b h e = (refl, e)
or_digits-zero (suc n) (suc a) b h e =
    let (high, high') = or_digits-zero n (suc a / 2) (b / 2) (omega arith) (omega arith) in
    let (low, low') = max-zero (suc a % 2) (b % 2) (omega arith) in (omega arith, omega arith)

bit_xor-zero : (a b : ℕ) → bit_xor a b ≡ 0 → a ≡ b
bit_xor-zero a b h = xor_digits-zero a a b (omega arith) (sym (bit_xor-bitwise a b) ∙ h)

bit_xor-same : (a : ℕ) → bit_xor a a ≡ 0
bit_xor-same a = bit_xor-bitwise a a ∙ xor_digits-same a a (omega arith)

bit_or-zero : (a b : ℕ) → bit_or a b ≡ 0 → (a ≡ 0) × (b ≡ 0)
bit_or-zero a b h = or_digits-zero a a b (omega arith) (sym (bit_or-bitwise a b) ∙ h)

diff_from-zero :
    (d : ℕ) (left right : Text)
    → length left ≡ length right
    → diff_from d left right ≡ 0
    → (d ≡ 0) × (left ≡ right)
unfolding diff_from
diff_from-zero d [] [] h e = (e, refl)
diff_from-zero d [] (b ∷ right) h e = absurd (omega arith)
diff_from-zero d (a ∷ left) [] h e = absurd (omega arith)
diff_from-zero d (a ∷ left) (b ∷ right) h e =
    let (now, later) = diff_from-zero (bit_or d (bit_xor a b)) left right (omega arith) e in
    let (none_before, none_here) = bit_or-zero d (bit_xor a b) now in
    (none_before, cc (bit_xor-zero a b none_here, later))

diff_from-same : (s : Text) → diff_from 0 s s ≡ 0
unfolding diff_from
diff_from-same [] = refl
diff_from-same (a ∷ s) = rw (bit_xor-same a) (diff_from-same s)

-- The comparison in constant time accepts two texts exactly if they are the same.
pub constant_time_eq_iff :
    (left right : Text) → (constant_time_eq left right ≡ true) ↔ (left ≡ right)
unfolding constant_time_eq
constant_time_eq_iff left right = (
  λ h. (diff_from-zero 0 left right (ground arith) (ground arith)).1,
  λ e. rw (e, diff_from-same right) (ground arith),
)
