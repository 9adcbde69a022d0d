-- ===== src/Prelude/Utf8.antt =====
-- The byte sequences that are UTF-8.
use rust_app.Prelude.{
  ℕ, zero, suc, Bool, true, false, ◌&&◌, ◌≡◌, refl, arith, Option, none, some, [], ◌∷◌, ltb, leb,
  nat_eq, if◌then◌else◌,
}
use rust_app.Prelude.Lists.{all}
use rust_app.Prelude.Text.{Text}

-- `std::str::from_utf8`: after a leading byte, how many bytes follow, and the range of the next.
lead : ℕ → Option (ℕ × ℕ × ℕ)
lead b =
    if ltb b 0x80
    then some (0, 0x80, 0xBF)
    else if leb 0xC2 b && leb b 0xDF
    then some (1, 0x80, 0xBF)
    else if nat_eq b 0xE0
    then some (2, 0xA0, 0xBF)
    else if nat_eq b 0xED
    then some (2, 0x80, 0x9F)
    else if leb 0xE1 b && leb b 0xEF
    then some (2, 0x80, 0xBF)
    else if nat_eq b 0xF0
    then some (3, 0x90, 0xBF)
    else if leb 0xF1 b && leb b 0xF3
    then some (3, 0x80, 0xBF)
    else if nat_eq b 0xF4
    then some (3, 0x80, 0x8F)
    else none

utf8_from : ℕ → ℕ → ℕ → Text → Bool
utf8_from pending lo hi [] = nat_eq pending 0
utf8_from zero lo hi (b ∷ s) = elim (lead b) [
  | none ↦ false
  | some (pending, low, high) ↦ utf8_from pending low high s
]
utf8_from (suc pending) lo hi (b ∷ s) = leb lo b && leb b hi && utf8_from pending 0x80 0xBF s

unfoldable pub is_utf8 : Text → Bool
unfolding utf8_from lead
is_utf8 s = utf8_from 0 0x80 0xBF s

abbrev pub is_ascii : ℕ → Bool
is_ascii b = ltb b 0x80

ascii-utf8_from : (lo hi : ℕ) (s : Text) → all is_ascii s ≡ true → utf8_from 0 lo hi s ≡ true
unfolding utf8_from lead
ascii-utf8_from lo hi [] h = refl
ascii-utf8_from lo hi (b ∷ s) h = ground (arith, ascii-utf8_from 0x80 0xBF s)

pub ascii-is_utf8 : (s : Text) → all is_ascii s ≡ true → is_utf8 s ≡ true
unfolding is_utf8
ascii-is_utf8 s h = ascii-utf8_from 0x80 0xBF s h
