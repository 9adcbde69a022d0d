-- ===== src/Host/Path.antt =====
-- Text that the runtime host builds: Unix paths, numbers and identifiers.
use rust_app.Prelude.{
  ℕ, zero, suc, ◌+◌, ◌-◌, ◌*◌, ◌/◌, ◌%◌, Bool, true, ◌&&◌, ◌||◌, Option, none, some, List, [], ◌∷◌,
  ◌++◌, leb, ltb, nat_eq, if◌then◌else◌, u32_max, u64_max,
}
use rust_app.Prelude.Text.{Text, bytes, text_eq, starts_with}

abbrev pub is_digit : ℕ → Bool
is_digit c = leb b'0' c && leb c b'9'

abbrev pub is_lower : ℕ → Bool
is_lower c = leb b'a' c && leb c b'z'

abbrev pub is_upper : ℕ → Bool
is_upper c = leb b'A' c && leb c b'Z'

-- `u8::is_ascii_alphanumeric`.
abbrev pub is_alphanumeric : ℕ → Bool
is_alphanumeric c = is_digit c || is_lower c || is_upper c

-- `Path::is_absolute`.
abbrev pub is_absolute : Text → Bool
is_absolute p = starts_with (bytes "/") p

ends_in_slash : Text → Bool
ends_in_slash [] = true
ends_in_slash (c ∷ []) = nat_eq c b'/'
ends_in_slash (c ∷ d ∷ p) = ends_in_slash (d ∷ p)

-- `Path::join`: an absolute path replaces, and a separator is added where there is none.
unfoldable pub join : Text → Text → Text
unfolding ends_in_slash
join p q = if is_absolute q then q else if ends_in_slash p then p ++ q else p ++ (b'/' ∷ q)

-- The components of a path: the parts between slashes that are neither empty nor `.`.
add_part : Text → List Text → List Text
add_part part rest = if text_eq part [] || text_eq part (bytes ".") then rest else part ∷ rest

split_from : Text → Text → List Text
unfolding add_part
split_from part [] = add_part part []
split_from part (c ∷ p) =
    let more = split_from (part ++ (c ∷ [])) p in
    let next = split_from [] p in if nat_eq c b'/' then add_part part next else more

unfoldable pub components : Text → List Text
unfolding split_from
components = split_from []

-- `Path::file_name`: the last component, unless it is `..`.
last_part : List Text → Option Text
last_part [] = none
last_part (p ∷ []) = if text_eq p (bytes "..") then none else some p
last_part (p ∷ q ∷ ps) = last_part (q ∷ ps)

unfoldable pub file_name : Text → Option Text
unfolding last_part components
file_name p = last_part (components p)

-- The text before the last slash.
before_slash : Text → Option Text
before_slash [] = none
before_slash (c ∷ p) = elim (before_slash p) [
  | some q ↦ some (c ∷ q)
  | none ↦ if nat_eq c b'/' then some [] else none
]

-- `Path::parent`, of a path that ends in a plain name.
unfoldable pub parent : Text → Text
unfolding before_slash
parent p = elim (before_slash p) [ some [] ↦ bytes "/" | some (c ∷ q) ↦ c ∷ q | none ↦ [] ]

-- `to_string` of an unsigned integer. Each round takes a digit off, so `n + 1` rounds suffice.
unfoldable pub digits_from : ℕ → ℕ → Text → Text
digits_from zero n acc = acc
digits_from (suc fuel) n acc =
    let more = digits_from fuel (n / 10) ((b'0' + n % 10) ∷ acc) in
    if ltb n 10 then (b'0' + n) ∷ acc else more

unfoldable pub decimal : ℕ → Text
unfolding digits_from
decimal n = digits_from (n + 1) n []

-- `str::parse` at an unsigned type with the given greatest value.
unfoldable pub parse_digits : ℕ → ℕ → Text → Option ℕ
parse_digits top n [] = some n
parse_digits top n (c ∷ s) =
    let rest = parse_digits top (n * 10 + (c - b'0')) s in
    if is_digit c && leb (n * 10 + (c - b'0')) top then rest else none

unfoldable pub parse_unsigned : ℕ → Text → Option ℕ
unfolding parse_digits
parse_unsigned top [] = none
parse_unsigned top (c ∷ s) =
    if nat_eq c b'+'
    then (elim s [ [] ↦ none | d ∷ r ↦ parse_digits top 0 (d ∷ r) ])
    else parse_digits top 0 (c ∷ s)

unfoldable pub parse_u32 : Text → Option ℕ
unfolding parse_unsigned
parse_u32 = parse_unsigned u32_max

unfoldable pub parse_u16 : Text → Option ℕ
unfolding parse_unsigned
parse_u16 = parse_unsigned 65535

unfoldable pub parse_u64 : Text → Option ℕ
unfolding parse_unsigned
parse_u64 = parse_unsigned u64_max

-- `sanitize`. A character that is not ASCII is one `char`, so its bytes give one underscore: its
-- first byte does, and the bytes that continue it, from 128 up to 191, are left out.
unfoldable pub sanitize : Text → Text
sanitize [] = []
sanitize (c ∷ s) =
    if is_alphanumeric c || nat_eq c b'-' || nat_eq c b'_'
    then c ∷ sanitize s
    else if leb 128 c && ltb c 192
    then sanitize s
    else b'_' ∷ sanitize s
