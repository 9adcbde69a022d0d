-- ===== src/Module/Entrypoint.antt =====
-- The entrypoint of a module, `parse_entrypoint` of
-- certification/beamscale-context-abi/rust/src/module_contract.rs.
use rust_app.Prelude.{
  ℕ, Bool, true, false, not, ◌&&◌, ◌||◌, Option, none, some, [], ◌∷◌, nat_eq, if◌then◌else◌,
}
use rust_app.Prelude.Lists.{all, is_empty}
use rust_app.Prelude.Text.{Text}
use rust_app.Host.Path.{is_alphanumeric, parse_u16}

infixl 5 ◌>>=◌ ◌>>◌
abbrev pub ◌>>=◌ : {A B : Type 0} → Option A → (A → Option B) → Option B
none >>= f = none
some x >>= f = f x

abbrev pub ◌>>◌ : {B : Type 0} → Option (Unit {0}) → Option B → Option B
none >> k = none
some x >> k = k

abbrev pub some_if : Bool → Option (Unit {0})
some_if true = some tt
some_if false = none

-- `str::split_once` at a byte: what is before its first place, and what is after.
unfoldable pub split_once : ℕ → Text → Option (Text × Text)
split_once b [] = none
split_once b (c ∷ s) =
    let rest = split_once b s in
    if nat_eq c b then some ([], s) else (rest >>= λ (before, after). some (c ∷ before, after))

-- `str::rsplit_once`: the same at its last place.
unfoldable pub rsplit_once : ℕ → Text → Option (Text × Text)
rsplit_once b [] = none
rsplit_once b (c ∷ s) = elim (rsplit_once b s) [
  | some r ↦ some (c ∷ r.0, r.1)
  | none ↦ if nat_eq c b then some ([], s) else none
]

abbrev pub is_ident_byte : ℕ → Bool
is_ident_byte b = is_alphanumeric b || nat_eq b b'_' || nat_eq b b'-' || nat_eq b b'.'

abbrev pub is_path_byte : ℕ → Bool
is_path_byte b =
    is_alphanumeric b || nat_eq b b'_' || nat_eq b b'-' || nat_eq b b'.' || nat_eq b b'/'

unfoldable pub is_portable_ident : Text → Bool
is_portable_ident value = not (is_empty value) && all is_ident_byte value

unfoldable pub is_portable_path : Text → Bool
is_portable_path value = not (is_empty value) && all is_path_byte value

-- The module, the function and the arity.
unfoldable pub parse_entrypoint : Text → Option (Text × Text × ℕ)
unfolding split_once rsplit_once
parse_entrypoint value = do
  (module_name, rest) ← split_once b':' value
  (function, digits) ← rsplit_once b'/' rest
  some_if (is_portable_path module_name && is_portable_ident function)
  arity ← parse_u16 digits
  some_if (not (nat_eq arity 0))
  some (module_name, function, arity)
