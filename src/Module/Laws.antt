-- ===== src/Module/Laws.antt =====
-- The entrypoints that `parse_entrypoint` reads, of
-- certification/beamscale-context-abi/rust/src/module_contract.rs.
use rust_app.Prelude.{
  ◌&&◌, ◌↔◌, Option, ◌≤◌, ◌<◌, Option-cases, ℕ, ◌+◌, ◌*◌, ◌-◌, ◌≡◌, ◌∙◌, refl, sym, ap, Bool, true,
  false, not, none, some, [], ◌∷◌, ◌++◌, arith, nat_eq, inl, inr, Bool-cases,
}
use mathlib.Core.Path.{subst}
use rust_app.Prelude.Lists.{all}
use rust_app.Prelude.Text.{Text}
use rust_app.Host.Path.{decimal, parse_digits, parse_unsigned, parse_u16}
use rust_app.Host.Decimal.{parse_u16-decimal}
use rust_app.Module.Entrypoint.{
  ◌>>◌, ◌>>=◌, some_if, is_portable_ident, is_portable_path, parse_entrypoint, split_once,
  rsplit_once, is_path_byte,
}

-- The byte does not stand in the text.
abbrev lacks : ℕ → Text → Bool
lacks b s = all (λ c. not (nat_eq c b)) s

split_once-append :
    (b : ℕ) (s t : Text) → lacks b s ≡ true → split_once b (s ++ (b ∷ t)) ≡ some (s, t)
unfolding split_once
split_once-append b [] t h = ground arith
split_once-append b (c ∷ s) t h =
    let rest = split_once-append b s t (ground arith) in
    let other : nat_eq c b ≡ false = ground arith in rw (other, rest)

pub some_inj : {A : Type 0} {x y : A} → some x ≡ some y → x ≡ y
some_inj e = cc e

-- The text is what is before the byte, the byte and what is after; for the first place, the byte
-- does not stand before.
abbrev IsSplit : ℕ → Text → Text × Text → Type 0
IsSplit b v parts = v ≡ parts.0 ++ (b ∷ parts.1)

split_once-ok :
    (b : ℕ) (v : Text) {parts : Text × Text}
    → split_once b v ≡ some parts
    → IsSplit b v parts × (lacks b parts.0 ≡ true)
unfolding split_once
split_once-ok b [] h = cc h
split_once-ok b (c ∷ v) {parts} h = elim (Bool-cases (nat_eq c b)) [
  | inl same ↦
      let here : some ([], v) ≡ some parts = sym (rw same refl) ∙ h in
      let is_b : c ≡ b = ground arith in
      subst (λ p. IsSplit b (c ∷ v) p × (lacks b p.0 ≡ true)) (some_inj here)
        (ap (λ x. x ∷ v) is_b, refl)
  | inr other ↦ elim (Option-cases (split_once b v)) [
    | inl none_left ↦
        let gone : split_once b (c ∷ v) ≡ none = rw (other, none_left) in cc (sym gone ∙ h)
    | inr (rest, found) ↦
        let later : some (c ∷ rest.0, rest.1) ≡ some parts = sym (rw (other, found) refl) ∙ h in
        let (whole, clear) = split_once-ok b v found in
        subst (λ p. IsSplit b (c ∷ v) p × (lacks b p.0 ≡ true)) (some_inj later)
          (ap (λ x. c ∷ x) whole, ground arith)
  ]
]

rsplit_once-none : (b : ℕ) (t : Text) → lacks b t ≡ true → rsplit_once b t ≡ none
unfolding rsplit_once
rsplit_once-none b [] h = refl
rsplit_once-none b (c ∷ t) h =
    let rest = rsplit_once-none b t (ground arith) in
    let other : nat_eq c b ≡ false = ground arith in rw (rest, other)

rsplit_once-append :
    (b : ℕ) (s t : Text) → lacks b t ≡ true → rsplit_once b (s ++ (b ∷ t)) ≡ some (s, t)
unfolding rsplit_once
rsplit_once-append b [] t h =
    let same : nat_eq b b ≡ true = ground arith in rw (rsplit_once-none b t h, same)
rsplit_once-append b (c ∷ s) t h = rw (rsplit_once-append b s t h)

rsplit_once-ok :
    (b : ℕ) (v : Text) {parts : Text × Text} → rsplit_once b v ≡ some parts → IsSplit b v parts
unfolding rsplit_once
rsplit_once-ok b [] h = cc h
rsplit_once-ok b (c ∷ v) {parts} h = elim (Option-cases (rsplit_once b v)) [
  | inr (rest, found) ↦
      let later : some (c ∷ rest.0, rest.1) ≡ some parts = sym (rw found refl) ∙ h in
      subst (IsSplit b (c ∷ v)) (some_inj later) (ap (λ x. c ∷ x) (rsplit_once-ok b v found))
  | inl none_left ↦ elim (Bool-cases (nat_eq c b)) [
    | inl same ↦
        let here : some ([], v) ≡ some parts = sym (rw (none_left, same) refl) ∙ h in
        let is_b : c ≡ b = ground arith in
        subst (IsSplit b (c ∷ v)) (some_inj here) (ap (λ x. x ∷ v) is_b)
    | inr other ↦
        let gone : rsplit_once b (c ∷ v) ≡ none = rw (none_left, other) in cc (sym gone ∙ h)
  ]
]

digits-lacks : (top n : ℕ) (t : Text) {m : ℕ} → parse_digits top n t ≡ some m → lacks b'/' t ≡ true
unfolding parse_digits
digits-lacks top n [] h = refl
digits-lacks top n (c ∷ t) {m} h = ground (arith, digits-lacks top (n * 10 + (c - b'0')) t {m = m})

parse_u16-lacks : (t : Text) {m : ℕ} → parse_u16 t ≡ some m → lacks b'/' t ≡ true
unfolding parse_u16 parse_unsigned
parse_u16-lacks [] h = refl
parse_u16-lacks (c ∷ []) {m} h = ground (arith, digits-lacks 65535 0 (c ∷ []) {m = m})
parse_u16-lacks (c ∷ d ∷ t) {m} h =
    ground (arith, digits-lacks 65535 0 (d ∷ t) {m = m}, digits-lacks 65535 0 (c ∷ d ∷ t) {m = m})

path-lacks : (s : Text) → all is_path_byte s ≡ true → lacks b':' s ≡ true
path-lacks [] h = refl
path-lacks (c ∷ s) h = ground (arith, path-lacks s)

-- A path of a module, a colon, a name of a function, a slash, and a positive number of 16 bits.
abbrev pub IsEntrypoint : Text → Text × Text × ℕ → Type 0
IsEntrypoint value e =
    (digits : Text) × (value ≡ e.0 ++ (b':' ∷ (e.1 ++ (b'/' ∷ digits))))
    × (is_portable_path e.0 ≡ true)
    × (is_portable_ident e.1 ≡ true)
    × (parse_u16 digits ≡ some e.2)
    × (0 < e.2)

portable_path-lacks : (s : Text) → is_portable_path s ≡ true → lacks b':' s ≡ true
unfolding is_portable_path
portable_path-lacks s h = path-lacks s (ground arith)

IsEntrypoint-parse :
    (value : Text) (e : Text × Text × ℕ) → IsEntrypoint value e → parse_entrypoint value ≡ some e
unfolding parse_entrypoint
IsEntrypoint-parse value (m, f, n) (digits, whole, path, ident, arity, positive) =
    let first = split_once-append b':' m (f ++ (b'/' ∷ digits)) (portable_path-lacks m path) in
    let last = rsplit_once-append b'/' f digits (parse_u16-lacks digits arity) in
    let not_zero : nat_eq n 0 ≡ false = ground arith in
    rw whole (rw first (rw last (rw (path, ident) (rw arity (rw not_zero)))))

bind-some :
    {A B : Type 0} (m : Option A) (f : A → Option B) {b : B}
    → (m >>= f) ≡ some b
    → (a : A) × (m ≡ some a) × (f a ≡ some b)
bind-some none f h = cc h
bind-some (some a) f h = (a, refl, h)

some_if-then :
    {B : Type 0} (test : Bool) (k : Option B) {b : B}
    → (some_if test >> k) ≡ some b
    → (test ≡ true) × (k ≡ some b)
some_if-then true k h = (refl, h)
some_if-then false k h = cc h

parse-IsEntrypoint :
    (value : Text) (e : Text × Text × ℕ) → parse_entrypoint value ≡ some e → IsEntrypoint value e
unfolding parse_entrypoint
parse-IsEntrypoint value e h =
    let ((m, rest), first, h1) = bind-some (split_once b':' value) _ h in
    let ((f, digits), last, h2) = bind-some (rsplit_once b'/' rest) _ h1 in
    let (portable, h3) = some_if-then (is_portable_path m && is_portable_ident f) _ h2 in
    let (n, arity, h4) = bind-some (parse_u16 digits) _ h3 in
    let (not_zero, h5) = some_if-then (not (nat_eq n 0)) _ h4 in
    let (whole, _) = split_once-ok b':' value first in
    let after = rsplit_once-ok b'/' rest last in
    subst (IsEntrypoint value) (some_inj h5) (
      digits,
      whole ∙ ap (λ r. m ++ (b':' ∷ r)) after,
      ground arith,
      ground arith,
      arity,
      ground arith,
    )

-- An entrypoint is parsed exactly if it is a portable path, a colon, a portable name, a slash and a
-- number of 16 bits that is not zero, and into these.
pub parse_entrypoint_iff :
    (value : Text) (e : Text × Text × ℕ) → (parse_entrypoint value ≡ some e) ↔ IsEntrypoint value e
parse_entrypoint_iff value e = (parse-IsEntrypoint value e, IsEntrypoint-parse value e)

-- An entrypoint that is put together of a portable path, a portable name and an arity from 1 to
-- 65535 in decimal is parsed into them.
pub parse_entrypoint-decimal :
    (path name : Text) (arity : ℕ)
    → is_portable_path path ≡ true
    → is_portable_ident name ≡ true
    → 0 < arity
    → arity ≤ 65535
    → parse_entrypoint (path ++ (b':' ∷ (name ++ (b'/' ∷ decimal arity))))
      ≡ some (path, name, arity)
parse_entrypoint-decimal path name arity is_path is_name positive fits =
    IsEntrypoint-parse _ (path, name, arity)
      (decimal arity, refl, is_path, is_name, parse_u16-decimal arity fits, positive)
