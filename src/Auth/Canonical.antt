-- ===== src/Auth/Canonical.antt =====
-- The text that is signed, `canonical` of
-- cert/beamscale-critical-section/infra-runtime-host/src/runtime_auth.rs: its lines and fields.
use rust_app.Prelude.{
  ◌≢◌, ℕ, ◌+◌, ◌/◌, ◌≤◌, ◌≡◌, refl, sym, ap, ◌∙◌, [], ◌∷◌, zero, suc, ltb, inl, inr, Bool-cases,
  arith, u64_max,
}
use rust_app.Prelude.Lists.{All}
use rust_app.Prelude.Text.{Text}
use rust_app.Host.Path.{decimal, digits_from, parse_u64}
use rust_app.Host.Decimal.{parse_u64-decimal}
use rust_app.Auth.{RuntimeContract, canonical, line}

-- A text of one line.
abbrev pub IsLine : Text → Type 0
IsLine = All (λ c. c ≢ 10)

line-injective :
    (s t : Text) (a b : Text) → IsLine s → IsLine t → line s a ≡ line t b → (s ≡ t) × (a ≡ b)
unfolding line
line-injective [] [] a b p q h = (refl, cc)
line-injective [] (d ∷ t) a b p (d_line, q) h = absurd (d_line (cc h))
line-injective (c ∷ s) [] a b (c_line, p) q h = absurd (c_line (cc h))
line-injective (c ∷ s) (d ∷ t) a b (c_line, p) (d_line, q) h =
    let (head, rest) = line-injective s t a b p q (cc h) in (cc (head, h), rest)

digits_from-IsLine : (fuel n : ℕ) (acc : Text) → IsLine acc → IsLine (digits_from fuel n acc)
unfolding digits_from
digits_from-IsLine zero n acc p = p
digits_from-IsLine (suc fuel) n acc p = elim (Bool-cases (ltb n 10)) [
  | inl last ↦ rw last ((λ e. omega arith), p)
  | inr more ↦ rw more (digits_from-IsLine fuel (n / 10) _ ((λ e. omega arith), p))
]

decimal-IsLine : (n : ℕ) → IsLine (decimal n)
unfolding decimal
decimal-IsLine n = digits_from-IsLine (n + 1) n [] tt

decimal-injective : (m n : ℕ) → m ≤ u64_max → n ≤ u64_max → decimal m ≡ decimal n → m ≡ n
decimal-injective m n p q h =
    let e = sym (parse_u64-decimal m p) ∙ ap parse_u64 h ∙ parse_u64-decimal n q in cc e

-- A contract whose texts have one line each and whose numbers fit in 64 bits.
pub record IsPlain (contract : RuntimeContract) : Type 0 where
  pub version : IsLine contract.version
  pub operation : IsLine contract.operation
  pub tenant_id : IsLine contract.tenant_id
  pub shard_id : IsLine contract.shard_id
  pub execution_class : IsLine contract.execution_class
  pub execution_backend : IsLine contract.execution_backend
  pub nonce : IsLine contract.nonce
  pub runtime_epoch : contract.runtime_epoch ≤ u64_max
  pub issued_at_unix : contract.issued_at_unix ≤ u64_max
  pub expires_at_unix : contract.expires_at_unix ≤ u64_max

-- All but the signature and the digest that the contract itself carries.
abbrev pub IsSameSigned : RuntimeContract → RuntimeContract → Type 0
IsSameSigned c d =
    (c.version ≡ d.version)
    × (c.operation ≡ d.operation)
    × (c.tenant_id ≡ d.tenant_id)
    × (c.shard_id ≡ d.shard_id)
    × (c.execution_class ≡ d.execution_class)
    × (c.execution_backend ≡ d.execution_backend)
    × (c.runtime_epoch ≡ d.runtime_epoch)
    × (c.issued_at_unix ≡ d.issued_at_unix)
    × (c.expires_at_unix ≡ d.expires_at_unix)
    × (c.nonce ≡ d.nonce)

-- The text that is signed is unambiguous: two contracts of one line in each field and with 64-bit
-- numbers have the same text, for digests of one line, only if they agree in the digest and in
-- every field but the signature and the digest they carry.
pub canonical-injective :
    (c d : RuntimeContract) (s t : Text)
    → IsPlain c
    → IsPlain d
    → IsLine s
    → IsLine t
    → canonical c s ≡ canonical d t
    → (s ≡ t) × IsSameSigned c d
unfolding canonical
canonical-injective c d s t p q s_line t_line e =
    let (version, e1) = line-injective _ _ _ _ p.version q.version e in
    let (operation, e2) = line-injective _ _ _ _ p.operation q.operation e1 in
    let (tenant, e3) = line-injective _ _ _ _ p.tenant_id q.tenant_id e2 in
    let (shard, e4) = line-injective _ _ _ _ p.shard_id q.shard_id e3 in
    let (class, e5) = line-injective _ _ _ _ p.execution_class q.execution_class e4 in
    let (backend, e6) = line-injective _ _ _ _ p.execution_backend q.execution_backend e5 in
    let (epoch, e7) = line-injective _ _ _ _ (decimal-IsLine _) (decimal-IsLine _) e6 in
    let (digest, e8) = line-injective _ _ _ _ s_line t_line e7 in
    let (issued, e9) = line-injective _ _ _ _ (decimal-IsLine _) (decimal-IsLine _) e8 in
    let (expires, e10) = line-injective _ _ _ _ (decimal-IsLine _) (decimal-IsLine _) e9 in
    let (nonce, _) = line-injective _ _ _ _ p.nonce q.nonce e10 in
    (
      digest,
      (
        version,
        operation,
        tenant,
        shard,
        class,
        backend,
        decimal-injective _ _ p.runtime_epoch q.runtime_epoch epoch,
        decimal-injective _ _ p.issued_at_unix q.issued_at_unix issued,
        decimal-injective _ _ p.expires_at_unix q.expires_at_unix expires,
        nonce,
      ),
    )
