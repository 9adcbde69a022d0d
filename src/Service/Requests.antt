-- ===== src/Service/Requests.antt =====
-- The requests that pass the checks of the HTTP service,
-- cert/beamscale-critical-section/infra-runtime-host/src/main.rs.
use rust_app.Prelude.{
  ℕ, ◌≤◌, ◌<◌, ◌≡◌, ◌↔◌, refl, true, false, Bool, ◌&&◌, ◌||◌, nat_eq, ltb, Option, none, some,
  arith,
}
use rust_app.Prelude.Lists.{length, all, is_empty}
use rust_app.Prelude.Text.{Text}
use rust_app.Prelude.Result.{ok}
use rust_app.Host.Validate.{is_subject_byte}
use rust_app.Service.Types.{
  CriticalSectionOperation, acquire, renew, release, CriticalSectionToken, CriticalSectionRequest,
}
use rust_app.Service.Checks.{
  valid_runtime_identifier, contains_nul, validate_critical_section_request, arguments_ok,
  max_critical_section_sequence, lease_ok, request_id_ok, token_ok, is_none,
}

-- 1 to `n` bytes without NUL.
abbrev pub IsField : ℕ → Text → Type 0
IsField n text = (is_empty text ≡ false) × (length text ≤ n) × (contains_nul text ≡ false)

abbrev pub HasLease : Option ℕ → Type 0
HasLease none = ⊥
HasLease (some lease) = (1 ≤ lease) × (lease ≤ 300000)

abbrev pub HasId : Option Text → Type 0
HasId none = ⊥
HasId (some id) = IsField 256 id

abbrev pub HasToken : Option CriticalSectionToken → Type 0
HasToken none = ⊥
HasToken (some token) =
    (0 < token.runtime_epoch)
    × (0 < token.owner_epoch)
    × (0 < token.sequence)
    × (token.sequence ≤ max_critical_section_sequence)

-- What an operation carries.
abbrev pub IsComplete : CriticalSectionOperation → CriticalSectionRequest → Type 0
IsComplete acquire req = HasLease req.lease_ms × HasId req.request_id × (req.token ≡ none)
IsComplete renew req = HasLease req.lease_ms × (req.request_id ≡ none) × HasToken req.token
IsComplete release req = (req.lease_ms ≡ none) × (req.request_id ≡ none) × HasToken req.token

pub record Acceptable (req : CriticalSectionRequest) : Type 0 where
  pub in_time : (1 ≤ req.timeout_ms) × (req.timeout_ms ≤ 60000)
  pub namespace_fits :
      (is_empty req.namespace ≡ false)
      × (length req.namespace ≤ 128)
      × (all is_subject_byte req.namespace ≡ true)
  pub key_fits : IsField 4096 req.object_key
  pub holder_fits : IsField 256 req.holder
  pub complete : IsComplete req.operation req

and_iff :
    {A B C : Type 0} (a b c : Bool)
    → (a ≡ true) ↔ A
    → (b ≡ true) ↔ B
    → (c ≡ true) ↔ C
    → (a && b && c ≡ true) ↔ (A × B × C)
and_iff true true true f g h = (λ _. (f.0 refl, g.0 refl, h.0 refl), λ _. refl)
and_iff true true false f g h = (λ e. cc e, λ x. h.1 x.2)
and_iff true false c f g h = (λ e. cc e, λ x. cc (g.1 x.1))
and_iff false b c f g h = (λ e. cc e, λ x. cc (f.1 x.0))

lease_ok_iff : (o : Option ℕ) → (lease_ok o ≡ true) ↔ HasLease o
lease_ok_iff none = (λ e. cc e, λ h. absurd h)
lease_ok_iff (some lease) = (λ e. ground arith, λ h. ground arith)

request_id_ok_iff : (o : Option Text) → (request_id_ok o ≡ true) ↔ HasId o
request_id_ok_iff none = (λ e. cc e, λ h. absurd h)
request_id_ok_iff (some id) = (λ e. ground arith, λ h. ground arith)

token_ok_iff : (o : Option CriticalSectionToken) → (token_ok o ≡ true) ↔ HasToken o
token_ok_iff none = (λ e. cc e, λ h. absurd h)
token_ok_iff (some token) = (λ e. ground arith, λ h. ground arith)

is_none_iff : {A : Type 0} (o : Option A) → (is_none o ≡ true) ↔ (o ≡ none)
is_none_iff none = (λ e. refl, λ h. refl)
is_none_iff (some x) = (λ e. cc e, λ h. cc h)

arguments_ok_iff :
    (op : CriticalSectionOperation) (req : CriticalSectionRequest)
    → (arguments_ok op req ≡ true) ↔ IsComplete op req
unfolding arguments_ok
arguments_ok_iff acquire req =
    and_iff _ _ _ (lease_ok_iff req.lease_ms) (request_id_ok_iff req.request_id)
      (is_none_iff req.token)
arguments_ok_iff renew req =
    and_iff _ _ _ (lease_ok_iff req.lease_ms) (is_none_iff req.request_id) (token_ok_iff req.token)
arguments_ok_iff release req =
    and_iff _ _ _ (is_none_iff req.lease_ms) (is_none_iff req.request_id) (token_ok_iff req.token)

-- A request for the critical section is accepted exactly if it gives itself 1 to 60000 ms, has a
-- namespace of 1 to 128 letters, digits, dots, dashes and underscores, an object key of 1 to 4096
-- and a holder of 1 to 256 bytes without NUL, and carries what its operation takes: an acquire a
-- lease of 1 to 300000 ms and a request id of 1 to 256 bytes without NUL, a renewal a lease and a
-- token, a release a token, and nothing else. The numbers of a token are not zero, and its
-- sequence is at most 2^53 - 1.
pub validate_critical_section_request_iff :
    (req : CriticalSectionRequest)
    → (validate_critical_section_request req ≡ ok tt) ↔ Acceptable req
unfolding validate_critical_section_request valid_runtime_identifier
validate_critical_section_request_iff req = (
  λ h.
      let whole : arguments_ok req.operation req ≡ true = ground arith in
      record {
        in_time = ground arith;
        namespace_fits = ground arith;
        key_fits = ground arith;
        holder_fits = ground arith;
        complete = (arguments_ok_iff req.operation req).0 whole;
      },
  λ h.
      let whole = (arguments_ok_iff req.operation req).1 h.complete in
      let (lo, hi) = h.in_time in
      let (full, short, plain) = h.namespace_fits in
      let (full_key, short_key, plain_key) = h.key_fits in
      let (full_holder, short_holder, plain_holder) = h.holder_fits in
      let on_time : (nat_eq req.timeout_ms 0 || ltb 60000 req.timeout_ms) ≡ false = ground arith in
      let named : valid_runtime_identifier req.namespace ≡ true = ground arith in
      let keyed : (is_empty req.object_key
            || ltb 4096 (length req.object_key)
            || contains_nul req.object_key)
          ≡ false =
        ground arith in
      let held : (is_empty req.holder || ltb 256 (length req.holder) || contains_nul req.holder)
          ≡ false =
        ground arith in
      rw (on_time, named, keyed, held, whole),
)
