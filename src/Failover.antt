-- ===== src/Failover.antt =====
-- The bounded failover model of the durable critical section,
-- cert/beamscale-critical-section/supervisor/conformance/critical_section_formal_model.rs.
-- The binary is built by plain `rustc`, so a `u8` sum that does not fit panics.
pub mod Reach
pub mod Fencing
mod Examples
use rust_app.Prelude.{
  ℕ, ◌+◌, min, Bool, true, false, not, ◌&&◌, ◌||◌, Option, List, [], ◌∷◌, ◌++◌, ltb, leb, nat_eq,
  if◌then◌else◌, u8_max,
}
use mathlib.Core.Option

pub data Holder : Type 0 where
  none a b : Holder

pub data RequestId : Type 0 where
  none r1 r2 : RequestId

pub record State : Type 0 where
  pub now : ℕ
  pub current_owner_epoch : ℕ
  pub lease_owner_epoch : ℕ
  pub sequence : ℕ
  pub holder : Holder
  pub request_id : RequestId
  pub expires_at : ℕ
  pub inherited : Bool

pub data Action : Type 0 where
  tick : Action
  failover : Action
  acquire : Holder → RequestId → Action
  renew : Holder → ℕ → ℕ → Action
  release : Holder → ℕ → ℕ → Action

abbrev pub max_time : ℕ
max_time = 4

abbrev pub max_owner_epoch : ℕ
max_owner_epoch = 3

abbrev pub max_sequence : ℕ
max_sequence = 4

abbrev pub lease : ℕ
lease = 2

-- The derived `PartialEq` of the two enumerations.
abbrev pub holder_eq : Holder → Holder → Bool
holder_eq Holder.none Holder.none = true
holder_eq Holder.a Holder.a = true
holder_eq Holder.b Holder.b = true
holder_eq _ _ = false

abbrev pub request_eq : RequestId → RequestId → Bool
request_eq RequestId.none RequestId.none = true
request_eq RequestId.r1 RequestId.r1 = true
request_eq RequestId.r2 RequestId.r2 = true
request_eq _ _ = false

unfoldable pub initial : State
initial = record {
  now = 0;
  current_owner_epoch = 1;
  lease_owner_epoch = 0;
  sequence = 0;
  holder = Holder.none;
  request_id = RequestId.none;
  expires_at = 0;
  inherited = false;
}

unfoldable pub expire : State → State
expire s =
    if not (holder_eq s.holder Holder.none) && leb s.expires_at s.now
    then record s {
      holder = Holder.none;
      request_id = RequestId.none;
      expires_at = 0;
      inherited = false;
    }
    else s

abbrev pub valid_holder : Holder → Bool
valid_holder Holder.none = false
valid_holder _ = true

unfoldable pub owns : State → Holder → ℕ → ℕ → Bool
owns s holder owner_epoch sequence =
    holder_eq s.holder holder
    && not s.inherited
    && nat_eq s.lease_owner_epoch owner_epoch
    && nat_eq s.current_owner_epoch owner_epoch
    && nat_eq s.sequence sequence
    && ltb s.now s.expires_at

-- The `match` of `invariant` on the holder.
invariant_holder : Holder → State → Bool
invariant_holder Holder.none s =
    nat_eq s.expires_at 0 && not s.inherited && request_eq s.request_id RequestId.none
invariant_holder _ s =
    ltb s.now s.expires_at
    && not (request_eq s.request_id RequestId.none)
    && ltb 0 s.lease_owner_epoch
    && leb s.lease_owner_epoch s.current_owner_epoch
    && (not s.inherited || ltb s.lease_owner_epoch s.current_owner_epoch)
    && (s.inherited || nat_eq s.lease_owner_epoch s.current_owner_epoch)

unfoldable pub invariant : State → Bool
unfolding invariant_holder
invariant s =
    if nat_eq s.current_owner_epoch 0 || ltb max_owner_epoch s.current_owner_epoch
    then false
    else if ltb max_sequence s.sequence
    then false
    else invariant_holder s.holder s

-- How a call of `step` ends: `None`, `Some(next)`, or a panic.
pub data Outcome : Type 0 where
  refused : Outcome
  stepped : State → Outcome
  panicked : Outcome

-- `(s.now + LEASE).min(MAX_TIME + LEASE)` put into `expires_at`.
extended : State → Outcome
extended s =
    if ltb u8_max (s.now + lease)
    then panicked
    else stepped (record s { expires_at = min (s.now + lease) (max_time + lease) })

-- The `match` of `step`, on the state that `expire` gives.
transition : State → Action → Outcome
unfolding expire owns extended
transition s tick =
    if ltb s.now max_time then stepped (expire (record s { now = s.now + 1 })) else refused
transition s failover =
    if ltb s.current_owner_epoch max_owner_epoch
    then stepped (record s {
      current_owner_epoch = s.current_owner_epoch + 1;
      inherited = not (holder_eq s.holder Holder.none);
    })
    else refused
transition s (acquire holder request_id) =
    if valid_holder holder
      && not (request_eq request_id RequestId.none)
      && holder_eq s.holder Holder.none
      && ltb s.sequence max_sequence
    then extended (record s {
      holder = holder;
      request_id = request_id;
      lease_owner_epoch = s.current_owner_epoch;
      sequence = s.sequence + 1;
      inherited = false;
    })
    else if valid_holder holder
        && not (request_eq request_id RequestId.none)
        && not s.inherited
        && holder_eq s.holder holder
        && request_eq s.request_id request_id
    then stepped s
    else refused
transition s (renew holder owner_epoch sequence) =
    if owns s holder owner_epoch sequence then extended s else refused
transition s (release holder owner_epoch sequence) =
    if owns s holder owner_epoch sequence
    then stepped (record s {
      holder = Holder.none;
      request_id = RequestId.none;
      expires_at = 0;
      inherited = false;
    })
    else refused

-- The two `assert!`s at the end of `step`.
asserted : State → Outcome → Outcome
unfolding invariant
asserted input (stepped next) =
    if leb input.current_owner_epoch next.current_owner_epoch && invariant next
    then stepped next
    else panicked
asserted input refused = refused
asserted input panicked = panicked

unfoldable pub step : State → Action → Outcome
unfolding transition asserted
step input action = asserted input (transition (expire input) action)
