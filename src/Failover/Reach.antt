-- ===== src/Failover/Reach.antt =====
-- The invariant of the failover model,
-- cert/beamscale-critical-section/supervisor/conformance/critical_section_formal_model.rs, and the
-- assertions of its `step`.
use rust_app.Prelude.{◌+◌, ◌≤◌, ◌≡◌, true, arith}
use rust_app.Failover.{
  State, Action, Outcome, stepped, refused, panicked, max_time, lease, invariant, initial, step,
  expire, tick, failover, acquire, renew, release,
}

-- The invariant of the source, with the bounds on time that the actions keep.
pub record IsValid (s : State) : Type 0 where
  pub holds : invariant s ≡ true
  pub in_time : s.now ≤ max_time
  pub short_lease : s.expires_at ≤ s.now + lease

-- The starting state is valid.
pub initial-IsValid : IsValid initial
unfolding initial invariant
initial-IsValid = ground arith

abbrev pub Keeps : State → Outcome → Type 0
Keeps s refused = Unit
Keeps s panicked = ⊥
Keeps s (stepped t) =
    IsValid t
    × (s.now ≤ t.now)
    × (s.current_owner_epoch ≤ t.current_owner_epoch)
    × (s.sequence ≤ t.sequence)

pub step-Keeps : (s : State) (a : Action) → IsValid s → Keeps s (step s a)
unfolding step expire invariant
step-Keeps s tick v = ground arith
step-Keeps s failover v = ground arith
step-Keeps s (acquire h r) v = ground arith
step-Keeps s (renew h e q) v = ground arith
step-Keeps s (release h e q) v = ground arith
