-- ===== src/Failover/Examples.antt =====
-- The theorems on the failover model at concrete states, and the runs that `main` asserts.
use rust_app.Prelude.{true, ◌+◌, ◌≡◌, ◌⊎◌, inl, refl, false, List, [], ◌∷◌, arith}
use rust_app.Failover.{
  State, Action, Holder, RequestId, stepped, refused, initial, step, tick, failover, acquire, renew,
  release, invariant,
}
use rust_app.Failover.Reach.{Keeps, IsValid, initial-IsValid}
use rust_app.Failover.Fencing.{
  run, run-Keeps, lease_not_stolen, inherited_frozen, acquire_grants, stale_fence_refused,
  two_ticks_free,
}

-- `granted` of `main`.
abbrev granted : State
granted = record {
  now = 0;
  current_owner_epoch = 1;
  lease_owner_epoch = 1;
  sequence = 1;
  holder = Holder.a;
  request_id = RequestId.r1;
  expires_at = 2;
  inherited = false;
}

abbrev failed_over : State
failed_over = record granted { current_owner_epoch = 2; inherited = true }

granted-IsValid : IsValid granted
unfolding invariant
granted-IsValid = record { holds = refl; in_time = omega arith; short_lease = omega arith }

failed_over-IsValid : IsValid failed_over
unfolding invariant
failed_over-IsValid = record { holds = refl; in_time = omega arith; short_lease = omega arith }

replay_is_idempotent : step granted (acquire Holder.a RequestId.r1) ≡ stepped granted
unfolding step
replay_is_idempotent = refl

other_request_is_refused : step granted (acquire Holder.a RequestId.r2) ≡ refused
unfolding step
other_request_is_refused = refl

failover_inherits : step granted failover ≡ stepped failed_over
unfolding step
failover_inherits = refl

replay_after_failover_is_refused : step failed_over (acquire Holder.a RequestId.r1) ≡ refused
unfolding step
replay_after_failover_is_refused = refl

abbrev handover : List Action
handover =
    acquire Holder.a RequestId.r1 ∷ failover ∷ tick ∷ tick ∷ acquire Holder.b RequestId.r2 ∷ []

run-Keeps_example : Keeps initial (run initial handover)
run-Keeps_example = run-Keeps initial handover initial-IsValid

lease_not_stolen_example :
    ((failed_over.holder ≡ granted.holder)
      × (failed_over.request_id ≡ granted.request_id)
      × (failed_over.sequence ≡ granted.sequence))
    ⊎ (failed_over.holder ≡ Holder.none)
lease_not_stolen_example =
    lease_not_stolen granted failed_over failover granted-IsValid (λ e. cc) failover_inherits

abbrev later : State
later = record failed_over { now = 1 }

tick_keeps_inherited : step failed_over tick ≡ stepped later
unfolding step
tick_keeps_inherited = refl

inherited_frozen_example : (tick ≡ tick) ⊎ (tick ≡ failover)
inherited_frozen_example =
    inherited_frozen failed_over later tick failed_over-IsValid refl tick_keeps_inherited

first_grant : step initial (acquire Holder.a RequestId.r1) ≡ stepped granted
unfolding step initial
first_grant = refl

acquire_grants_example :
    (granted ≡ initial)
    ⊎ ((initial.holder ≡ Holder.none)
        × (granted.holder ≡ Holder.a)
        × (granted.request_id ≡ RequestId.r1)
        × (granted.lease_owner_epoch ≡ initial.current_owner_epoch)
        × (granted.sequence ≡ initial.sequence + 1)
        × (granted.expires_at ≡ initial.now + 2))
acquire_grants_example =
    acquire_grants initial granted Holder.a RequestId.r1 initial-IsValid first_grant

run-later : run failed_over (tick ∷ []) ≡ stepped later
unfolding run step
run-later = refl

stale_fence_refused_example :
    (step later (renew Holder.a 1 1) ≡ refused) × (step later (release Holder.a 1 1) ≡ refused)
stale_fence_refused_example =
    stale_fence_refused failed_over later (tick ∷ []) Holder.a 1 1 failed_over-IsValid
      (inl (omega arith)) run-later

two_ticks_free_example :
    (t : State) × (run granted (tick ∷ tick ∷ []) ≡ stepped t) × (t.holder ≡ Holder.none)
two_ticks_free_example = two_ticks_free granted granted-IsValid (omega arith)
