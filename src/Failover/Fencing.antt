-- ===== src/Failover/Fencing.antt =====
-- Leases and fences in the failover model,
-- cert/beamscale-critical-section/supervisor/conformance/critical_section_formal_model.rs: holders,
-- inherited leases, and fences that are out of date.
use rust_app.Prelude.{ℕ, ◌+◌, ◌≤◌, ◌<◌, ◌≡◌, ◌≢◌, ◌⊎◌, inl, inr, refl, true, List, [], ◌∷◌, arith}
use rust_app.Failover.{
  State, Action, Holder, RequestId, Outcome, stepped, refused, panicked, max_time, step, expire,
  invariant, tick, failover, acquire, renew, release, owns,
}
use rust_app.Failover.Reach.{IsValid, Keeps, step-Keeps}

-- The path that `main` follows for a sequence of actions: a refused action leaves the state.
unfoldable pub run : State → List Action → Outcome
run s [] = stepped s
run s (x ∷ xs) = elim (step s x) [ refused ↦ run s xs | panicked ↦ panicked | stepped t ↦ run t xs ]

Keeps-trans : (s t : State) (o : Outcome) → Keeps s (stepped t) → Keeps t o → Keeps s o
Keeps-trans s t refused h k = tt
Keeps-trans s t panicked h k = k
Keeps-trans s t (stepped u) h k = ground arith

-- From a valid state no sequence of actions panics: it ends in a valid state, and the time, the
-- owner epoch and the fencing sequence have not gone back.
pub run-Keeps : (s : State) (xs : List Action) → IsValid s → Keeps s (run s xs)
unfolding run
run-Keeps s [] v = ground arith
run-Keeps s (x ∷ xs) v =
    go (step s x) (step-Keeps s x v) (λ t w. run-Keeps t xs w) (run-Keeps s xs v)
  where
    go :
        (o : Outcome)
        → Keeps s o
        → ((t : State) → IsValid t → Keeps t (run t xs))
        → Keeps s (run s xs)
        → Keeps s (elim o [ refused ↦ run s xs | panicked ↦ panicked | stepped t ↦ run t xs ])
    go refused k ih same = same
    go panicked k ih same = k
    go (stepped t) k ih same = Keeps-trans s t (run t xs) k (ih t k.0)

-- In a valid state with a holder, an accepted action leaves the lease with that holder, under
-- the same request and the same fencing sequence, or frees it: it never hands it to another one.
pub lease_not_stolen :
    (s t : State) (x : Action)
    → IsValid s
    → s.holder ≢ Holder.none
    → step s x ≡ stepped t
    → ((t.holder ≡ s.holder) × (t.request_id ≡ s.request_id) × (t.sequence ≡ s.sequence))
      ⊎ (t.holder ≡ Holder.none)
unfolding step expire invariant
lease_not_stolen s t tick v h e = ground arith
lease_not_stolen s t failover v h e = ground arith
lease_not_stolen s t (acquire k r) v h e = ground arith
lease_not_stolen s t (renew k p q) v h e = ground arith
lease_not_stolen s t (release k p q) v h e = ground arith

-- While a lease is inherited from an older owner epoch, only the passing of time and a further
-- failover are accepted: nobody can acquire, replay, renew or release it.
pub inherited_frozen :
    (s t : State) (x : Action)
    → IsValid s
    → s.inherited ≡ true
    → step s x ≡ stepped t
    → (x ≡ tick) ⊎ (x ≡ failover)
unfolding step expire invariant owns
inherited_frozen s t tick v h e = inl refl
inherited_frozen s t failover v h e = inr refl
inherited_frozen s t (acquire k r) v h e = ground arith
inherited_frozen s t (renew k p q) v h e = ground arith
inherited_frozen s t (release k p q) v h e = ground arith

-- An accepted acquire of a valid state is a replay that changes nothing, or a grant of a free
-- lease to the caller under the current owner epoch and the next fencing sequence.
pub acquire_grants :
    (s t : State) (h : Holder) (r : RequestId)
    → IsValid s
    → step s (acquire h r) ≡ stepped t
    → (t ≡ s)
      ⊎ ((s.holder ≡ Holder.none)
          × (t.holder ≡ h)
          × (t.request_id ≡ r)
          × (t.lease_owner_epoch ≡ s.current_owner_epoch)
          × (t.sequence ≡ s.sequence + 1)
          × (t.expires_at ≡ s.now + 2))
unfolding step expire invariant
acquire_grants s t h r v e = ground arith

stale_step :
    (t : State) (h : Holder) (p q : ℕ)
    → (p < t.current_owner_epoch) ⊎ (q < t.sequence)
    → (step t (renew h p q) ≡ refused) × (step t (release h p q) ≡ refused)
unfolding step expire owns
stale_step t h p q stale = ground arith

-- A fence that is behind the owner epoch or the sequence of a valid state is refused for renewal
-- and for release, after any further actions.
pub stale_fence_refused :
    (s t : State) (xs : List Action) (h : Holder) (p q : ℕ)
    → IsValid s
    → (p < s.current_owner_epoch) ⊎ (q < s.sequence)
    → run s xs ≡ stepped t
    → (step t (renew h p q) ≡ refused) × (step t (release h p q) ≡ refused)
stale_fence_refused s t xs h p q v stale e =
    let kept : Keeps s (stepped t) = rw e at (run-Keeps s xs v) in stale_step t h p q (ground arith)

after_tick : State → State
after_tick s = expire (record (expire s) { now = s.now + 1 })

step-tick :
    (s : State)
    → IsValid s
    → s.now + 1 ≤ max_time
    → (step s tick ≡ stepped (after_tick s)) × ((after_tick s).now ≡ s.now + 1)
unfolding step expire invariant after_tick
step-tick s v h = (ground arith, ground arith)

after_two_ticks_free : (s : State) → IsValid s → (after_tick (after_tick s)).holder ≡ Holder.none
unfolding expire after_tick
after_two_ticks_free s v = ground arith

-- A lease that nobody renews ends: two ticks before the last moment are accepted, and free the
-- critical section.
pub two_ticks_free :
    (s : State)
    → IsValid s
    → s.now + 2 ≤ max_time
    → (t : State) × (run s (tick ∷ tick ∷ []) ≡ stepped t) × (t.holder ≡ Holder.none)
unfolding run
two_ticks_free s v h =
    let (first, later) = step-tick s v (omega arith) in
    let kept : Keeps s (stepped (after_tick s)) = rw first at (step-Keeps s tick v) in
    let (second, _) = step-tick (after_tick s) kept.0 (omega arith) in
    (after_tick (after_tick s), rw (first, run) (rw (second, run)), after_two_ticks_free s v)
