-- ===== src/Host/Waiting.antt =====
-- The rounds of `wait_for_socket`, of
-- cert/beamscale-critical-section/infra-runtime-host/src/lib.rs, and the clock.
use rust_app.Prelude.{
  ℕ, zero, suc, ◌+◌, ◌*◌, ◌/◌, ◌≤◌, ◌≡◌, ◌∷◌, refl, true, false, inl, inr, Bool-cases, leb, arith,
}
use rust_app.Prelude.Text.{Text}
use rust_app.Host.Types.{Result, ok, err, firecracker, socket_timeout}
use rust_app.Host.System.{Env, Call, History, resume, ◌>>=◌, ◌>>◌}
use rust_app.Host.Files.{wait_rounds, wait_for_socket}

-- The clock of `Instant` does not go back over a look at a path, and a sleep of 25 ms lasts 25 ms.
pub record IsSteady (env : Env) : Type 0 where
  pub forward :
      (path : Text) (h : History)
      → env.clock (Call.instant ∷ h)
        ≤ env.clock (Call.instant ∷ Call.exists path ∷ Call.instant ∷ h)
  pub sleeps :
      (path : Text) (h : History)
      → env.clock (Call.instant ∷ h) + 25
        ≤ env.clock (Call.instant ∷ Call.exists path ∷ Call.sleep 25 ∷ Call.instant ∷ h)

-- How the wait ends: the last look found the socket, or the last reading of the clock is at the
-- deadline or after it, and the error says so.
pub Ended : Env → Text → ℕ → Result (Unit {0}) × History → Type 0
Ended env path deadline (ok _, h) =
    (before : History) × (h ≡ Call.exists path ∷ before) × (env.flag h ≡ true)
Ended env path deadline (err e, h) =
    (before : History) × (h ≡ Call.instant ∷ before)
    × (deadline ≤ env.clock h)
    × (e ≡ firecracker (socket_timeout path))

abbrev look : Text → History → History
look path h = Call.exists path ∷ h

abbrev read : Text → History → History
read path h = Call.instant ∷ look path h

module _ (env : Env) (path : Text) (deadline n : ℕ) (h : History) where
  found_round :
      env.flag (look path h) ≡ true → wait_rounds env (suc n) path deadline h ≡ (ok tt, look path h)
  unfolding wait_rounds ◌>>=◌ resume
  found_round there = rw there

  late_round :
      env.flag (look path h) ≡ false
      → leb deadline (env.clock (read path h)) ≡ true
      → wait_rounds env (suc n) path deadline h
        ≡ (err (firecracker (socket_timeout path)), read path h)
  unfolding wait_rounds ◌>>=◌ resume
  late_round missing late = ground arith

  next_round :
      env.flag (look path h) ≡ false
      → leb deadline (env.clock (read path h)) ≡ false
      → wait_rounds env (suc n) path deadline h
        ≡ wait_rounds env n path deadline (Call.sleep 25 ∷ read path h)
  unfolding wait_rounds ◌>>=◌ ◌>>◌ resume
  next_round missing early = ground arith

  round-Ended :
      (leb deadline (env.clock (read path h)) ≡ false
        → Ended env path deadline (wait_rounds env n path deadline (Call.sleep 25 ∷ read path h)))
      → Ended env path deadline (wait_rounds env (suc n) path deadline h)
  unfolding Ended
  round-Ended later = elim (Bool-cases (env.flag (look path h))) [
    | inl there ↦ rw (found_round there) (h, refl, there)
    | inr missing ↦ elim (Bool-cases (leb deadline (env.clock (read path h)))) [
      | inl late ↦ rw (late_round missing late) (_, refl, ground arith, refl)
      | inr early ↦ rw (next_round missing early) (later early)
    ]
  ]

module _ (env : Env) (steady : IsSteady env) (path : Text) where
  wait_rounds-Ended :
      (deadline rounds : ℕ) (h : History)
      → deadline ≤ env.clock (read path h) + rounds * 25
      → Ended env path deadline (wait_rounds env (suc rounds) path deadline h)
  wait_rounds-Ended deadline zero h enough =
      round-Ended env path deadline zero h λ early. absurd (ground arith)
  wait_rounds-Ended deadline (suc n) h enough = round-Ended env path deadline (suc n) h λ _.
      let slept = steady.sleeps path (look path h) in
      wait_rounds-Ended deadline n (Call.sleep 25 ∷ read path h) (omega arith)

  -- With a clock that is steady, the wait for the API socket ends by the socket, which the last
  -- look found, or by the deadline, which the last reading of the clock has reached; the bound on
  -- the rounds never ends it.
  pub wait_for_socket-Ended :
      (timeout_ms : ℕ) (h : History)
      → Ended env path
          (env.clock (Call.instant ∷ h) + timeout_ms)
          (wait_for_socket env path timeout_ms h)
  unfolding wait_for_socket ◌>>=◌ resume
  wait_for_socket-Ended timeout_ms h =
      let on = steady.forward path h in
      let start = env.clock (Call.instant ∷ h) in
      let rounds : timeout_ms / 25 + 2 ≡ suc (timeout_ms / 25 + 1) = omega arith in
      rw rounds (
        wait_rounds-Ended (start + timeout_ms) (timeout_ms / 25 + 1) (Call.instant ∷ h)
          (omega arith))
