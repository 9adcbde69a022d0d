-- ===== src/Host/Rollback.antt =====
-- The roll back of `boot_vm` and `restore_vm`, of
-- cert/beamscale-critical-section/infra-runtime-host/src/lib.rs.
use rust_app.Prelude.{◌≡◌, refl}
use rust_app.Host.Types.{ShardRecord, HostConfig, Result, ok, err, RuntimeHandles}
use rust_app.Host.System.{◌>>◌, pure, resume, Env, Io, History, ◌>>=◌}
use rust_app.Host.Files.{terminate_pid}
use rust_app.Host.Layout.{JailedRuntime, RuntimePaths}
use rust_app.Host.Jail.{cleanup_jail}
use rust_app.Host.Vm.{or_roll_back, rolled, boot_jailed, restore_jailed, handles}

module _ (env : Env) (config : HostConfig) (jailed : JailedRuntime) where
  -- The history after the roll back of a failure at history `h`: the kill, then the cleanup.
  rolled_back : History → History
  rolled_back h = (cleanup_jail env config jailed (terminate_pid env jailed.pid h).1).1

  -- How a launch ends: with the handles of this jail, or with an error and the roll back last.
  pub Launched : Result RuntimeHandles × History → Type 0
  Launched (ok runtime, h) = runtime ≡ handles jailed
  Launched (err e, h) = (before : History) × (h ≡ rolled_back before)

  record Launches (m : Io RuntimeHandles) : Type 0 where
    ends : (h : History) → Launched (m h)

  resume-Launched :
      {A : Type 0} (p : Result A × History) (rest : Io RuntimeHandles)
      → Launches rest
      → Launched (resume (rolled env config jailed p) (λ _. rest))
  unfolding resume rolled Launched rolled_back
  resume-Launched (ok x, h) rest later = later.ends h
  resume-Launched (err e, h) rest later = (h, refl)

  guarded :
      {A : Type 0} (step : Io A) (rest : Io RuntimeHandles)
      → Launches rest
      → Launches (or_roll_back env config jailed step >> rest)
  unfolding or_roll_back ◌>>◌ ◌>>=◌
  guarded step rest later = record { ends = λ h. resume-Launched (step h) rest later }

  returned : Launches (pure (handles jailed))
  unfolding Launched
  returned = record { ends = λ h. refl }

  -- Once the jailer runs, a boot returns the handles of its jail, or it fails, and then the last
  -- calls that it made are the kill of the process and the removal of the jail.
  pub boot_jailed-Launched :
      (r : ShardRecord) (h : History) → Launched (boot_jailed env config r jailed h)
  unfolding boot_jailed
  boot_jailed-Launched r =
      (guarded _ _ (guarded _ _ (guarded _ _ (guarded _ _ (guarded _ _ returned))))).ends

  -- The same of a restore from a snapshot: the handles of its jail, or an error after the kill of
  -- the process and the removal of the jail.
  pub restore_jailed-Launched :
      (r : ShardRecord) (paths : RuntimePaths) (h : History)
      → Launched (restore_jailed env config r paths jailed h)
  unfolding restore_jailed
  restore_jailed-Launched r paths =
      (guarded _ _ (guarded _ _ (guarded _ _ (guarded _ _ (guarded _ _ returned))))).ends
