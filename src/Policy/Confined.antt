-- ===== src/Policy/Confined.antt =====
-- The process that `resolve_process` of proc-isolation-proof/src/config.rs gives to the platforms.
use rust_app.Prelude.{◌≡◌, true, false, Option, none, some, List, [], ◌∷◌, arith}
use rust_app.Prelude.Lists.{All}
use rust_app.Prelude.Text.{Text}
use rust_app.Prelude.Dict.{lookup}
use rust_app.Prelude.BTree.{text_key, BTreeMap, All-lookup, extend}
use rust_app.Prelude.Result.{map_err, ok, then-ok, bind-ok, map_err-ok}
use rust_app.Host.Path.{is_absolute}
use rust_app.Policy.{resolution, Config, Group, Process, ResolvedProcess}
use rust_app.Policy.Check.{validate, validate_environment, contains_nul}
use rust_app.Policy.Resolve.{
  not_empty, ReactiveMaps, group_name, resolve_process, resolved, found_or,
}
use rust_app.Policy.Checked.{
  IsConfined, IsHarmless, environment-All, validate-IsValidated, validate_groups-All,
  validate_process-IsRunnable,
}

found_or-ok : {E A : Type 0} (e : E) (o : Option A) {a : A} → found_or e o ≡ ok a → o ≡ some a
found_or-ok e none h = cc
found_or-ok e (some a) h = cc h

resolved-command :
    (maps : ReactiveMaps) (name group : Text) (policy : Group) (environment : BTreeMap Text)
    (command : List Text) {r : ResolvedProcess}
    → resolved maps name group policy environment command ≡ ok r
    → (command ≡ r.executable ∷ r.args)
      × (r.group ≡ group)
      × (r.policy ≡ policy)
      × (r.environment ≡ environment)
resolved-command maps name group policy environment [] h = cc
resolved-command maps name group policy environment (executable ∷ args) h = ground arith

-- What a resolution that succeeds has found.
pub record IsFound (config : Config) (name : Text) (r : ResolvedProcess) : Type 0 where
  pub process : Process
  pub configured : lookup name config.processes ≡ some process
  pub in_group : lookup r.group config.groups ≡ some r.policy
  pub command : process.command ≡ r.executable ∷ r.args
  pub harmless : All IsHarmless r.environment

resolve_process-IsFound :
    (maps : ReactiveMaps) (config : Config) (name : Text) (override : Option Text)
    (r : ResolvedProcess)
    → resolve_process maps config name override ≡ ok r
    → IsFound config name r
unfolding resolve_process
resolve_process-IsFound maps config name override r h =
    let (process, at, h1) = bind-ok (found_or _ (lookup name config.processes)) _ h in
    let (group, _, h2) = bind-ok (group_name maps config name (not_empty override)) _ h1 in
    let (policy, known, h3) = bind-ok (found_or _ (lookup group config.groups)) _ h2 in
    let environment = extend policy.environment process.environment in
    let (valid, h4) = then-ok (map_err resolution (validate_environment environment)) _ h3 in
    let (command, same_group, same_policy, same_environment) =
      resolved-command maps name group policy environment process.command h4 in
    record {
      process = process;
      configured = found_or-ok _ _ at;
      in_group = cc (found_or-ok _ _ known, same_group, same_policy);
      command = command;
      harmless = rw same_environment (environment-All environment (map_err-ok resolution _ valid));
    }

-- A process that is resolved from a validated policy, by any override and whatever the reactive
-- map says, runs an absolute executable without NUL, under a group of the policy that denies
-- loopback and private networks unless it has no network, has limits, and exposes only absolute
-- paths that are not the root; and its environment has only proper keys that are not forbidden,
-- with values without NUL.
pub resolve_process-IsConfined :
    (maps : ReactiveMaps) (config : Config) (name : Text) (override : Option Text)
    (r : ResolvedProcess)
    → validate config ≡ ok tt
    → resolve_process maps config name override ≡ ok r
    → (lookup r.group config.groups ≡ some r.policy)
      × IsConfined r.policy
      × All IsHarmless r.environment
      × (is_absolute r.executable ≡ true)
      × (contains_nul r.executable ≡ false)
resolve_process-IsConfined maps config name override r valid h =
    let checked = validate-IsValidated config valid in
    let found = resolve_process-IsFound maps config name override r h in
    let confined = validate_groups-All config config.groups [] checked.groups in
    let runnable =
      validate_process-IsRunnable config checked.declared name found.process
        (All-lookup _ name found.process config.processes checked.processes found.configured) in
    let (executable, _, command, absolute, no_nul) = runnable.command in
    let same : r.executable ≡ executable = cc (command, found.command) in
    (
      found.in_group,
      All-lookup (λ e. IsConfined e.1) r.group r.policy config.groups confined found.in_group,
      found.harmless,
      rw same absolute,
      rw same no_nul,
    )
