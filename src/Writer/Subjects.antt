-- ===== src/Writer/Subjects.antt =====
-- The arguments that the runtime host passes to the identity writer, as
-- cert/beamscale-critical-section/infra-runtime-host/src/bin/bmscl-runtime-identity-writer.rs reads
-- them.
use rust_app.Prelude.{none}
use rust_app.Prelude.Text.{Text}
use rust_app.Host.Types.{Result, ShardRecord, HostConfig}
use rust_app.Host.Layout.{cgroup_path}
use rust_app.Writer.{Args}

-- What the host means by the arguments of the writer.
abbrev pub asked_identity : HostConfig → ShardRecord → Args
asked_identity config r = record {
  cgroup_root = config.cgroup_root;
  cgroup_path = cgroup_path config r;
  identity_root = config.identity_root;
  expected_runtime_id = none;
  user_id = r.user_id;
  tenant_id = r.key.tenant_id;
  deployment_id = r.root_deployment_id;
  invocation_id = none;
}
