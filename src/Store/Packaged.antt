-- ===== src/Store/Packaged.antt =====
-- The archive of an admitted build, `resolve_admitted_bundle` of
-- cert/beamscale-critical-section/infra-runtime-host/src/artifact_store.rs.
use rust_app.Prelude.{ℕ, ◌≤◌, ◌<◌, ◌≡◌, true}
use rust_app.Prelude.Lists.{length, All}
use rust_app.Prelude.Text.{Text, bytes}
use rust_app.Host.System.{done}
use rust_app.Store.{AdmittedArtifact, Env}
use rust_app.Store.Archive.{hex}
use rust_app.Store.Bundle.{
  Entries, admitted_metadata, required_worker_beam, has_entry, build_admitted_tar_gz,
}
use rust_app.Store.Documents.{HasAll}
use rust_app.Store.Sorting.{total_size, IsSorted}
use rust_app.Store.Members.{IsMemberName}

-- All that an archive may hold.
pub record AreAdmitted (max_bytes : ℕ) (entries : Entries) : Type 0 where
  pub bounded : total_size entries ≤ max_bytes
  pub named : All (λ e. IsMemberName e.0) entries
  pub sorted : IsSorted entries
  pub documents : HasAll admitted_metadata entries

-- An archive, the entries that `tar` was given for it, and the bytes it answered.
pub record IsPackaged (env : Env) (max_bytes : ℕ) (build_sha256 : Text) (entries : Entries)
    (a : AdmittedArtifact) : Type 0 where
  pub build : a.build_sha256 ≡ build_sha256
  pub archive_name : a.archive_name ≡ bytes "worker.tar.gz"
  pub worker : has_entry required_worker_beam entries ≡ true
  pub archive : build_admitted_tar_gz env entries ≡ done a.bytes
  pub digest : a.archive_sha256 ≡ hex (env.sha256 a.bytes)
  pub size : a.archive_bytes ≡ length a.bytes
  pub positive : 0 < a.archive_bytes
  pub bounded : a.archive_bytes ≤ max_bytes
