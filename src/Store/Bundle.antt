-- ===== src/Store/Bundle.antt =====
-- The packaging of an admitted build, `resolve_admitted_bundle`, `read_regular_member` and
-- `build_admitted_tar_gz` of
-- cert/beamscale-critical-section/infra-runtime-host/src/artifact_store.rs.
use rust_app.Prelude.{
  ℕ, ◌+◌, Bool, false, not, ◌||◌, Option, none, some, List, [], ◌∷◌, ◌++◌, map, ltb, nat_eq,
  u64_max, if◌then◌else◌,
}
use mathlib.Core.List.{reverse}
use Prim.Native.Nat.{Ordering}
use rust_app.Prelude.Lists.{length, is_empty}
use rust_app.Prelude.Text.{Text, bytes, text_eq, starts_with}
use rust_app.Prelude.BTree.{text_compare}
use rust_app.Prelude.Result.{err}
use rust_app.Host.System.{Reply, done}
use rust_app.Host.Path.{join}
use rust_app.Store.{
  ArtifactStore, AdmittedArtifact, Member, DirEntry, unsafe_admitted_member, changed_member,
  non_utf8_member, registry_escape, archive_too_large, invalid_record, no_worker, task_failed, io,
  Call, Env, Io, ◌>>=◌, ◌>>◌, pure, lift, refuse_if, map_not_found, ask, replied,
}
use rust_app.Store.Archive.{hex, is_within, same_path, resolve, resolve_directory}

abbrev pub Entries : Type 0
Entries = List (Text × List ℕ)

abbrev pub admitted_metadata : List Text
admitted_metadata =
    bytes "manifest.json"
    ∷ bytes "admission-report.json"
    ∷ bytes "provenance.json"
    ∷ bytes "attestation.json"
    ∷ bytes "admission-receipt.json"
    ∷ []

abbrev pub required_worker_beam : Text
required_worker_beam = bytes "beam/worker.beam"

abbrev pub contains_byte : ℕ → Text → Bool
contains_byte b [] = false
contains_byte b (c ∷ s) = nat_eq b c || contains_byte b s

abbrev pub ends_with : Text → Text → Bool
ends_with suffix s = starts_with (reverse suffix) (reverse s)

abbrev pub unsafe_name : Text → Bool
unsafe_name name =
    is_empty name
    || not (ends_with (bytes ".beam") name)
    || contains_byte b'/' name
    || contains_byte 92 name

-- `entries.sort_by`: by name, where equal names keep their order.
unfoldable pub insert_sorted : Text × List ℕ → Entries → Entries
insert_sorted e [] = e ∷ []
insert_sorted e (f ∷ entries) = elim (text_compare f.0 e.0) [
  | Ordering.gt ↦ e ∷ f ∷ entries
  | _ ↦ f ∷ insert_sorted e entries
]

unfoldable pub sort_from : Entries → Entries → Entries
unfolding insert_sorted
sort_from sorted [] = sorted
sort_from sorted (e ∷ entries) = sort_from (insert_sorted e sorted) entries

abbrev pub has_entry : Text → Entries → Bool
has_entry name [] = false
has_entry name ((n, content) ∷ entries) = text_eq n name || has_entry name entries

-- The header of a member: its size, read-only for others, owned by root, at time 0.
abbrev pub member : Text × List ℕ → Member
member (path, content) = record {
  path = path;
  size = length content;
  mode = 0o644;
  uid = 0;
  gid = 0;
  mtime = 0;
  bytes = content;
}

module _ (env : Env) where
  unfoldable pub build_admitted_tar_gz : Entries → Reply (List ℕ)
  build_admitted_tar_gz entries = env.tar_gz (map member entries)

  -- The member's bytes and the new total.
  unfoldable pub read_regular_member : Text → Text → Text → ℕ → ℕ → Io (List ℕ × ℕ)
  read_regular_member deployment_dir path relative max_bytes total = do
    meta ← ask (Call.symlink_metadata path) env.metadata map_not_found
    refuse_if (not meta.is_file || meta.is_symlink) (unsafe_admitted_member relative)
    canonical ← ask (Call.canonicalize path) env.path io
    refuse_if (not (is_within canonical deployment_dir) || same_path canonical deployment_dir)
        registry_escape
    refuse_if (ltb u64_max (total + meta.len)) archive_too_large
    refuse_if (ltb max_bytes (total + meta.len)) archive_too_large
    content ← ask (Call.read canonical) env.content io
    refuse_if (not (nat_eq (length content) meta.len)) (changed_member relative)
    pure (content, total + meta.len)

  -- The loop over the metadata.
  unfoldable pub read_metadata : Text → ℕ → List Text → Entries × ℕ → Io (Entries × ℕ)
  read_metadata canonical_dir max_bytes [] read = pure read
  read_metadata canonical_dir max_bytes (name ∷ names) (entries, total) = do
    (content, more) ←
        read_regular_member canonical_dir (join canonical_dir name) name max_bytes total
    read_metadata canonical_dir max_bytes names (entries ++ ((name, content) ∷ []), more)

  abbrev pub utf8_name : Option Text → Io Text
  utf8_name none = lift (err non_utf8_member)
  utf8_name (some name) = pure name

  -- One round of the loop over the directory.
  unfoldable pub read_beam : Text → ℕ → Reply DirEntry → Entries × ℕ → Io (Entries × ℕ)
  read_beam canonical_dir max_bytes next (entries, total) = do
    entry ← ask Call.next_entry (λ _. next) io
    file_name ← utf8_name entry.file_name
    let relative = bytes "beam/" ++ file_name
    refuse_if (unsafe_name file_name) (unsafe_admitted_member relative)
    (content, more) ← read_regular_member canonical_dir entry.path relative max_bytes total
    pure (entries ++ ((relative, content) ∷ []), more)

  unfoldable pub read_beams : Text → ℕ → List (Reply DirEntry) → Entries × ℕ → Io (Entries × ℕ)
  read_beams canonical_dir max_bytes [] read = ask Call.next_entry (λ _. done read) io
  read_beams canonical_dir max_bytes (next ∷ reader) read = do
    more ← read_beam canonical_dir max_bytes next read
    read_beams canonical_dir max_bytes reader more

  -- `spawn_blocking(..).await`, then the two `?`.
  unfoldable pub packaged : Entries → Io (List ℕ)
  packaged entries h =
      let g = Call.spawn_blocking ∷ h in
      (
        (if env.joined g
            then replied io (build_admitted_tar_gz entries)
            else err (invalid_record task_failed)),
        g,
      )

  module _ (store : ArtifactStore) where
    -- The directory of the compiled modules.
    unfoldable pub open_beam_dir : Text → Io (List (Reply DirEntry))
    open_beam_dir canonical_dir = do
      let beam_dir = join canonical_dir (bytes "beam")
      beam_meta ← ask (Call.symlink_metadata beam_dir) env.metadata map_not_found
      refuse_if (not beam_meta.is_dir || beam_meta.is_symlink)
          (unsafe_admitted_member (bytes "beam"))
      canonical_beam ← ask (Call.canonicalize beam_dir) env.path io
      refuse_if
          (not (is_within canonical_beam canonical_dir) || same_path canonical_beam canonical_dir)
          registry_escape
      ask (Call.read_dir canonical_beam) env.listing io

    -- The end of `resolve_admitted_bundle`, from the sorted entries on.
    unfoldable pub package_entries : Text → Entries → Io AdmittedArtifact
    package_entries build_sha256 entries = do
      refuse_if (not (has_entry required_worker_beam entries)) (invalid_record no_worker)
      archive ← packaged entries
      refuse_if (nat_eq (length archive) 0 || ltb store.max_archive_bytes (length archive))
          archive_too_large
      pure (record {
        build_sha256 = build_sha256;
        archive_name = bytes "worker.tar.gz";
        archive_sha256 = hex (env.sha256 archive);
        archive_bytes = length archive;
        bytes = archive;
      })

    unfoldable pub resolve_admitted_bundle : Text → Io AdmittedArtifact
    resolve_admitted_bundle build_sha256 = do
      resolve env store build_sha256
      (root, canonical_dir, deployment) ← resolve_directory env store build_sha256
      described ← read_metadata canonical_dir store.max_archive_bytes admitted_metadata ([], 0)
      reader ← open_beam_dir canonical_dir
      (entries, total) ← read_beams canonical_dir store.max_archive_bytes reader described
      package_entries build_sha256 (sort_from [] entries)
