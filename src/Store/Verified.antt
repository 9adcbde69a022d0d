-- ===== src/Store/Verified.antt =====
-- The archive that `resolve` of
-- cert/beamscale-critical-section/infra-runtime-host/src/artifact_store.rs answers.
use rust_app.Prelude.{List, ◌∷◌, List, ℕ, ◌≤◌, ◌<◌, ◌≡◌, ◌⊎◌, true, arith}
use rust_app.Store.{lift-ok, pure-ok, json, done, lift, ask, ask-ok, io, bind-ok}
use rust_app.Prelude.Text.{Text, bytes, text_eq_iff}
use rust_app.Prelude.Result.{ok, map_err, map_err-ok}
use rust_app.Prelude.{refl}
use rust_app.Store.Digests.{HasDigest, hash_file-ok}
use mathlib.Core.Path.{subst}
use rust_app.Store.{
  lift, io, map_not_found, ask, Call, ResolvedArtifact, ArtifactStore, Env, refuse-then,
  DeploymentRecord, History, then-ok, refuse_if-ok,
}
use rust_app.Host.Path.{join}
use rust_app.Store.Archive.{
  resolve, resolve_archive, is_within, resolve_directory, hash_file, is_sha256, validate_sha256,
  validate_record,
}

-- A record that may stand under the given digest.
pub record IsAdmissible (build_sha256 : Text) (max : ℕ) (deployment : DeploymentRecord)
    : Type 0 where
  pub build : deployment.build_sha256 ≡ build_sha256
  pub build_digest : is_sha256 deployment.build_sha256 ≡ true
  pub archive_digest : is_sha256 deployment.archive_sha256 ≡ true
  pub verified : deployment.verification_state ≡ bytes "verified"
  pub name :
      (deployment.archive_name ≡ bytes "worker.zip")
      ⊎ (deployment.archive_name ≡ bytes "worker.tar.gz")
  pub positive : 0 < deployment.archive_bytes
  pub bounded : deployment.archive_bytes ≤ max

validate_sha256-ok :
    (value : Text) (h g : History) → validate_sha256 value h ≡ (ok tt, g) → is_sha256 value ≡ true
unfolding validate_sha256
validate_sha256-ok value h g e = let (valid, _) = refuse_if-ok _ _ h g e in ground arith

validate_record-IsAdmissible :
    (build_sha256 : Text) (deployment : DeploymentRecord) (max : ℕ) (h g : History)
    → validate_record build_sha256 deployment max h ≡ (ok tt, g)
    → IsAdmissible build_sha256 max deployment
unfolding validate_record
validate_record-IsAdmissible build_sha256 deployment max h g e =
    let (h1, build, e1) = then-ok (validate_sha256 deployment.build_sha256) _ h e in
    let (h2, archive, e2) = then-ok (validate_sha256 deployment.archive_sha256) _ h1 e1 in
    let (key, e3) = refuse-then _ _ _ h2 e2 in
    let (state, e4) = refuse-then _ _ _ h2 e3 in
    let (name, e5) = refuse-then _ _ _ h2 e4 in
    let (size, _) = refuse_if-ok _ _ h2 g e5 in
    let same_key = text_eq_iff deployment.build_sha256 build_sha256 in
    let same_state = text_eq_iff deployment.verification_state (bytes "verified") in
    let zip = text_eq_iff deployment.archive_name (bytes "worker.zip") in
    let tar = text_eq_iff deployment.archive_name (bytes "worker.tar.gz") in
    record {
      build = ground (arith, same_key.0);
      build_digest = validate_sha256-ok _ h h1 build;
      archive_digest = validate_sha256-ok _ h1 h2 archive;
      verified = ground (arith, same_state.0);
      name = ground (arith, zip.0, tar.0);
      positive = ground arith;
      bounded = ground arith;
    }

module _ (env : Env) where
  module _ (store : ArtifactStore) (build_sha256 : Text) where
    -- What the record, the root and the directory that are found rest on: the answers of the
    -- environment for the build's own directory and for the file of the record in it.
    pub record Resolves (root canonical_dir : Text) (deployment : DeploymentRecord) : Type 0 where
      pub asked_root : History
      pub canonical_root : env.path (Call.canonicalize store.root ∷ asked_root) ≡ done root
      pub asked_dir : History
      pub dir :
          env.path (Call.canonicalize (join store.root build_sha256) ∷ asked_dir)
          ≡ done canonical_dir
      pub dir_within : is_within canonical_dir root ≡ true
      pub asked_record : History
      pub record_bytes : List ℕ
      pub recorded :
          env.content (Call.read (join canonical_dir (bytes ".deployment.json")) ∷ asked_record)
          ≡ done record_bytes
      pub parsed : env.from_slice record_bytes ≡ ok deployment
      pub admissible : IsAdmissible build_sha256 store.max_archive_bytes deployment

    resolve_directory-Resolves :
        (h : History) {found : Text × Text × DeploymentRecord} {h' : History}
        → resolve_directory env store build_sha256 h ≡ (ok found, h')
        → Resolves found.0 found.1 found.2
    unfolding resolve_directory
    resolve_directory-Resolves h e =
        let (h1, _, e1) = then-ok (validate_sha256 build_sha256) _ h e in
        let (root, h2, rooted, e2) = bind-ok (ask _ env.path map_not_found) _ h1 e1 in
        let (meta, h3, _, e3) = bind-ok (ask _ env.metadata map_not_found) _ h2 e2 in
        let (_, e4) = refuse-then _ _ _ h3 e3 in
        let (dir, h4, canonical, e5) = bind-ok (ask _ env.path io) _ h3 e4 in
        let (within, e6) = refuse-then _ _ _ h4 e5 in
        let (record_bytes, h5, read, e7) = bind-ok (ask _ env.content map_not_found) _ h4 e6 in
        let (deployment, h6, parsed, e8) =
          bind-ok (lift (map_err json (env.from_slice record_bytes))) _ h5 e7 in
        let (h7, valid, e9) =
          then-ok (validate_record build_sha256 deployment store.max_archive_bytes) _ h6 e8 in
        subst (λ q. Resolves q.0 q.1 q.2) (pure-ok _ h7 e9)
          (record {
            asked_root = h1;
            canonical_root = ask-ok _ env.path map_not_found h1 rooted;
            asked_dir = h3;
            dir = ask-ok _ env.path io h3 canonical;
            dir_within = ground arith;
            asked_record = h4;
            record_bytes = record_bytes;
            recorded = ask-ok _ env.content map_not_found h4 read;
            parsed = map_err-ok json _ (lift-ok _ h5 parsed);
            admissible = validate_record-IsAdmissible _ _ _ h6 h7 valid;
          })

    -- What the archive's resolution asks of its record, its directory and its root. The path is the
    -- answer for the record's name in the directory, and the digest is that of what the file at
    -- this path gives.
    pub record IsArchive (root canonical_dir : Text) (deployment : DeploymentRecord)
        (a : ResolvedArtifact) : Type 0 where
      pub build : a.build_sha256 ≡ deployment.build_sha256
      pub archive_name : a.archive_name ≡ deployment.archive_name
      pub archive_bytes : a.archive_bytes ≡ deployment.archive_bytes
      pub archive_sha256 : a.archive_sha256 ≡ deployment.archive_sha256
      pub asked_path : History
      pub path :
          env.path (Call.canonicalize (join canonical_dir deployment.archive_name) ∷ asked_path)
          ≡ done a.archive_path
      pub within_dir : is_within a.archive_path canonical_dir ≡ true
      pub within : is_within a.archive_path root ≡ true
      pub before : History
      pub digest : HasDigest env a.archive_path store.max_archive_bytes before a.archive_sha256

    resolve_archive-IsArchive :
        (root canonical_dir : Text) (deployment : DeploymentRecord) (h : History)
        {a : ResolvedArtifact} {h' : History}
        → resolve_archive env store root canonical_dir deployment h ≡ (ok a, h')
        → IsArchive root canonical_dir deployment a
    unfolding resolve_archive
    resolve_archive-IsArchive root canonical_dir deployment h e =
        let (meta, h1, _, e1) = bind-ok (ask _ env.metadata map_not_found) _ h e in
        let (_, e2) = refuse-then _ _ _ h1 e1 in
        let (path, h2, found, e3) = bind-ok (ask _ env.path io) _ h1 e2 in
        let (within, e4) = refuse-then _ _ _ h2 e3 in
        let (size, e5) = refuse-then _ _ _ h2 e4 in
        let (actual, h3, hashed, e6) =
          bind-ok (hash_file env path store.max_archive_bytes) _ h2 e5 in
        let (same, e7) = refuse-then _ _ _ h3 e6 in
        let same_digest = text_eq_iff actual deployment.archive_sha256 in
        subst (IsArchive root canonical_dir deployment) (pure-ok _ h3 e7) (record {
          build = refl;
          archive_name = refl;
          archive_bytes = ground arith;
          archive_sha256 = ground (arith, same_digest.0);
          asked_path = h1;
          path = ask-ok _ env.path io h1 found;
          within_dir = ground arith;
          within = ground arith;
          before = h2;
          digest = hash_file-ok env path store.max_archive_bytes h2 hashed;
        })

    -- The archive of a build, and the record that the environment gave for it.
    pub record IsVerified (a : ResolvedArtifact) : Type 0 where
      pub root : Text
      pub canonical_dir : Text
      pub deployment : DeploymentRecord
      pub resolves : Resolves root canonical_dir deployment
      pub archive : IsArchive root canonical_dir deployment a

    -- A build that the store resolves has a record, read from the build's own canonical directory
    -- in the store, that stands under its digest and is marked verified, with a canonical archive
    -- name and a size from 1 byte to the ceiling; the archive has the record's name, size and
    -- digest; its path is the canonical one of that name in that directory, under the directory
    -- and the store's canonical root; and the digest is that of what the file at this path gives,
    -- opened and read to its end, which is within the ceiling. The file system may answer in any
    -- way.
    pub resolve-IsVerified :
        (h : History) {a : ResolvedArtifact} {h' : History}
        → resolve env store build_sha256 h ≡ (ok a, h')
        → IsVerified a
    unfolding resolve
    resolve-IsVerified h e =
        let (h1, _, e1) = then-ok (validate_sha256 build_sha256) _ h e in
        let (found, h2, resolved, e2) =
          bind-ok (resolve_directory env store build_sha256) _ h1 e1 in
        record {
          root = found.0;
          canonical_dir = found.1;
          deployment = found.2;
          resolves = resolve_directory-Resolves h1 resolved;
          archive = resolve_archive-IsArchive found.0 found.1 found.2 h2 e2;
        }
