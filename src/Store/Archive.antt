-- ===== src/Store/Archive.antt =====
-- The resolution of a build to its verified archive: `resolve`, `resolve_directory`,
-- `validate_record`, `validate_sha256` and `hash_file` of
-- cert/beamscale-critical-section/infra-runtime-host/src/artifact_store.rs.
use rust_app.Prelude.{
  ◌-◌, ℕ, zero, suc, ◌+◌, ◌/◌, ◌%◌, Bool, true, false, not, ◌&&◌, ◌||◌, List, [], ◌∷◌, ◌++◌, ltb,
  leb, nat_eq, u64_max, if◌then◌else◌,
}
use rust_app.Prelude.Lists.{length, all, is_empty}
use rust_app.Prelude.Text.{Text, bytes, text_eq}
use rust_app.Prelude.Result.{err, map_err}
use rust_app.Host.Path.{join, components, is_digit}
use rust_app.Store.{
  ArtifactStore, ResolvedArtifact, DeploymentRecord, invalid_digest, unsafe_registry_entry,
  unsafe_archive, registry_escape, invalid_record, other_key, not_verified, not_canonical,
  archive_too_large, archive_digest_mismatch, io, json, out_of_rounds, Call, Env, Io, ◌>>=◌, ◌>>◌,
  pure, lift, refuse_if, map_not_found, ask,
}

abbrev pub hex_digit : ℕ → ℕ
hex_digit d = if ltb d 10 then b'0' + d else b'a' + (d - 10)

-- `{:x}` of a digest.
unfoldable pub hex : List ℕ → Text
hex [] = []
hex (x ∷ l) = hex_digit (x / 16) ∷ hex_digit (x % 16) ∷ hex l

-- `Path::starts_with` and the equality of paths, by components: both paths are answers of
-- `canonicalize`, so they are absolute.
unfoldable pub has_prefix : List Text → List Text → Bool
has_prefix path [] = true
has_prefix [] (q ∷ prefix) = false
has_prefix (p ∷ path) (q ∷ prefix) = text_eq p q && has_prefix path prefix

unfoldable pub is_within : Text → Text → Bool
unfolding has_prefix
is_within path directory = has_prefix (components path) (components directory)

unfoldable pub same_path : Text → Text → Bool
unfolding is_within
same_path p q = is_within p q && is_within q p

abbrev pub is_hex_byte : ℕ → Bool
is_hex_byte b = is_digit b || (leb b'a' b && leb b b'f')

abbrev pub is_sha256 : Text → Bool
is_sha256 value = nat_eq (length value) 64 && all is_hex_byte value

unfoldable pub validate_sha256 : Text → Io (Unit {0})
validate_sha256 value = refuse_if (not (is_sha256 value)) invalid_digest

abbrev pub is_archive_name : Text → Bool
is_archive_name name = text_eq name (bytes "worker.zip") || text_eq name (bytes "worker.tar.gz")

unfoldable pub validate_record : Text → DeploymentRecord → ℕ → Io (Unit {0})
validate_record requested_digest deployment max_archive_bytes = do
  validate_sha256 deployment.build_sha256
  validate_sha256 deployment.archive_sha256
  refuse_if (not (text_eq deployment.build_sha256 requested_digest)) (invalid_record other_key)
  refuse_if (not (text_eq deployment.verification_state (bytes "verified")))
      (invalid_record not_verified)
  refuse_if (not (is_archive_name deployment.archive_name)) (invalid_record not_canonical)
  refuse_if (nat_eq deployment.archive_bytes 0 || ltb max_archive_bytes deployment.archive_bytes)
      archive_too_large

module _ (env : Env) where
  -- The loop of `hash_file`, over what is read so far. A round reads a byte or more, or ends the
  -- loop, so `max_bytes + 2` rounds are enough.
  unfoldable pub hash_rounds : ℕ → ℕ → List ℕ → Io Text
  hash_rounds zero max_bytes content = lift (err out_of_rounds)
  hash_rounds (suc rounds) max_bytes content = do
    buffer ← ask Call.read_chunk env.chunk io
    elim (is_empty buffer) [
      | true ↦ pure (hex (env.sha256 content))
      | false ↦ do
        refuse_if (ltb u64_max (length content + length buffer)) archive_too_large
        refuse_if (ltb max_bytes (length content + length buffer)) archive_too_large
        hash_rounds rounds max_bytes (content ++ buffer)
    ]

  unfoldable pub hash_file : Text → ℕ → Io Text
  unfolding hash_rounds
  hash_file path max_bytes = do
    ask (Call.open_file path) env.opened io
    hash_rounds (max_bytes + 2) max_bytes []

  module _ (store : ArtifactStore) where
    unfoldable pub resolve_directory : Text → Io (Text × Text × DeploymentRecord)
    resolve_directory build_sha256 = do
      validate_sha256 build_sha256
      root ← ask (Call.canonicalize store.root) env.path map_not_found
      let deployment_dir = join store.root build_sha256
      dir_meta ← ask (Call.symlink_metadata deployment_dir) env.metadata map_not_found
      refuse_if (not dir_meta.is_dir || dir_meta.is_symlink) unsafe_registry_entry
      canonical_dir ← ask (Call.canonicalize deployment_dir) env.path io
      refuse_if (not (is_within canonical_dir root) || same_path canonical_dir root) registry_escape
      record_bytes ←
          ask (Call.read (join canonical_dir (bytes ".deployment.json"))) env.content map_not_found
      deployment ← lift (map_err json (env.from_slice record_bytes))
      validate_record build_sha256 deployment store.max_archive_bytes
      pure (root, canonical_dir, deployment)

    -- `resolve`, once the directory is resolved.
    unfoldable pub resolve_archive : Text → Text → DeploymentRecord → Io ResolvedArtifact
    resolve_archive root canonical_dir deployment = do
      let archive_path = join canonical_dir deployment.archive_name
      archive_meta ← ask (Call.symlink_metadata archive_path) env.metadata map_not_found
      refuse_if (not archive_meta.is_file || archive_meta.is_symlink) unsafe_archive
      canonical_archive ← ask (Call.canonicalize archive_path) env.path io
      refuse_if
          (not (is_within canonical_archive canonical_dir)
            || not (is_within canonical_archive root))
          registry_escape
      refuse_if
          (nat_eq archive_meta.len 0
            || ltb store.max_archive_bytes archive_meta.len
            || not (nat_eq archive_meta.len deployment.archive_bytes))
          archive_too_large
      actual_sha256 ← hash_file canonical_archive store.max_archive_bytes
      refuse_if (not (text_eq actual_sha256 deployment.archive_sha256)) archive_digest_mismatch
      pure (record {
        build_sha256 = deployment.build_sha256;
        archive_name = deployment.archive_name;
        archive_sha256 = actual_sha256;
        archive_bytes = archive_meta.len;
        archive_path = canonical_archive;
      })

    unfoldable pub resolve : Text → Io ResolvedArtifact
    resolve build_sha256 = do
      validate_sha256 build_sha256
      (root, canonical_dir, deployment) ← resolve_directory build_sha256
      resolve_archive root canonical_dir deployment
