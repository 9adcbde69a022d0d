-- ===== src/Store/Examples.antt =====
-- The theorems on the store at a registry with one build, whose files have three bytes each.
use rust_app.Prelude.{
  ℕ, zero, suc, ◌≡◌, ◌≢◌, ◌++◌, refl, true, false, some, List, [], ◌∷◌, if◌then◌else◌, arith,
}
use rust_app.Prelude.Lists.{length}
use rust_app.Prelude.Text.{Text, bytes, text_eq, starts_with}
use rust_app.Prelude.BTree.{text_compare}
use rust_app.Prelude.Result.{ok, err}
use rust_app.Host.System.{Reply, done}
use rust_app.Host.Path.{join, components}
use rust_app.Store.{
  ArtifactStore, ResolvedArtifact, AdmittedArtifact, DeploymentRecord, Env, History, Call, Metadata,
  Member, out_of_rounds, ◌>>=◌, ◌>>◌, resume,
}
use rust_app.Store.Archive.{
  hex, has_prefix, is_within, same_path, validate_sha256, validate_record, hash_rounds, hash_file,
  resolve_directory, resolve_archive, resolve,
}
use rust_app.Store.Bundle.{insert_sorted, sort_from}
use rust_app.Store.Hashing.{hash_file-concat, hash_file_ends}
use rust_app.Store.Verified.{IsVerified, resolve-IsVerified}

abbrev repeat : ℕ → ℕ → List ℕ
repeat zero b = []
repeat (suc n) b = b ∷ repeat n b

-- A digest of 32 bytes, the number of bytes each.
abbrev count_digest : List ℕ → List ℕ
count_digest content = repeat 32 (length content)

abbrev build : Text
build = hex (repeat 32 0xab)

abbrev directory : Text
directory = bytes "/r/" ++ build

abbrev file : Metadata
file = record { is_file = true; is_dir = false; is_symlink = false; len = 3 }

abbrev folder : Metadata
folder = record { is_file = false; is_dir = true; is_symlink = false; len = 0 }

abbrev deployment : DeploymentRecord
deployment = record {
  build_sha256 = build;
  archive_sha256 = hex (repeat 32 3);
  archive_name = bytes "worker.zip";
  archive_bytes = 3;
  verification_state = bytes "verified";
}

abbrev metadata_at : History → Reply Metadata
metadata_at (Call.symlink_metadata p ∷ h) = done (
    if text_eq p directory
    then folder
    else (if text_eq p (directory ++ bytes "/beam") then folder else file))
metadata_at _ = done file

abbrev same_place : History → Reply Text
same_place (Call.canonicalize p ∷ h) = done p
same_place _ = done []

abbrev three_bytes : History → Reply (List ℕ)
three_bytes (Call.read_chunk ∷ Call.read_chunk ∷ h) = done []
three_bytes _ = done (1 ∷ 2 ∷ 3 ∷ [])

abbrev packed : List Member → List ℕ
packed [] = 31 ∷ []
packed (m ∷ members) = m.size ∷ packed members

abbrev registry : Env
registry = record {
  metadata = metadata_at;
  path = same_place;
  content = three_bytes;
  opened = λ _. done tt;
  chunk = three_bytes;
  listing = λ _. done (
      done (record {
        path = directory ++ bytes "/beam/worker.beam";
        file_name = some (bytes "worker.beam");
      })
      ∷ []);
  joined = λ _. true;
  sha256 = count_digest;
  from_slice = λ _. ok deployment;
  tar_gz = λ members. done (packed members);
}

abbrev store : ArtifactStore
store = record { root = bytes "/r"; max_archive_bytes = 20 }

abbrev archive : ResolvedArtifact
archive = record {
  build_sha256 = build;
  archive_name = bytes "worker.zip";
  archive_sha256 = hex (repeat 32 3);
  archive_bytes = 3;
  archive_path = directory ++ bytes "/worker.zip";
}

resolve_run : resolve registry store build [] ≡ (ok archive, (resolve registry store build []).1)
unfolding resolve resolve_directory resolve_archive validate_sha256 validate_record hash_file
    hash_rounds hex is_within same_path has_prefix join components text_eq starts_with ◌>>=◌ ◌>>◌
    resume
resolve_run = refl

resolve-IsVerified_example : IsVerified registry store build archive
resolve-IsVerified_example = resolve-IsVerified registry store build [] resolve_run

hash_file-concat_example : hash_file registry (bytes "/f") 5 [] ≡ (
  ok (hex (count_digest (1 ∷ 2 ∷ 3 ∷ []))),
  Call.read_chunk ∷ Call.read_chunk ∷ Call.open_file (bytes "/f") ∷ [],
)
hash_file-concat_example =
    hash_file-concat registry (bytes "/f") 5 ((1 ∷ 2 ∷ 3 ∷ []) ∷ []) [] refl (refl, refl, refl)
      (omega arith) (omega arith)

hash_file_ends_example : (hash_file registry (bytes "/f") 2 []).0 ≢ err out_of_rounds
hash_file_ends_example = hash_file_ends registry (bytes "/f") 2 []

abbrev admitted : AdmittedArtifact
admitted = record {
  build_sha256 = build;
  archive_name = bytes "worker.tar.gz";
  archive_sha256 = hex (repeat 32 7);
  archive_bytes = 7;
  bytes = 3 ∷ 3 ∷ 3 ∷ 3 ∷ 3 ∷ 3 ∷ 31 ∷ [];
}

-- The modules come before the manifest.
sorted_members :
    sort_from [] ((bytes "manifest.json", 1 ∷ []) ∷ (bytes "beam/worker.beam", 2 ∷ []) ∷ [])
    ≡ (bytes "beam/worker.beam", 2 ∷ []) ∷ (bytes "manifest.json", 1 ∷ []) ∷ []
unfolding sort_from insert_sorted text_compare
sorted_members = refl
