-- ===== src/Store.antt =====
-- The artifact store of the runtime host,
-- cert/beamscale-critical-section/infra-runtime-host/src/artifact_store.rs: its data, and what it
-- asks of the file system. As for the host, a call is recorded in a history, from which the
-- environment answers in any way, so files may change between two calls.
pub mod Archive
pub mod Bundle
pub mod Hashing
pub mod Digests
pub mod Verified
pub mod Members
pub mod Sorting
pub mod Documents
pub mod Packaged
mod Examples
use rust_app.Prelude.{refl, sym, ap, ◌≡◌, ℕ, Bool, true, false, Option, List, ◌∷◌}
use rust_app.Prelude.Text.{Text}
use rust_app.Prelude.Result.{Result, ok, err}
use rust_app.Host.Types.{IoError, not_found}
use rust_app.Host.System.{Reply, done, failed}

pub record ArtifactStore : Type 0 where
  pub root : Text
  pub max_archive_bytes : ℕ

pub record ResolvedArtifact : Type 0 where
  pub build_sha256 : Text
  pub archive_name : Text
  pub archive_sha256 : Text
  pub archive_bytes : ℕ
  pub archive_path : Text

pub record AdmittedArtifact : Type 0 where
  pub build_sha256 : Text
  pub archive_name : Text
  pub archive_sha256 : Text
  pub archive_bytes : ℕ
  pub bytes : List ℕ

pub record DeploymentRecord : Type 0 where
  pub build_sha256 : Text
  pub archive_sha256 : Text
  pub archive_name : Text
  pub archive_bytes : ℕ
  pub verification_state : Text

-- `InvalidRecord` has a constructor of Reason for each text. `out_of_rounds` is no error of the
-- source: it says that the bound on the rounds of `hash_file` was met.
pub data Reason : Type 0 where
  other_key not_verified not_canonical no_worker : Reason
  task_failed : Reason

pub data ArtifactStoreError : Type 0 where
  invalid_digest not_there unsafe_registry_entry unsafe_archive registry_escape : ArtifactStoreError
  unsafe_admitted_member : Text → ArtifactStoreError
  changed_member : Text → ArtifactStoreError
  non_utf8_member : ArtifactStoreError
  invalid_record : Reason → ArtifactStoreError
  archive_too_large archive_digest_mismatch : ArtifactStoreError
  io : IoError → ArtifactStoreError
  json : Text → ArtifactStoreError
  out_of_rounds : ArtifactStoreError

pub data Call : Type 0 where
  symlink_metadata canonicalize read open_file read_dir : Text → Call
  read_chunk next_entry spawn_blocking : Call

abbrev pub History : Type 0
History = List Call

pub record Metadata : Type 0 where
  pub is_file : Bool
  pub is_dir : Bool
  pub is_symlink : Bool
  pub len : ℕ

-- An entry of a directory; its name is missing where it is not UTF-8.
pub record DirEntry : Type 0 where
  pub path : Text
  pub file_name : Option Text

-- A member of the archive, with the header that it is written under.
pub record Member : Type 0 where
  pub path : Text
  pub size : ℕ
  pub mode : ℕ
  pub uid : ℕ
  pub gid : ℕ
  pub mtime : ℕ
  pub bytes : List ℕ

-- The answers of the file system, of `sha2`, of `serde_json` and of `tar` over `flate2`. A directory
-- is read as the list of what `next_entry` gives.
pub record Env : Type 0 where
  pub metadata : History → Reply Metadata
  pub path : History → Reply Text
  pub content : History → Reply (List ℕ)
  pub opened : History → Reply (Unit {0})
  pub chunk : History → Reply (List ℕ)
  pub listing : History → Reply (List (Reply DirEntry))
  pub joined : History → Bool
  pub sha256 : List ℕ → List ℕ
  pub from_slice : List ℕ → Result Text DeploymentRecord
  pub tar_gz : List Member → Reply (List ℕ)

abbrev pub Io : Type 0 → Type 0
Io A = History → Result ArtifactStoreError A × History

unfoldable pub resume :
    {A B : Type 0}
    → Result ArtifactStoreError A × History
    → (A → Io B)
    → Result ArtifactStoreError B × History
resume (ok x, h) f = f x h
resume (err e, h) f = (err e, h)

infixl 5 ◌>>=◌ ◌>>◌
unfoldable pub ◌>>=◌ : {A B : Type 0} → Io A → (A → Io B) → Io B
unfolding resume
◌>>=◌ m f h = resume (m h) f

unfoldable pub ◌>>◌ : {A B : Type 0} → Io A → Io B → Io B
unfolding ◌>>=◌
m >> k = m >>= λ _. k

abbrev pub pure : {A : Type 0} → A → Io A
pure x h = (ok x, h)

abbrev pub lift : {A : Type 0} → Result ArtifactStoreError A → Io A
lift r h = (r, h)

-- `if b { return Err(e); }`
abbrev pub refuse_if : Bool → ArtifactStoreError → Io (Unit {0})
refuse_if true e h = (err e, h)
refuse_if false e h = (ok tt, h)

abbrev pub map_not_found : IoError → ArtifactStoreError
map_not_found not_found = not_there
map_not_found e = io e

abbrev pub replied :
    {A : Type 0} → (IoError → ArtifactStoreError) → Reply A → Result ArtifactStoreError A
replied f (done x) = ok x
replied f (failed e) = err (f e)

-- One call, and what the environment answers, with the error that a failure becomes.
abbrev pub ask : {A : Type 0} → Call → (History → Reply A) → (IoError → ArtifactStoreError) → Io A
ask c answer f h = (replied f (answer (c ∷ h)), c ∷ h)

resume-ok :
    {A B : Type 0} (p : Result ArtifactStoreError A × History) (f : A → Io B) {b : B} {h' : History}
    → resume p f ≡ (ok b, h')
    → (a : A) × (g : History) × (p ≡ (ok a, g)) × (f a g ≡ (ok b, h'))
unfolding resume
resume-ok (ok a, g) f e = (a, g, refl, e)
resume-ok (err x, g) f e = cc (ap (λ p. p.0) e)

-- What a computation that succeeds went through.
pub bind-ok :
    {A B : Type 0} (m : Io A) (f : A → Io B) (h : History) {b : B} {h' : History}
    → (m >>= f) h ≡ (ok b, h')
    → (a : A) × (g : History) × (m h ≡ (ok a, g)) × (f a g ≡ (ok b, h'))
unfolding ◌>>=◌
bind-ok m f h e = resume-ok (m h) f e

pub then-ok :
    {B : Type 0} (m : Io (Unit {0})) (k : Io B) (h : History) {b : B} {h' : History}
    → (m >> k) h ≡ (ok b, h')
    → (g : History) × (m h ≡ (ok tt, g)) × (k g ≡ (ok b, h'))
unfolding ◌>>◌
then-ok m k h e = let (_, g, first, rest) = bind-ok m (λ _. k) h e in (g, first, rest)

pub refuse_if-ok :
    (b : Bool) (x : ArtifactStoreError) (h g : History)
    → refuse_if b x h ≡ (ok tt, g)
    → (b ≡ false) × (g ≡ h)
refuse_if-ok true x h g e = cc (ap (λ p. p.0) e)
refuse_if-ok false x h g e = (refl, sym (ap (λ p. p.1) e))

pub refuse-then :
    {B : Type 0} (b : Bool) (x : ArtifactStoreError) (k : Io B) (h : History) {y : B} {h' : History}
    → (refuse_if b x >> k) h ≡ (ok y, h')
    → (b ≡ false) × (k h ≡ (ok y, h'))
unfolding ◌>>◌ ◌>>=◌ resume
refuse-then true x k h e = cc (ap (λ p. p.0) e)
refuse-then false x k h e = (refl, e)

replied-ok :
    {A : Type 0} (f : IoError → ArtifactStoreError) (r : Reply A) {x : A}
    → replied f r ≡ ok x
    → r ≡ done x
replied-ok f (done y) e = cc e
replied-ok f (failed y) e = cc e

-- A call that succeeds was answered.
pub ask-ok :
    {A : Type 0} (c : Call) (answer : History → Reply A) (f : IoError → ArtifactStoreError)
    (h : History) {x : A} {g : History}
    → ask c answer f h ≡ (ok x, g)
    → answer (c ∷ h) ≡ done x
ask-ok c answer f h e = replied-ok f (answer (c ∷ h)) (ap (λ p. p.0) e)

ok_inj : {E A : Type 0} {x y : A} → Path (Result E A) (ok x) (ok y) → x ≡ y
ok_inj e = cc e

pub pure-ok :
    {A : Type 0} (x : A) (h : History) {y : A} {h' : History} → pure x h ≡ (ok y, h') → x ≡ y
pure-ok x h e = ok_inj (ap (λ p. p.0) e)

pub lift-ok :
    {A : Type 0} (r : Result ArtifactStoreError A) (h : History) {y : A} {h' : History}
    → lift r h ≡ (ok y, h')
    → r ≡ ok y
lift-ok r h e = ap (λ p. p.0) e

-- The same of a call whose answer is known.
pub answered-ok :
    {A : Type 0} (c : Call) (f : IoError → ArtifactStoreError) (h : History) {x y : A} {g : History}
    → ask c (λ _. done x) f h ≡ (ok y, g)
    → x ≡ y
answered-ok c f h e = ok_inj (ap (λ p. p.0) e)
