-- ===== src/Store/Hashing.antt =====
-- The rounds of `hash_file` of
-- cert/beamscale-critical-section/infra-runtime-host/src/artifact_store.rs: the pieces that a
-- file is read in, and the bound.
use rust_app.Prelude.{
  sym, ◌∙◌, ℕ, zero, suc, ◌+◌, ◌≤◌, ◌<◌, ◌≡◌, ◌≢◌, ap, true, false, List, [], ◌∷◌, ◌++◌, arith, ltb,
  u64_max, inl, inr, Bool-cases,
}
use mathlib.Core.List.{append-nil, append_assoc}
use rust_app.Prelude.Lists.{length, is_empty}
use rust_app.Prelude.Text.{Text}
use rust_app.Prelude.Result.{Result, ok, err}
use rust_app.Host.System.{Reply, done, failed}
use rust_app.Store.{
  pure, Io, refuse_if, replied, IoError, Env, History, Call, ArtifactStoreError, archive_too_large,
  out_of_rounds, resume, ◌>>=◌, ◌>>◌, io,
}
use rust_app.Store.Archive.{hex, hash_rounds, hash_file}

pub length-append : (xs ys : List ℕ) → length (xs ++ ys) ≡ length xs + length ys
length-append [] ys = omega arith
length-append (x ∷ xs) ys = omega (arith, length-append xs ys)

is_empty-length : (l : List ℕ) → is_empty l ≡ false → 0 < length l
is_empty-length [] e = cc e
is_empty-length (x ∷ l) e = omega arith

-- The reads from history `h` on give these pieces, none of them empty, and then the end.
abbrev pub Serves : Env → List (List ℕ) → History → Type 0
Serves env [] h = env.chunk (Call.read_chunk ∷ h) ≡ done []
Serves env (piece ∷ pieces) h =
    (env.chunk (Call.read_chunk ∷ h) ≡ done piece)
    × (is_empty piece ≡ false)
    × Serves env pieces (Call.read_chunk ∷ h)

abbrev pub concat : List (List ℕ) → List ℕ
concat [] = []
concat (piece ∷ pieces) = piece ++ concat pieces

-- What the reads leave in the history.
abbrev pub after_reads : List (List ℕ) → History → History
after_reads [] h = Call.read_chunk ∷ h
after_reads (piece ∷ pieces) h = after_reads pieces (Call.read_chunk ∷ h)

asked :
    {A B : Type 0} {g : History} {reply : Reply A} {x : A} (to_error : IoError → ArtifactStoreError)
    → reply ≡ done x
    → (f : A → Io B) → resume (replied to_error reply, g) f ≡ f x g
unfolding resume
asked {B} {g} to_error e f = ap (λ r. resume {B = B} (replied to_error r, g) f) e

module _ (env : Env) (max_bytes : ℕ) where
  read_piece :
      (rounds : ℕ) (content buffer : List ℕ) (h : History)
      → is_empty buffer ≡ false
      → ltb u64_max (length content + length buffer) ≡ false
      → ltb max_bytes (length content + length buffer) ≡ false
      → (elim (is_empty buffer) as (λ _. Io Text) [
        | true ↦ pure (hex (env.sha256 content))
        | false ↦ do
          refuse_if (ltb u64_max (length content + length buffer)) archive_too_large
          refuse_if (ltb max_bytes (length content + length buffer)) archive_too_large
          hash_rounds env rounds max_bytes (content ++ buffer)
      ])
          h
        ≡ hash_rounds env rounds max_bytes (content ++ buffer) h
  unfolding ◌>>=◌ ◌>>◌ resume
  read_piece rounds content buffer h more fits_u64 fits_max = rw (more, fits_u64, fits_max)

  last_round :
      (rounds : ℕ) (content : List ℕ) (h : History)
      → env.chunk (Call.read_chunk ∷ h) ≡ done []
      → hash_rounds env (suc rounds) max_bytes content h
        ≡ (ok (hex (env.sha256 content)), Call.read_chunk ∷ h)
  unfolding hash_rounds ◌>>=◌ resume
  last_round rounds content h e = rw e

  next_round :
      (rounds : ℕ) (content piece : List ℕ) (h : History)
      → env.chunk (Call.read_chunk ∷ h) ≡ done piece
      → is_empty piece ≡ false
      → length (content ++ piece) ≤ max_bytes
      → max_bytes ≤ u64_max
      → hash_rounds env (suc rounds) max_bytes content h
        ≡ hash_rounds env rounds max_bytes (content ++ piece) (Call.read_chunk ∷ h)
  unfolding hash_rounds ◌>>=◌ ◌>>◌ resume
  next_round rounds content piece h e more fits small =
      let fits_u64 : ltb u64_max (length content + length piece) ≡ false =
        ground (arith, length-append content piece) in
      let fits_max : ltb max_bytes (length content + length piece) ≡ false =
        ground (arith, length-append content piece) in
      asked io e _ ∙ read_piece rounds content piece _ more fits_u64 fits_max

  -- The digest of the content read so far, extended by the pieces to come.
  hash_rounds-concat :
      (rounds : ℕ) (content : List ℕ) (pieces : List (List ℕ)) (h : History)
      → Serves env pieces h
      → length (content ++ concat pieces) ≤ max_bytes
      → max_bytes ≤ u64_max
      → max_bytes < length content + rounds
      → hash_rounds env (suc rounds) max_bytes content h
        ≡ (ok (hex (env.sha256 (content ++ concat pieces))), after_reads pieces h)
  hash_rounds-concat rounds content [] h serves fits small enough =
      last_round rounds content h serves
      ∙ ap (λ l. (ok (hex (env.sha256 l)), Call.read_chunk ∷ h)) (sym (append-nil content))
  hash_rounds-concat zero content (piece ∷ pieces) h (e, more, serves) fits small enough =
      let total = length-append content (concat (piece ∷ pieces)) in ground arith
  hash_rounds-concat (suc rounds) content (piece ∷ pieces) h (e, more, serves) fits small enough =
      let whole = append_assoc content piece (concat pieces) in
      let longer = is_empty-length piece more in
      let grown = length-append content piece in
      let total = length-append (content ++ piece) (concat pieces) in
      let total_is = ap length whole in
      next_round (suc rounds) content piece h e more (ground arith) small
      ∙ hash_rounds-concat rounds (content ++ piece) pieces _ serves (ground arith) small
          (ground arith)
      ∙ ap (λ l. (ok (hex (env.sha256 l)), after_reads pieces (Call.read_chunk ∷ h))) whole

  abbrev pub Ends : Result ArtifactStoreError Text × History → Type 0
  Ends run = run.0 ≢ err out_of_rounds

  -- The rest of a round, on what is read; a round that goes on ends as the next one does.
  round-Ends :
      (rounds : ℕ) (content : List ℕ) (h : History)
      → max_bytes < length content + suc rounds
      → ((more : List ℕ)
          → max_bytes < length more + rounds
          → length more ≤ max_bytes
          → Ends (hash_rounds env rounds max_bytes more h))
      → (reply : Reply (List ℕ))
      → Ends (
          resume
            (replied io reply, h)
            (λ buffer. elim (is_empty buffer) as (λ _. Io Text) [
              | true ↦ pure (hex (env.sha256 content))
              | false ↦ do
                refuse_if (ltb u64_max (length content + length buffer)) archive_too_large
                refuse_if (ltb max_bytes (length content + length buffer)) archive_too_large
                hash_rounds env rounds max_bytes (content ++ buffer)
            ]))
  unfolding resume ◌>>=◌ ◌>>◌
  round-Ends rounds content h enough next (failed e) = λ same. cc same
  round-Ends rounds content h enough next (done []) = λ same. cc same
  round-Ends rounds content h enough next (done (b ∷ l)) =
      let grown = length-append content (b ∷ l) in
      elim (Bool-cases (ltb u64_max (length content + length (b ∷ l)))) [
        | inl over ↦ rw over (λ same. cc same)
        | inr fits ↦ elim (Bool-cases (ltb max_bytes (length content + length (b ∷ l)))) [
          | inl over ↦ rw (fits, over) (λ same. cc same)
          | inr small ↦ rw (fits, small) (next (content ++ (b ∷ l)) (ground arith) (ground arith))
        ]
      ]

  rounds_end :
      (rounds : ℕ) (content : List ℕ) (h : History)
      → max_bytes < length content + rounds
      → length content ≤ max_bytes
      → Ends (hash_rounds env rounds max_bytes content h)
  unfolding hash_rounds ◌>>=◌
  rounds_end zero content h enough small = omega (arith, enough, small)
  rounds_end (suc rounds) content h enough small =
      round-Ends rounds content _ enough (λ more. rounds_end rounds more _)
        (env.chunk (Call.read_chunk ∷ h))

-- A file of at most the ceiling, however it is cut into reads, has the digest of all its bytes.
pub hash_file-concat :
    (env : Env) (path : Text) (max_bytes : ℕ) (pieces : List (List ℕ)) (h : History)
    → env.opened (Call.open_file path ∷ h) ≡ done tt
    → Serves env pieces (Call.open_file path ∷ h)
    → length (concat pieces) ≤ max_bytes
    → max_bytes ≤ u64_max
    → hash_file env path max_bytes h
      ≡ (ok (hex (env.sha256 (concat pieces))), after_reads pieces (Call.open_file path ∷ h))
unfolding hash_file ◌>>◌ ◌>>=◌
hash_file-concat env path max_bytes pieces h opens serves fits small =
    let two_more : max_bytes + 2 ≡ suc (suc max_bytes) = omega arith in
    asked io opens _
    ∙ ap (λ rounds. hash_rounds env rounds max_bytes [] (Call.open_file path ∷ h)) two_more
    ∙ hash_rounds-concat env max_bytes (suc max_bytes) [] pieces _ serves fits small (omega arith)

opened-Ends :
    (env : Env) (max_bytes : ℕ) (h : History) (reply : Reply (Unit {0}))
    → Ends env max_bytes
        (resume (replied io reply, h) (λ _. hash_rounds env (max_bytes + 2) max_bytes []))
unfolding resume
opened-Ends env max_bytes h (done tt) =
    rounds_end env max_bytes (max_bytes + 2) [] h (omega arith) (omega arith)
opened-Ends env max_bytes h (failed e) = λ same. cc same

-- Whatever is read, the rounds of the hash are enough: it ends with a digest or with an error of
-- the source.
pub hash_file_ends :
    (env : Env) (path : Text) (max_bytes : ℕ) (h : History)
    → (hash_file env path max_bytes h).0 ≢ err out_of_rounds
unfolding hash_file ◌>>◌ ◌>>=◌
hash_file_ends env path max_bytes h =
    opened-Ends env max_bytes _ (env.opened (Call.open_file path ∷ h))
