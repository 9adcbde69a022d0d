-- ===== src/Store/Digests.antt =====
-- What a hash that succeeds is made of, `hash_file` of
-- cert/beamscale-critical-section/infra-runtime-host/src/artifact_store.rs.
use mathlib.Core.Path.{subst}
use mathlib.Core.List.{append-nil, append_assoc}
use rust_app.Prelude.{
  refl, ◌∷◌, ◌∙◌, zero, suc, true, false, u64_max, ltb, sym, suc, ap, ◌+◌, List, ◌++◌, [], List, ℕ,
  ◌≤◌, ◌≡◌, true, arith,
}
use rust_app.Prelude.Lists.{length, is_empty}
use rust_app.Store.{archive_too_large, refuse_if, Io, pure-ok, pure, ask, ask-ok, done, io, bind-ok}
use rust_app.Prelude.Text.{Text}
use rust_app.Prelude.Result.{ok}
use rust_app.Store.Hashing.{length-append, Serves, concat}
use rust_app.Store.{◌>>◌, io, ask, Call, Env, refuse-then, History}
use rust_app.Store.Archive.{hex, hash_rounds, hash_file}

piece-fits :
    (content piece more : List ℕ) (max : ℕ)
    → length ((content ++ piece) ++ more) ≤ max
    → length (content ++ (piece ++ more)) ≤ max
piece-fits content piece more max h =
    let same = ap length (append_assoc content piece more) in omega arith

module _ (env : Env) where
  -- The digest, under the ceiling, of the content and of what the reads from history `h` on give.
  pub record HasRead (max_bytes : ℕ) (content : List ℕ) (h : History) (t : Text) : Type 0 where
    pub pieces : List (List ℕ)
    pub served : Serves env pieces h
    pub hashed : t ≡ hex (env.sha256 (content ++ concat pieces))
    pub bounded : length (content ++ concat pieces) ≤ max_bytes

  -- The digest, under the ceiling, of what the file at a path gives when it is opened after the
  -- calls `h` and read to its end.
  pub record HasDigest (path : Text) (max_bytes : ℕ) (h : History) (t : Text) : Type 0 where
    pub opened : env.opened (Call.open_file path ∷ h) ≡ done tt
    pub content : HasRead max_bytes [] (Call.open_file path ∷ h) t

  ended :
      (max_bytes : ℕ) (content : List ℕ) (h : History) {t : Text} {g : History}
      → env.chunk (Call.read_chunk ∷ h) ≡ done []
      → length content ≤ max_bytes
      → pure (hex (env.sha256 content)) (Call.read_chunk ∷ h) ≡ (ok t, g)
      → HasRead max_bytes content h t
  ended max_bytes content h last small e = record {
    pieces = [];
    served = last;
    hashed = sym (pure-ok _ _ e) ∙ ap (λ l. hex (env.sha256 l)) (sym (append-nil content));
    bounded = let same = ap length (append-nil content) in omega arith;
  }

  extended :
      (max_bytes : ℕ) (content piece : List ℕ) (h : History) {t : Text}
      → env.chunk (Call.read_chunk ∷ h) ≡ done piece
      → is_empty piece ≡ false
      → HasRead max_bytes (content ++ piece) (Call.read_chunk ∷ h) t
      → HasRead max_bytes content h t
  extended max_bytes content piece h reply some_bytes rest = record {
    pieces = piece ∷ rest.pieces;
    served = (reply, some_bytes, rest.served);
    hashed =
        rest.hashed
        ∙ ap (λ l. hex (env.sha256 l)) (append_assoc content piece (concat rest.pieces));
    bounded = piece-fits content piece (concat rest.pieces) max_bytes rest.bounded;
  }

  -- The rest of a round of the loop, on what is read.
  abbrev round_at : ℕ → ℕ → List ℕ → List ℕ → Io Text
  round_at rounds max_bytes content buffer = elim (is_empty buffer) as (λ _. Io Text) [
    | true ↦ pure (hex (env.sha256 content))
    | false ↦ do
      refuse_if (ltb u64_max (length content + length buffer)) archive_too_large
      refuse_if (ltb max_bytes (length content + length buffer)) archive_too_large
      hash_rounds env rounds max_bytes (content ++ buffer)
  ]

  -- The rest of a round that ends well, where the next rounds do.
  round-ok :
      (rounds max_bytes : ℕ) (content : List ℕ) (h : History) {t : Text} {g : History}
      → length content ≤ max_bytes
      → ((more : List ℕ)
          → length more ≤ max_bytes
          → hash_rounds env rounds max_bytes more (Call.read_chunk ∷ h) ≡ (ok t, g)
          → HasRead max_bytes more (Call.read_chunk ∷ h) t)
      → (buffer : List ℕ) → env.chunk (Call.read_chunk ∷ h) ≡ done buffer
      → round_at rounds max_bytes content buffer (Call.read_chunk ∷ h) ≡ (ok t, g)
      → HasRead max_bytes content h t
  round-ok rounds max_bytes content h small next [] reply rest =
      ended max_bytes content h reply small rest
  round-ok rounds max_bytes content h small next (b ∷ buffer) reply rest =
      let (_, r1) = refuse-then _ _ _ _ rest in
      let (fits, r2) = refuse-then _ _ _ _ r1 in
      let grown = length-append content (b ∷ buffer) in
      extended max_bytes content (b ∷ buffer) h reply refl
        (next (content ++ (b ∷ buffer)) (ground arith) r2)

  rounds-ok :
      (rounds max_bytes : ℕ) (content : List ℕ) (h : History) {t : Text} {g : History}
      → length content ≤ max_bytes
      → hash_rounds env rounds max_bytes content h ≡ (ok t, g)
      → HasRead max_bytes content h t
  unfolding hash_rounds
  rounds-ok zero max_bytes content h small e = cc (ap (λ p. p.0) e)
  rounds-ok (suc rounds) max_bytes content h {t} {g} small e =
      let (buffer, h1, asked, rest) = bind-ok (ask Call.read_chunk env.chunk io) _ h e in
      let reply = ask-ok Call.read_chunk env.chunk io h asked in
      round-ok rounds max_bytes content h small
        (λ more. rounds-ok rounds max_bytes more (Call.read_chunk ∷ h)) buffer reply
        (subst (λ u. round_at rounds max_bytes content buffer u ≡ (ok t, g))
          (sym (ap (λ p. p.1) asked)) rest)

  pub hash_file-ok :
      (path : Text) (max_bytes : ℕ) (h : History) {t : Text} {g : History}
      → hash_file env path max_bytes h ≡ (ok t, g)
      → HasDigest path max_bytes h t
  unfolding hash_file ◌>>◌
  hash_file-ok path max_bytes h {t} {g} e =
      let (_, h1, asked, rest) = bind-ok (ask (Call.open_file path) env.opened io) _ h e in
      record {
        opened = ask-ok (Call.open_file path) env.opened io h asked;
        content = rounds-ok (max_bytes + 2) max_bytes [] (Call.open_file path ∷ h) (omega arith) (
            subst (λ u. hash_rounds env (max_bytes + 2) max_bytes [] u ≡ (ok t, g))
              (sym (ap (λ p. p.1) asked)) rest);
      }
