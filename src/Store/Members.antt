-- ===== src/Store/Members.antt =====
-- The members that `read_regular_member` of
-- cert/beamscale-critical-section/infra-runtime-host/src/artifact_store.rs reads, and the running
-- total.
use rust_app.Prelude.{
  if◌then◌else◌, ℕ, ◌+◌, ◌≤◌, ◌≡◌, ◌⊎◌, refl, Bool, true, false, List, [], ◌∷◌, ◌++◌, arith, inr,
}
use mathlib.Core.Path.{subst}
use rust_app.Prelude.Lists.{length, All}
use rust_app.Prelude.Text.{Text, bytes, text_eq}
use rust_app.Prelude.Result.{ok}
use rust_app.Host.System.{Reply}
use rust_app.Store.{
  answered-ok, Env, History, Call, DirEntry, ask, io, map_not_found, bind-ok, refuse-then, pure-ok,
}
use rust_app.Store.Bundle.{
  Entries, admitted_metadata, unsafe_name, read_regular_member, read_metadata, utf8_name, read_beam,
  read_beams,
}
use rust_app.Store.Sorting.{total_size, total_size-append, All-append}

abbrev pub one_of : Text → List Text → Bool
one_of name [] = false
one_of name (n ∷ names) = if text_eq name n then true else one_of name names

-- One of the five documents, or a compiled module directly under `beam/`.
abbrev pub IsMemberName : Text → Type 0
IsMemberName name =
    (one_of name admitted_metadata ≡ true)
    ⊎ ((file : Text) × (name ≡ bytes "beam/" ++ file) × (unsafe_name file ≡ false))

-- What is read so far, and its running total.
pub record IsBundle (max_bytes : ℕ) (read : Entries × ℕ) : Type 0 where
  pub counted : total_size read.0 ≡ read.1
  pub bounded : read.1 ≤ max_bytes
  pub named : All (λ e. IsMemberName e.0) read.0

IsBundle-append :
    (max_bytes total more : ℕ) (entries : Entries) (name : Text) (content : List ℕ)
    → IsBundle max_bytes (entries, total)
    → IsMemberName name
    → more ≡ total + length content
    → more ≤ max_bytes
    → IsBundle max_bytes (entries ++ ((name, content) ∷ []), more)
IsBundle-append max_bytes total more entries name content b named e small = record {
  counted = omega (arith, total_size-append entries ((name, content) ∷ []), b.counted, e);
  bounded = small;
  named = All-append (λ e. IsMemberName e.0) entries ((name, content) ∷ []) b.named (named, tt);
}

module _ (env : Env) (max_bytes : ℕ) where
  read_regular_member-ok :
      (dir path relative : Text) (total : ℕ) (h : History) {r : List ℕ × ℕ} {h' : History}
      → read_regular_member env dir path relative max_bytes total h ≡ (ok r, h')
      → (r.1 ≡ total + length r.0) × (r.1 ≤ max_bytes)
  unfolding read_regular_member
  read_regular_member-ok dir path relative total h e =
      let (meta, h1, _, e1) = bind-ok (ask _ env.metadata map_not_found) _ h e in
      let (_, e2) = refuse-then _ _ _ h1 e1 in
      let (_, h2, _, e3) = bind-ok (ask _ env.path io) _ h1 e2 in
      let (_, e4) = refuse-then _ _ _ h2 e3 in
      let (_, e5) = refuse-then _ _ _ h2 e4 in
      let (fits, e6) = refuse-then _ _ _ h2 e5 in
      let (content, h3, _, e7) = bind-ok (ask _ env.content io) _ h2 e6 in
      let (same, e8) = refuse-then _ _ _ h3 e7 in
      subst (λ r. (r.1 ≡ total + length r.0) × (r.1 ≤ max_bytes)) (pure-ok _ h3 e8)
        (ground arith, ground arith)

  pub read_metadata-IsBundle :
      (dir : Text) (names : List Text) (read : Entries × ℕ) (h : History) {r : Entries × ℕ}
      {h' : History}
      → All IsMemberName names
      → IsBundle max_bytes read
      → read_metadata env dir max_bytes names read h ≡ (ok r, h')
      → IsBundle max_bytes r
  unfolding read_metadata
  read_metadata-IsBundle dir [] read h named b e = subst (IsBundle max_bytes) (pure-ok read h e) b
  read_metadata-IsBundle dir (name ∷ names) (entries, total) h (n, named) b e =
      let (member, h1, got, e1) =
        bind-ok (read_regular_member env dir _ name max_bytes total) _ h e in
      let (grown, fits) = read_regular_member-ok dir _ name total h got in
      read_metadata-IsBundle dir names _ h1 named
        (IsBundle-append max_bytes total member.1 entries name member.0 b n grown fits) e1

  read_beam-IsBundle :
      (dir : Text) (next : Reply DirEntry) (read : Entries × ℕ) (h : History) {r : Entries × ℕ}
      {h' : History}
      → IsBundle max_bytes read
      → read_beam env dir max_bytes next read h ≡ (ok r, h')
      → IsBundle max_bytes r
  unfolding read_beam
  read_beam-IsBundle dir next (entries, total) h b e =
      let (entry, h1, _, e1) = bind-ok (ask Call.next_entry (λ _. next) io) _ h e in
      let (file, h2, _, e2) = bind-ok (utf8_name env entry.file_name) _ h1 e1 in
      let (safe, e3) = refuse-then _ _ _ h2 e2 in
      let (member, h3, got, e4) =
        bind-ok (read_regular_member env dir _ _ max_bytes total) _ h2 e3 in
      let (grown, fits) = read_regular_member-ok dir _ _ total h2 got in
      subst (IsBundle max_bytes) (pure-ok _ h3 e4) (
        IsBundle-append max_bytes total member.1 entries (bytes "beam/" ++ file) member.0 b
          (inr (file, refl, safe)) grown fits)

  pub read_beams-IsBundle :
      (dir : Text) (reader : List (Reply DirEntry)) (read : Entries × ℕ) (h : History)
      {r : Entries × ℕ} {h' : History}
      → IsBundle max_bytes read
      → read_beams env dir max_bytes reader read h ≡ (ok r, h')
      → IsBundle max_bytes r
  unfolding read_beams
  read_beams-IsBundle dir [] read h b e =
      subst (IsBundle max_bytes) (answered-ok Call.next_entry io h e) b
  read_beams-IsBundle dir (next ∷ reader) read h b e =
      let (more, h1, got, e1) = bind-ok (read_beam env dir max_bytes next read) _ h e in
      read_beams-IsBundle dir reader more h1 (read_beam-IsBundle dir next read h b got) e1
