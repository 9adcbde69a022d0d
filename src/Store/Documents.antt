-- ===== src/Store/Documents.antt =====
-- The names of the entries that `resolve_admitted_bundle` of
-- cert/beamscale-critical-section/infra-runtime-host/src/artifact_store.rs collects.
use rust_app.Prelude.{◌∙◌, ℕ, ◌≡◌, ◌||◌, refl, true, List, [], ◌∷◌, ◌++◌, arith, inl, inr}
use mathlib.Core.Path.{ap, subst}
use rust_app.Prelude.Lists.{All}
use rust_app.Prelude.Text.{text_eq_refl, Text, text_eq}
use rust_app.Prelude.Result.{ok}
use rust_app.Host.System.{Reply}
use rust_app.Store.Sorting.{insert_cases}
use rust_app.Store.{
  answered-ok, Call, Env, History, DirEntry, ask, io, bind-ok, refuse-then, pure-ok,
}
use rust_app.Store.Bundle.{
  Entries, has_entry, insert_sorted, sort_from, read_regular_member, read_metadata, utf8_name,
  read_beam, read_beams,
}

-- Every name that the one has is a name of the other.
abbrev pub Extends : Entries → Entries → Type 0
Extends xs ys = (name : Text) → has_entry name xs ≡ true → has_entry name ys ≡ true

Extends-append : (xs ys : Entries) → Extends xs (xs ++ ys)
Extends-append [] ys name h = cc h
Extends-append ((n, content) ∷ xs) ys name h = ground (arith, Extends-append xs ys name)

has_entry-append :
    (name : Text) (content : List ℕ) (xs : Entries)
    → has_entry name (xs ++ ((name, content) ∷ [])) ≡ true
has_entry-append name content [] = rw (text_eq_refl name) refl
has_entry-append name content ((n, c) ∷ xs) = ground (arith, has_entry-append name content xs)

has_entry-insert_sorted :
    (name : Text) (e : Text × List ℕ) (l : Entries)
    → has_entry name (insert_sorted e l) ≡ (text_eq e.0 name || has_entry name l)
unfolding insert_sorted
has_entry-insert_sorted name e [] = refl
has_entry-insert_sorted name e (f ∷ l) = elim (insert_cases e f l) [
  | inl (_, here) ↦ ap (has_entry name) here
  | inr (_, later) ↦ ap (has_entry name) later ∙ ground (arith, has_entry-insert_sorted name e l)
]

has_entry-sort_from :
    (name : Text) (l m : Entries)
    → (has_entry name l || has_entry name m) ≡ true
    → has_entry name (sort_from l m) ≡ true
unfolding sort_from
has_entry-sort_from name l [] h = ground arith
has_entry-sort_from name l (e ∷ m) h =
    let inserted = has_entry-insert_sorted name e l in
    has_entry-sort_from name (insert_sorted e l) m (ground arith)

pub Extends-sort_from : (entries : Entries) → Extends entries (sort_from [] entries)
Extends-sort_from entries name h = has_entry-sort_from name [] entries h

abbrev pub HasAll : List Text → Entries → Type 0
HasAll names entries = All (λ name. has_entry name entries ≡ true) names

pub HasAll-Extends :
    (names : List Text) (xs ys : Entries) → Extends xs ys → HasAll names xs → HasAll names ys
HasAll-Extends [] xs ys more all = tt
HasAll-Extends (name ∷ names) xs ys more (h, all) =
    (more name h, HasAll-Extends names xs ys more all)

module _ (env : Env) (max_bytes : ℕ) where
  pub read_metadata-Extends :
      (dir : Text) (names : List Text) (read : Entries × ℕ) (h : History) {r : Entries × ℕ}
      {h' : History}
      → read_metadata env dir max_bytes names read h ≡ (ok r, h')
      → Extends read.0 r.0 × HasAll names r.0
  unfolding read_metadata
  read_metadata-Extends dir [] read h e =
      (subst (λ r. Extends read.0 r.0) (pure-ok read h e) (λ _ has. has), tt)
  read_metadata-Extends dir (name ∷ names) (entries, total) h e =
      let (member, h1, _, e1) =
        bind-ok (read_regular_member env dir _ name max_bytes total) _ h e in
      let (more, all) = read_metadata-Extends dir names _ h1 e1 in
      let more_after : Extends entries _ =
        λ n has. more n (Extends-append entries ((name, member.0) ∷ []) n has) in
      (more_after, (more name (has_entry-append name member.0 entries), all))

  read_beam-Extends :
      (dir : Text) (next : Reply DirEntry) (read : Entries × ℕ) (h : History) {r : Entries × ℕ}
      {h' : History}
      → read_beam env dir max_bytes next read h ≡ (ok r, h')
      → Extends read.0 r.0
  unfolding read_beam
  read_beam-Extends dir next (entries, total) h e =
      let (entry, h1, _, e1) = bind-ok (ask Call.next_entry (λ _. next) io) _ h e in
      let (file, h2, _, e2) = bind-ok (utf8_name env entry.file_name) _ h1 e1 in
      let (_, e3) = refuse-then _ _ _ h2 e2 in
      let (member, h3, _, e4) = bind-ok (read_regular_member env dir _ _ max_bytes total) _ h2 e3 in
      subst (λ r. Extends entries r.0) (pure-ok _ h3 e4) (Extends-append entries _)

  pub read_beams-Extends :
      (dir : Text) (reader : List (Reply DirEntry)) (read : Entries × ℕ) (h : History)
      {r : Entries × ℕ} {h' : History}
      → read_beams env dir max_bytes reader read h ≡ (ok r, h')
      → Extends read.0 r.0
  unfolding read_beams
  read_beams-Extends dir [] read h e =
      subst (λ r. Extends read.0 r.0) (answered-ok Call.next_entry io h e) (λ _ has. has)
  read_beams-Extends dir (next ∷ reader) read h e =
      let (more, h1, got, e1) = bind-ok (read_beam env dir max_bytes next read) _ h e in
      let later = read_beams-Extends dir reader more h1 e1 in
      λ name has. later name (read_beam-Extends dir next read h got name has)
