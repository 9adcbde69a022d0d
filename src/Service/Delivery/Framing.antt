-- ===== src/Service/Delivery/Framing.antt =====
-- The frames that a transfer to a guest writes and reads:
-- cert/beamscale-critical-section/infra-runtime-host/src/main.rs.
use rust_app.Prelude.{
  ◌∙◌, ℕ, zero, suc, ◌-◌, ◌≤◌, ◌<◌, ◌≡◌, refl, sym, ap, Bool, true, false, List, [], ◌∷◌, ◌++◌,
  arith,
}
use rust_app.Prelude.Lists.{length, All, is_empty}
use rust_app.Prelude.Text.{Text}
use rust_app.Prelude.Result.{Result, ok, err}
use rust_app.Service.Types.{StreamError}
use rust_app.Service.Stream.{
  Wire, Call, History, Io, Reply, done, failed, late, replied, resume, ◌>>=◌, ◌>>◌, refuse_if, ask,
  write_u32, write_all, flush, read_u32, read_exact, write_frame, read_frame, connect_vsock_proxy,
}
use rust_app.Service.Transfer.{chunks_from, chunks, write_chunks, transfer}

unfoldable pub concat : List Text → Text
concat [] = []
concat (chunk ∷ rest) = chunk ++ concat rest

-- The calls that write the frames of the given contents.
abbrev pub framed_calls : List Text → History → History
framed_calls [] h = h
framed_calls (content ∷ rest) h =
    framed_calls rest (flush ∷ write_all content ∷ write_u32 (length content) ∷ h)

chunks_from-concat :
    (size room : ℕ) (content : Text) → concat (chunks_from size room content) ≡ content
unfolding chunks_from concat
chunks_from-concat size room [] = refl
chunks_from-concat size room (b ∷ []) = refl
chunks_from-concat size zero (b ∷ c ∷ s) =
    ap (λ t. b ∷ t) (chunks_from-concat size (size - 1) (c ∷ s))
chunks_from-concat size (suc room) (b ∷ c ∷ s) =
    joined (chunks_from size room (c ∷ s)) (chunks_from-concat size room (c ∷ s))
  where
    joined :
        (l : List Text)
        → concat l ≡ c ∷ s
        → concat (elim l [ [] ↦ (b ∷ []) ∷ [] | chunk ∷ rest ↦ (b ∷ chunk) ∷ rest ]) ≡ b ∷ c ∷ s
    joined [] e = cc e
    joined (chunk ∷ rest) e = ap (λ t. b ∷ t) e

resume-ok :
    {A B : Type 0} (p : Result StreamError A × History) (f : A → Io B) {y : B} {g : History}
    → resume p f ≡ (ok y, g)
    → (x : A) × (h : History) × (p ≡ (ok x, h)) × (f x h ≡ (ok y, g))
unfolding resume
resume-ok (ok x, h) f e = (x, h, refl, e)
resume-ok (err x, h) f e = cc (ap (λ p. p.0) e)

pub bind-ok :
    {A B : Type 0} (m : Io A) (f : A → Io B) (h : History) {y : B} {g : History}
    → (m >>= f) h ≡ (ok y, g)
    → (x : A) × (u : History) × (m h ≡ (ok x, u)) × (f x u ≡ (ok y, g))
unfolding ◌>>=◌
bind-ok m f h e = resume-ok (m h) f e

then-ok :
    {A B : Type 0} (m : Io A) (k : Io B) (h : History) {y : B} {g : History}
    → (m >> k) h ≡ (ok y, g)
    → (x : A) × (u : History) × (m h ≡ (ok x, u)) × (k u ≡ (ok y, g))
unfolding ◌>>◌
then-ok m k h e = bind-ok m (λ _. k) h e

refuse_if-ok :
    (b : Bool) (x : StreamError) (h : History) {y : Unit {0}} {g : History}
    → refuse_if b x h ≡ (ok y, g)
    → (b ≡ false) × (g ≡ h)
refuse_if-ok true x h e = cc (ap (λ p. p.0) e)
refuse_if-ok false x h e = (refl, sym (ap (λ p. p.1) e))

ask-calls :
    {A : Type 0} (c : Call) (answer : History → Reply A) (h : History) {x : A} {g : History}
    → ask c answer h ≡ (ok x, g)
    → g ≡ c ∷ h
ask-calls c answer h e = sym (ap (λ p. p.1) e)

replied-done : {A : Type 0} (r : Reply A) {x : A} → replied r ≡ ok x → r ≡ done x
replied-done (done y) e = cc e
replied-done (failed text) e = cc e
replied-done late e = cc e

ask-done :
    {A : Type 0} (c : Call) (answer : History → Reply A) (h : History) {x : A} {g : History}
    → ask c answer h ≡ (ok x, g)
    → answer g ≡ done x
ask-done c answer h e =
    ap answer (ask-calls c answer h e) ∙ replied-done (answer (c ∷ h)) (ap (λ p. p.0) e)

-- A frame that was written is not empty and within the limit.
abbrev pub Fits : ℕ → Text → Type 0
Fits limit content = (is_empty content ≡ false) × (length content ≤ limit)

module _ (wire : Wire) where
  write_frame-ok :
      (content : Text) (limit : ℕ) (h : History) {x : Unit {0}} {g : History}
      → write_frame wire content limit h ≡ (ok x, g)
      → Fits limit content × (g ≡ framed_calls (content ∷ []) h)
  unfolding write_frame
  write_frame-ok content limit h e =
      let (_, h1, refused, e1) = then-ok _ _ h e in
      let (_, h2, sized, e2) = then-ok _ _ h1 e1 in
      let (_, h3, written, e3) = then-ok _ _ h2 e2 in
      let (fits, same) = refuse_if-ok _ _ h refused in
      (
        (ground arith, ground arith),
        ask-calls flush wire.sent h3 e3
            ∙ ap (λ u. flush ∷ u) (ask-calls (write_all content) wire.sent h2 written)
            ∙ ap (λ u. flush ∷ write_all content ∷ u)
                (ask-calls (write_u32 (length content)) wire.sent h1 sized)
            ∙ ap (λ u. flush ∷ write_all content ∷ write_u32 (length content) ∷ u) same,
      )

  write_chunks-ok :
      (limit : ℕ) (l : List Text) (h : History) {x : Unit {0}} {g : History}
      → write_chunks wire limit l h ≡ (ok x, g)
      → All (Fits limit) l × (g ≡ framed_calls l h)
  unfolding write_chunks
  write_chunks-ok limit [] h e = (tt, sym (ap (λ p. p.1) e))
  write_chunks-ok limit (content ∷ l) h e =
      let (_, u, first, rest) = then-ok _ _ h e in
      let (fits, written) = write_frame-ok content limit h first in
      let (all_fit, same) = write_chunks-ok limit l u rest in
      ((fits, all_fit), same ∙ ap (framed_calls l) written)

  read_frame-ok :
      (limit : ℕ) (h : History) {content : Text} {g : History}
      → read_frame wire limit h ≡ (ok content, g)
      → (len : ℕ) × (0 < len)
        × (len ≤ limit)
        × (g ≡ read_exact len ∷ read_u32 ∷ h)
        × (wire.content g ≡ done content)
  unfolding read_frame
  read_frame-ok limit h e =
      let (len, h1, sized, e1) = bind-ok _ _ h e in
      let (_, h2, refused, e2) = then-ok _ _ h1 e1 in
      let (fits, same) = refuse_if-ok _ _ h1 refused in
      (
        len,
        ground arith,
        ground arith,
        ask-calls (read_exact len) wire.content h2 e2
            ∙ ap (λ u. read_exact len ∷ u) (same ∙ ask-calls read_u32 wire.number h sized),
        ask-done (read_exact len) wire.content h2 e2,
      )

  -- After the handshake: the header, the chunks of the content, and the answer, each in a frame.
  -- The answer is what the wire gives for the last read.
  pub record Transferred (vsock_path : Text) (port : ℕ) (header content : Text)
      (limit chunk_bytes : ℕ) (answer : Text) (h g : History) : Type 0 where
    pub connected : History
    pub handshake : connect_vsock_proxy wire vsock_path port h ≡ (ok tt, connected)
    pub pieces : List Text
    pub header_fits : Fits limit header
    pub pieces_fit : All (Fits chunk_bytes) pieces
    pub whole : concat pieces ≡ content
    pub answer_length : ℕ
    pub answer_fits : (0 < answer_length) × (answer_length ≤ limit)
    pub answered : wire.content g ≡ done answer
    pub calls : g ≡ read_exact answer_length ∷ read_u32 ∷ framed_calls (header ∷ pieces) connected

  pub transfer-ok :
      (vsock_path : Text) (port : ℕ) (header content : Text) (limit chunk_bytes : ℕ) (h : History)
      {answer : Text} {g : History}
      → transfer wire vsock_path port header content limit chunk_bytes h ≡ (ok answer, g)
      → Transferred vsock_path port header content limit chunk_bytes answer h g
  unfolding transfer
  transfer-ok vsock_path port header content limit chunk_bytes h e =
      let (_, h1, handshake, e1) = then-ok _ _ h e in
      let (_, h2, first, e2) = then-ok _ _ h1 e1 in
      let (_, h3, rest, e3) = then-ok _ _ h2 e2 in
      let (header_fits, headed) = write_frame-ok header limit h1 first in
      let (fit, written) = write_chunks-ok chunk_bytes (chunks chunk_bytes content) h2 rest in
      let (len, lo, hi, answered, reply) = read_frame-ok limit h3 e3 in
      let framed = written ∙ ap (framed_calls (chunks chunk_bytes content)) headed in
      record {
        connected = h1;
        handshake = handshake;
        pieces = chunks chunk_bytes content;
        header_fits = header_fits;
        pieces_fit = fit;
        whole = chunks_from-concat chunk_bytes (chunk_bytes - 1) content;
        answer_length = len;
        answer_fits = (lo, hi);
        answered = reply;
        calls = answered ∙ ap (λ u. read_exact len ∷ read_u32 ∷ u) framed;
      }
