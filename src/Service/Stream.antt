-- ===== src/Service/Stream.antt =====
-- The stream to a guest: `connect_vsock_proxy`, `write_frame`, `read_frame` and `invoke_over_vsock`
-- of cert/beamscale-critical-section/infra-runtime-host/src/main.rs. Each call on the socket is
-- recorded in a history, from which the other side answers in any way; at each of them the
-- deadline of `timeout` may pass.
use rust_app.Prelude.{
  ℕ, zero, suc, Bool, true, false, not, ◌||◌, List, [], ◌∷◌, ◌++◌, ltb, nat_eq, u32_max,
  if◌then◌else◌,
}
use rust_app.Prelude.Lists.{length, is_empty}
use rust_app.Prelude.Text.{Text, bytes, starts_with}
use rust_app.Prelude.Result.{Result, ok, err}
use rust_app.Prelude.Utf8.{is_utf8}
use rust_app.Host.Path.{decimal}
use rust_app.Service.Types.{
  StreamError, system, guest_frame_length, host_frame_length, non_utf8_ack, handshake_failed,
  elapsed, GuestError, transport_timed_out, transport_failed,
}

pub data Call : Type 0 where
  connect : Text → Call
  write_all : Text → Call
  write_u32 : ℕ → Call
  flush read_u8 read_u32 : Call
  read_exact : ℕ → Call

abbrev pub History : Type 0
History = List Call

-- What a call gives: a value, an error of the system, or nothing before the deadline.
pub data Reply (A : Type 0) : Type 0 where
  done : A → Reply A
  failed : Text → Reply A
  late : Reply A

pub record Wire : Type 0 where
  pub sent : History → Reply (Unit {0})
  pub number : History → Reply ℕ
  pub content : History → Reply Text

abbrev pub Io : Type 0 → Type 0
Io A = History → Result StreamError A × History

unfoldable pub resume :
    {A B : Type 0} → Result StreamError A × History → (A → Io B) → Result StreamError B × History
resume (ok x, h) f = f x h
resume (err e, h) f = (err e, h)

infixl 5 ◌>>=◌ ◌>>◌
unfoldable pub ◌>>=◌ : {A B : Type 0} → Io A → (A → Io B) → Io B
unfolding resume
◌>>=◌ m f h = resume (m h) f

unfoldable pub ◌>>◌ : {A B : Type 0} → Io A → Io B → Io B
unfolding ◌>>=◌
m >> k = m >>= λ _. k

abbrev pub pure : {A : Type 0} → A → Io A
pure x h = (ok x, h)

abbrev pub refuse_if : Bool → StreamError → Io (Unit {0})
refuse_if true e h = (err e, h)
refuse_if false e h = (ok tt, h)

abbrev pub replied : {A : Type 0} → Reply A → Result StreamError A
replied (done x) = ok x
replied (failed text) = err (system text)
replied late = err elapsed

abbrev pub ask : {A : Type 0} → Call → (History → Reply A) → Io A
ask c answer h = (replied (answer (c ∷ h)), c ∷ h)

unfoldable pub ends_in_newline : Text → Bool
ends_in_newline [] = false
ends_in_newline (b ∷ []) = nat_eq b 10
ends_in_newline (b ∷ c ∷ s) = ends_in_newline (c ∷ s)

module _ (wire : Wire) where
  -- The `while` loop of the handshake, with the rounds that are left: it stops at 128 bytes.
  unfoldable pub read_ack : ℕ → Text → Io Text
  read_ack zero ack = pure ack
  read_ack (suc rounds) ack = ask read_u8 wire.number >>= λ b.
      let more = read_ack rounds (ack ++ (b ∷ [])) in
      if nat_eq b 10 then pure (ack ++ (b ∷ [])) else more

  unfoldable pub connect_vsock_proxy : Text → ℕ → Io (Unit {0})
  connect_vsock_proxy vsock_path guest_port = do
    ask (connect vsock_path) wire.sent
    ask (write_all (bytes "CONNECT " ++ (decimal guest_port ++ (10 ∷ [])))) wire.sent
    ack ← read_ack 128 []
    refuse_if (not (is_utf8 ack)) non_utf8_ack
    refuse_if (not (starts_with (bytes "OK ") ack) || not (ends_in_newline ack))
        (handshake_failed ack)

  unfoldable pub read_frame : ℕ → Io Text
  read_frame max_frame_bytes = do
    len ← ask read_u32 wire.number
    refuse_if (nat_eq len 0 || ltb max_frame_bytes len) (guest_frame_length len)
    ask (read_exact len) wire.content

  unfoldable pub write_frame : Text → ℕ → Io (Unit {0})
  write_frame content max_frame_bytes = do
    refuse_if
        (is_empty content || ltb max_frame_bytes (length content) || ltb u32_max (length content))
        (host_frame_length (length content))
    ask (write_u32 (length content)) wire.sent
    ask (write_all content) wire.sent
    ask flush wire.sent

  unfoldable pub exchange : Text → ℕ → Text → ℕ → Io Text
  exchange vsock_path guest_port request max_frame_bytes = do
    connect_vsock_proxy vsock_path guest_port
    write_frame request max_frame_bytes
    read_frame max_frame_bytes

-- `timeout(..).await` with its two `map_err`s.
abbrev pub within_deadline :
    {A : Type 0}
    → GuestError
    → (StreamError → GuestError)
    → Result StreamError A
    → Result GuestError A
within_deadline timed_out failure (ok x) = ok x
within_deadline timed_out failure (err elapsed) = err timed_out
within_deadline timed_out failure (err e) = err (failure e)

unfoldable pub invoke_over_vsock :
    Wire → Text → ℕ → Text → ℕ → History → Result GuestError Text × History
invoke_over_vsock wire vsock_path guest_port request max_frame_bytes h =
    let (r, g) = exchange wire vsock_path guest_port request max_frame_bytes h in
    (within_deadline transport_timed_out transport_failed r, g)
