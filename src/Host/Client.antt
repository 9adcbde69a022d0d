-- ===== src/Host/Client.antt =====
-- The client of the Firecracker API socket, `FcClient` of
-- cert/beamscale-critical-section/infra-runtime-host/src/lib.rs: one HTTP request a connection.
use rust_app.Prelude.{
  ℕ, ◌&&◌, Option, none, some, List, [], ◌∷◌, ◌++◌, ltb, leb, nat_eq, if◌then◌else◌,
}
use rust_app.Prelude.Lists.{length}
use rust_app.Prelude.Text.{Text, bytes}
use rust_app.Host.Types.{firecracker, connect_failed, malformed_response, returned_status}
use rust_app.Host.System.{Call, Json, Env, Io, raise, ask, or_io, or_raise, guard, ◌>>=◌, ◌>>◌}
use rust_app.Host.Path.{decimal, parse_u16}
use rust_app.Host.Words.{split_whitespace}
use rust_app.Host.Files.{io_call}

-- `lines().next()`: the text before the first line feed.
first_line : Text → Text
first_line [] = []
first_line (c ∷ s) = if nat_eq c 10 then [] else c ∷ first_line s

second : List Text → Option Text
second (x ∷ y ∷ l) = some y
second _ = none

-- The status of a response: the second word of its first line, as a `u16`.
unfoldable pub response_status : Text → Option ℕ
unfolding first_line split_whitespace second
response_status text = elim (second (split_whitespace (first_line text))) [
  | none ↦ none
  | some word ↦ parse_u16 word
]

crlf : Text
crlf = 13 ∷ 10 ∷ []

request_head : Text → Text → ℕ → Text
unfolding crlf
request_head method path size =
    method
    ++ (bytes " "
        ++ (path
            ++ (bytes " HTTP/1.1"
                ++ (crlf
                    ++ (bytes "Host: localhost"
                        ++ (crlf
                            ++ (bytes "Accept: application/json"
                                ++ (crlf
                                    ++ (bytes "Content-Type: application/json"
                                        ++ (crlf
                                            ++ (bytes "Content-Length: "
                                                ++ (decimal size
                                                    ++ (crlf
                                                        ++ (bytes "Connection: close"
                                                            ++ (crlf ++ crlf)))))))))))))))

module _ (env : Env) where
  -- `FcClient::request`, at the API socket.
  unfoldable pub request : Text → Text → Text → Json → Io (Unit {0})
  unfolding request_head response_status
  request socket method path body = do
    let content = env.json body
    connected ← ask (Call.connect socket) env.outcome
    or_raise (firecracker (connect_failed socket)) connected
    io_call env (Call.write_all socket (request_head method path (length content)))
    io_call env (Call.write_all socket content)
    io_call env (Call.shutdown socket)
    text ← ask (Call.read_to_end socket) env.text >>= or_io
    elim (response_status text) [
      | none ↦ raise (firecracker (malformed_response text))
      | some status ↦
          guard (leb 200 status && ltb status 300)
            (firecracker (returned_status method path status))
    ]

  unfoldable pub put : Text → Text → Json → Io (Unit {0})
  unfolding request
  put socket path body = request socket (bytes "PUT") path body

  unfoldable pub patch : Text → Text → Json → Io (Unit {0})
  unfolding request
  patch socket path body = request socket (bytes "PATCH") path body
