-- ===== src/Http/Connection/Served.antt =====
-- A request from the read event to the end of its handler.
use wrensong_http_server.Prelude.{
  ℕ, ◌≡◌, ◌≢◌, refl, ap, Bool, true, false, List, [], ◌∷◌, ◌++◌, length, take, if◌then◌else◌,
  Option, some, All, append_assoc,
}
use wrensong_http_server.Cstring.{Chars}
use wrensong_http_server.Exec.{done}
use wrensong_http_server.Http.Message.{Method, unknown, known_http_methods, max_headers, no_request}
use wrensong_http_server.Http.Parse.{Parser, parsed, find_method}
use wrensong_http_server.Http.Spec.{
  Header, Meaning, nothing_said, heed_all, headers_text, request_text,
}
use wrensong_http_server.Http.Headers.Round.{IsPlain}
use wrensong_http_server.Http.RequestLine.{LineIsPlain}
use wrensong_http_server.Http.RoundTrip.{parse_text}
use wrensong_http_server.Http.RoundTrip.Malformed.{parse_unknown}
use wrensong_http_server.Http.Parse.Pieces.{Free}
use wrensong_http_server.Http.Connection.{
  Effect, hash_deleted, enqueued, buffer_freed, bufferevent_freed, connection_freed, Connection,
  handle_connection, http_read, closed, finish,
}

headers_text-append :
    (hs : List Header) (body end : Chars)
    → headers_text hs body ++ end ≡ headers_text hs (body ++ end)
headers_text-append [] body end = refl
headers_text-append ((name, val) ∷ hs) body end =
    rw (append_assoc, append_assoc, headers_text-append hs body end)

request_text-append :
    (method path version : Chars) (hs : List Header) (body end : Chars)
    → request_text method path version hs body ++ end
      ≡ request_text method path version hs (body ++ end)
request_text-append method path version hs body end =
    rw (append_assoc, append_assoc, append_assoc, headers_text-append hs body end)

-- What the handler does once it has understood a request
abbrev pub last_effects : ℕ → Bool → List Effect
last_effects fd closing =
    buffer_freed
    ∷ (if closing then hash_deleted fd ∷ bufferevent_freed ∷ connection_freed ∷ [] else [])

finish_lem :
    (fd : ℕ) (p : Parser) (b : Bool) → p.closing ≡ b → finish fd (parsed p) ≡ last_effects fd b
unfolding finish closed
finish_lem fd p true e = rw e
finish_lem fd p false e = rw e

-- The connection once a read event has copied the bytes
abbrev pub filled : Connection → List ℕ → Connection
filled c input = record c {
  request = record (c.request) { buffer = some (input ++ (0 ∷ [])); buffer_len = length input };
  has_bufferevent = true;
}

http_read_lem :
    (c : Connection) (input : List ℕ)
    → input ≢ []
    → http_read true c input ≡ done (filled c input, enqueued c.fd ∷ [])
unfolding http_read
http_read_lem c [] h = absurd (h refl)
http_read_lem c (x ∷ input) h = refl

request_text-nonempty :
    (method path version : Chars) (hs : List Header) (body : Chars)
    → request_text method path version hs body ≢ []
request_text-nonempty [] path version hs body e = cc
request_text-nonempty (x ∷ method) path version hs body e = cc

-- On a connection whose request has nothing set but the buffer, and with memory for the copy, the
-- read event over a well-formed request enqueues the connection once, and its handler then ends,
-- frees the buffer once, and removes and frees the connection exactly where the request asks for it
-- to be closed.
pub served :
    (c : Connection) (method path version : Chars) (hs : List Header) (body : Chars) (s : Meaning)
    (m : Method) {b : Option (List ℕ)} {k : ℕ}
    → c.request ≡ record no_request { buffer = b; buffer_len = k }
    → LineIsPlain method path version
    → All IsPlain (take max_headers hs)
    → find_method known_http_methods method unknown ≡ m
    → m ≢ unknown
    → heed_all (take max_headers hs) nothing_said ≡ done s
    → (c' : Connection) × (http_read true c (request_text method path version hs body)
        ≡ done (c', enqueued c.fd ∷ []))
      × (handle_connection (some c') ≡ done (last_effects c.fd s.closing))
unfolding handle_connection
served c method path version hs body s m same line plain found known h =
    let input = request_text method path version hs body in
    let (p, parsing, u) =
      parse_text method path version hs (body ++ (0 ∷ [])) (length input) s m line plain found known
        h in
    (
      filled c input,
      http_read_lem c input (request_text-nonempty method path version hs body),
      rw (same, request_text-append method path version hs body (0 ∷ []), parsing)
          (ap done (finish_lem c.fd p s.closing u.closing_is)),
    )

-- Where the first word of the text is none of the known methods, the handler ends having done
-- nothing: the buffer is not freed, and the connection stays as it is.
pub handle_connection_unknown :
    (c : Connection) (method rest : Chars) {n : ℕ}
    → c.request ≡ record no_request { buffer = some (method ++ (b' ' ∷ rest)); buffer_len = n }
    → Free b' ' method
    → find_method known_http_methods method unknown ≡ unknown
    → handle_connection (some c) ≡ done []
unfolding handle_connection finish
handle_connection_unknown c method rest {n = n} same h e =
    rw (same, parse_unknown method rest n h e)
