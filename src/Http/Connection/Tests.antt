-- ===== src/Http/Connection/Tests.antt =====
-- A request served, and one of an unknown method.
use wrensong_http_server.Prelude.{ℕ, ◌≡◌, refl, true, false, List, [], ◌∷◌, ◌++◌, none, some, arith}
use wrensong_http_server.Prelude.Int.{pos}
use wrensong_http_server.Cstring.{codes, same}
use wrensong_http_server.Exec.{done}
use wrensong_http_server.Http.Message.{get, no_request}
use wrensong_http_server.Http.Parse.{find_method}
use wrensong_http_server.Http.Spec.{Header, Meaning, begins_with, heed_all, request_text}
use wrensong_http_server.Http.Headers.Round.{IsPlain}
use wrensong_http_server.Http.RequestLine.{LineIsPlain}
use wrensong_http_server.Http.Connection.{Connection, enqueued, handle_connection, http_read}
use wrensong_http_server.Http.Connection.Served.{last_effects, served, handle_connection_unknown}

abbrev accepted : Connection
accepted = record { fd = 5; addr = []; addr_len = 0; request = no_request; has_bufferevent = false }

abbrev said : Meaning
said = record { host = none; command = none; content_length = pos 0; closing = true }

abbrev sent : List Header
sent = (codes "Connection", codes "close") ∷ []

sent-IsPlain : IsPlain (codes "Connection", codes "close")
sent-IsPlain = record {
  nonempty = λ e. cc;
  no_colon = ground arith;
  name_in_line = ground arith;
  value_in_line = ground arith;
}

line-IsPlain : LineIsPlain (codes "GET") (codes "/") (codes "HTTP/1.1")
line-IsPlain = record {
  method_free = ground arith;
  path_free = ground arith;
  version_free = ground arith;
}

served_example :
    (c' : Connection) × (http_read true accepted
        (request_text (codes "GET") (codes "/") (codes "HTTP/1.1") sent [])
      ≡ done (c', enqueued 5 ∷ []))
    × (handle_connection (some c') ≡ done (last_effects 5 true))
unfolding find_method heed_all begins_with same
served_example =
    served accepted (codes "GET") (codes "/") (codes "HTTP/1.1") sent [] said get {b = none} {k = 0}
      refl line-IsPlain (sent-IsPlain, tt) refl (λ e. cc) refl

abbrev unknown_text : List ℕ
unknown_text = codes "HEAD" ++ (b' ' ∷ (codes "/" ++ (0 ∷ [])))

handle_connection_unknown_example :
    handle_connection (
      some (record accepted {
        request = record no_request { buffer = some unknown_text; buffer_len = 6 };
      }))
    ≡ done []
unfolding find_method same
handle_connection_unknown_example =
    handle_connection_unknown
      (record accepted {
        request = record no_request { buffer = some unknown_text; buffer_len = 6 };
      })
      (codes "HEAD") (codes "/" ++ (0 ∷ [])) {n = 6} refl (ground arith) refl
