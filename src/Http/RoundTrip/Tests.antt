-- ===== src/Http/RoundTrip/Tests.antt =====
-- A request with two headers, and two that are malformed.
use wrensong_http_server.Prelude.{ℕ, ◌≡◌, refl, true, false, List, [], ◌∷◌, ◌++◌, some, arith}
use wrensong_http_server.Prelude.Int.{pos}
use wrensong_http_server.Cstring.{codes, same}
use wrensong_http_server.Exec.{done, fault}
use wrensong_http_server.Http.Message.{get, no_request}
use wrensong_http_server.Http.Parse.{Parser, parsed, parse, find_method, headers}
use wrensong_http_server.Http.Spec.{Header, Meaning, begins_with, heed_all, request_text}
use wrensong_http_server.Http.Headers.Round.{IsPlain}
use wrensong_http_server.Http.RequestLine.{LineIsPlain}
use wrensong_http_server.Http.RoundTrip.{Understood, parse-request_text}
use wrensong_http_server.Http.RoundTrip.Malformed.{parse_unended, headers_no_colon}

abbrev said : Meaning
said = record {
  host = some (codes "h");
  command = some (codes "c");
  content_length = pos 0;
  closing = true;
}

abbrev sent : List Header
sent =
    (codes "Host", codes "h")
    ∷ (codes "Command", codes "c")
    ∷ (codes "Connection", codes "close")
    ∷ []

host-IsPlain : IsPlain (codes "Host", codes "h")
host-IsPlain = record {
  nonempty = λ e. cc;
  no_colon = ground arith;
  name_in_line = ground arith;
  value_in_line = ground arith;
}

command-IsPlain : IsPlain (codes "Command", codes "c")
command-IsPlain = record {
  nonempty = λ e. cc;
  no_colon = ground arith;
  name_in_line = ground arith;
  value_in_line = ground arith;
}

connection-IsPlain : IsPlain (codes "Connection", codes "close")
connection-IsPlain = record {
  nonempty = λ e. cc;
  no_colon = ground arith;
  name_in_line = ground arith;
  value_in_line = ground arith;
}

line-IsPlain : LineIsPlain (codes "GET") (codes "/") (codes "HTTP/1.1")
line-IsPlain = record {
  method_free = ground arith;
  path_free = ground arith;
  version_free = ground arith;
}

parse-request_text_example :
    (p : Parser) × (parse (record no_request {
      buffer = some (request_text (codes "GET") (codes "/") (codes "HTTP/1.1") sent (codes "x"));
      buffer_len = 63;
    })
      ≡ done (parsed p))
    × Understood p get (codes "/") said (codes "x")
unfolding heed_all begins_with same
parse-request_text_example =
    parse-request_text get (codes "/") (codes "HTTP/1.1") sent (codes "x") 63 said (λ e. cc)
      line-IsPlain (host-IsPlain, (command-IsPlain, (connection-IsPlain, tt))) refl

abbrev unended : List ℕ
unended = codes "GET" ++ (b' ' ∷ (codes "/" ++ (b' ' ∷ (codes "HTTP/1.1" ++ (0 ∷ [])))))

parse_unended_example : parse (record no_request { buffer = some unended; buffer_len = 14 }) ≡ fault
unfolding find_method same
parse_unended_example =
    parse_unended (codes "GET") (codes "/") (codes "HTTP/1.1") 14 line-IsPlain (λ e. cc)

-- Before the headers, in a buffer with one line that has no colon
abbrev no_colon : Parser
no_colon = record {
  buf = codes "Host" ++ (b'\r' ∷ b'\n' ∷ 0 ∷ []);
  cursor = some 0;
  request = no_request;
  closing = false;
}

headers_no_colon_example : headers 128 no_colon ≡ fault
headers_no_colon_example =
    headers_no_colon 127 [] (codes "Host") (b'\n' ∷ 0 ∷ []) no_colon (λ e. cc) (ground arith)
      (ground arith) refl refl
