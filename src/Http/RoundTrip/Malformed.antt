-- ===== src/Http/RoundTrip/Malformed.antt =====
-- Requests that are not well formed: an unknown method, a request line or a header line that does
-- not have its delimiters.
use wrensong_http_server.Prelude.{
  ℕ, zero, suc, ◌≡◌, ◌≢◌, refl, ◌∙◌, [], ◌∷◌, ◌++◌, length, some, arith,
}
use wrensong_http_server.Cstring.{Chars, byte_at-end}
use wrensong_http_server.Exec.{done, fault}
use wrensong_http_server.Http.Message.{unknown, known_http_methods, no_request}
use wrensong_http_server.Http.Parse.{
  Parser, unknown_method, parse, parse_rest, with_method, find_method, is_unknown, header_line,
  headers,
}
use wrensong_http_server.Http.Parse.Pieces.{Free, strsep-Free, strsep-end}
use wrensong_http_server.Http.RequestLine.{
  LineIsPlain, method_cut, method_read, path_cut, up_to_path, up_to_version,
}
use wrensong_http_server.Http.RoundTrip.{method_known}

-- A request whose first word is none of the known methods is given up behind that word.
pub parse_unknown :
    (method rest : Chars) (n : ℕ)
    → Free b' ' method
    → find_method known_http_methods method unknown ≡ unknown
    → parse (record no_request { buffer = some (method ++ (b' ' ∷ rest)); buffer_len = n })
      ≡ done unknown_method
unfolding parse with_method is_unknown
parse_unknown method rest n h e =
    rw (method_cut method rest h) (rw (method_read method rest h) (rw (with_method, e) refl))

-- A request of a known method whose request line is the whole text, with no `\r` behind the version,
-- makes the parser increment a null pointer.
pub parse_unended :
    (method path version : Chars) (n : ℕ)
    → LineIsPlain method path version
    → find_method known_http_methods method unknown ≢ unknown
    → parse (record no_request {
      buffer = some (method ++ (b' ' ∷ (path ++ (b' ' ∷ (version ++ (0 ∷ []))))));
      buffer_len = n;
    })
      ≡ fault
unfolding parse parse_rest
parse_unended method path version n line known =
    let rest = path ++ (b' ' ∷ (version ++ (0 ∷ []))) in
    rw (method_cut method rest line.method_free) (
      rw (method_read method rest line.method_free) (
        method_known _ _ method _ refl known
        ∙ rw (path_cut (up_to_path method) path (version ++ (0 ∷ [])) line.path_free)
            (rw (strsep-end b'\r' (up_to_version method path) version [] line.version_free) refl)))

-- A header line that is not empty and has no colon makes the loop over the headers increment a null
-- pointer, whatever it has read before.
pub headers_no_colon :
    (n : ℕ) (pre line rest : Chars) (p : Parser)
    → line ≢ []
    → Free b'\r' line
    → Free b':' line
    → p.buf ≡ pre ++ (line ++ (b'\r' ∷ rest))
    → p.cursor ≡ some (length pre)
    → headers (suc n) p ≡ fault
unfolding headers header_line
headers_no_colon n pre [] rest p some_line in_line no_colon b c = absurd (some_line refl)
headers_no_colon n pre (zero ∷ line) rest p some_line in_line no_colon b c =
    absurd (omega (arith, in_line))
headers_no_colon n pre (suc x ∷ line) rest p some_line in_line no_colon b c =
    rw (b, c, strsep-Free b'\r' pre (suc x ∷ line) rest (omega arith) in_line)
      (rw (byte_at-end pre (line ++ (0 ∷ rest)) (suc x))
        (ground (arith, strsep-end b':' pre (suc x ∷ line) rest no_colon)))
