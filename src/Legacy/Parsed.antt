-- ===== src/Legacy/Parsed.antt =====
-- The parser of src/old.c on the text of a well-formed request.
use wrensong_http_server.Prelude.{
  ℕ, ◌≡◌, ◌≢◌, ◌<◌, refl, ap, ◌∙◌, Bool, true, false, List, [], ◌∷◌, ◌++◌, if◌then◌else◌, length,
  Option, none, some, append_assoc, All,
}
use wrensong_http_server.Cstring.{Chars}
use wrensong_http_server.Exec.{done}
use wrensong_http_server.Bstring.{Allocator, malloc, answer as granted}
use wrensong_http_server.Http.Message.{Method, unknown, known_http_methods, max_headers}
use wrensong_http_server.Http.Spec.{headers_text, request_text}
use wrensong_http_server.Http.Parse.{Split, find_method, is_unknown}
use wrensong_http_server.Http.Headers.Round.{IsPlain}
use wrensong_http_server.Http.RequestLine.{
  Reads, LineIsPlain, up_to_path, up_to_version, behind_request_line, method_cut, path_cut,
  version_cut, path_shown, method_read, Shows-Reads,
}
use wrensong_http_server.Http.RoundTrip.{not_unknown}
use wrensong_http_server.Legacy.World.{Header}
use wrensong_http_server.Legacy.Receive.{read_headers, Request, parse_lines, with_name, parse}
use wrensong_http_server.Legacy.Headers.{Named, read_headers-Listed}

-- What the parser has made of a request.
pub record Understood (r : Request) (method : Method) (path : Chars) (hs : List (Chars × Chars))
    (body : Chars) : Type 0 where
  pub front : List ℕ
  pub found : List Header
  pub method_is : r.method ≡ method
  pub path_is : Reads r.lines.buf r.path (some path)
  pub headers_are : r.lines.headers ≡ some found
  pub named : Named front found hs
  pub buf_is : r.lines.buf ≡ front ++ body
  pub at_body : r.lines.cursor ≡ some (length front)

abbrev headers_block : Bool → Option (List Header)
headers_block got = if got then some [] else none

headers_made :
    (memory : Allocator) → granted memory.answers ≡ true → headers_block (malloc memory).0 ≡ some []
headers_made memory got = rw got

-- Behind the method
parse_lines_lem :
    (method path version : Chars) (hs : List (Chars × Chars)) (body : Chars) (m : Method)
    (memory : Allocator)
    → LineIsPlain method path version
    → All IsPlain hs
    → length hs < max_headers
    → granted memory.answers ≡ true
    → (r : Request) × (parse_lines
          (record {
            token = some 0;
            cursor = some (length (up_to_path method));
            buf =
                up_to_path method
                ++ (path ++ (b' ' ∷ (version ++ (b'\r' ∷ b'\n' ∷ headers_text hs body))));
          })
          m
          memory
        ≡ done r)
      × (r.memory ≡ (malloc memory).1)
      × Understood r m path hs body
unfolding parse_lines
parse_lines_lem method path version hs body m memory line plain few got =
    let start = up_to_path method in
    let pre = behind_request_line method path version in
    let (i, cut, next) =
      version_cut (up_to_version method path) version (headers_text hs body) line.version_free in
    let l = read_headers-Listed hs pre body max_headers [] few plain in
    let ran =
      ap
        (λ z.
          read_headers max_headers
            (record { buf = pre ++ headers_text hs body; cursor = some (length pre); headers = z }))
        (headers_made memory got)
      ∙ l.ran in
    (
      record {
        method = m;
        path = some (length start);
        lines = record {
          buf = l.front ++ body;
          cursor = some (length l.front);
          headers = some l.found;
        };
        memory = (malloc memory).1;
      },
      rw (path_cut start path (version ++ (b'\r' ∷ b'\n' ∷ headers_text hs body)) line.path_free)
          (rw cut (rw (next, ran))),
      refl,
      record {
        front = l.front;
        found = l.found;
        method_is = refl;
        path_is = Shows-Reads l.front body (some (length start)) (some path) (
            l.keeps (some (length start)) (some path)
              (path_shown method path version line.path_free));
        headers_are = refl;
        named = l.named;
        buf_is = refl;
        at_body = refl;
      },
    )

with_name_lem :
    (c : Split) (name : Chars) (m : Method) (memory : Allocator) {r : Request}
    → find_method known_http_methods name unknown ≡ m
    → m ≢ unknown
    → parse_lines c m memory ≡ done r
    → with_name c name memory ≡ done (some r)
unfolding with_name
with_name_lem c name m memory e h k =
    let not_given_up : is_unknown (find_method known_http_methods name unknown) ≡ false =
      rw e (not_unknown m h) in
    let known = ap (λ z. parse_lines c z memory) e ∙ k in rw (with_name, not_given_up, known)

-- A well-formed request is taken apart: the parser of src/old.c ends without a fault, and the method,
-- the path, the names and values of the headers in their order and the place of the body are those of
-- the request. Well-formed: the method is a known one; method and path have no space and the version no
-- `\r`; there are at most 127 headers, each with a name that is not empty and has no colon, and no `\r`
-- in name or value; and none has a 0. The headers get their memory.
pub parse-Understood :
    (method path version : Chars) (hs : List (Chars × Chars)) (body : Chars) (m : Method)
    (memory : Allocator)
    → LineIsPlain method path version
    → All IsPlain hs
    → length hs < max_headers
    → find_method known_http_methods method unknown ≡ m
    → m ≢ unknown
    → granted memory.answers ≡ true
    → (r : Request) × (parse (request_text method path version hs body) memory ≡ done (some r))
      × (r.memory ≡ (malloc memory).1)
      × Understood r m path hs body
unfolding parse
parse-Understood method path version hs body m memory line plain few found known got =
    let rest = path ++ (b' ' ∷ (version ++ (b'\r' ∷ b'\n' ∷ headers_text hs body))) in
    let (r, parsing, left, u) =
      parse_lines_lem method path version hs body m memory line plain few got in
    (
      r,
      rw (method_cut method rest line.method_free) (
          rw (method_read method rest line.method_free) (
            with_name_lem
              (record {
                token = some 0;
                cursor = some (length (up_to_path method));
                buf = up_to_path method ++ rest;
              })
              method m memory found known parsing)),
      left,
      u,
    )

-- What is behind the body is behind the text.
headers_text-append :
    (hs : List (Chars × Chars)) (body more : Chars)
    → headers_text hs body ++ more ≡ headers_text hs (body ++ more)
headers_text-append [] body more = refl
headers_text-append ((name, val) ∷ hs) body more =
    append_assoc name _ more
    ∙ ap (λ z. name ++ (b':' ∷ b' ' ∷ z))
        (append_assoc val _ more
          ∙ ap (λ z. val ++ (b'\r' ∷ b'\n' ∷ z)) (headers_text-append hs body more))

pub request_text-append :
    (method path version : Chars) (hs : List (Chars × Chars)) (body more : Chars)
    → request_text method path version hs body ++ more
      ≡ request_text method path version hs (body ++ more)
request_text-append method path version hs body more =
    append_assoc method _ more
    ∙ ap (λ z. method ++ (b' ' ∷ z))
        (append_assoc path _ more
          ∙ ap (λ z. path ++ (b' ' ∷ z))
              (append_assoc version _ more
                ∙ ap (λ z. version ++ (b'\r' ∷ b'\n' ∷ z)) (headers_text-append hs body more)))
