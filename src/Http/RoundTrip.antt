-- ===== src/Http/RoundTrip.antt =====
-- The parser on the text of a well-formed request.
pub mod Malformed
mod Tests
use wrensong_http_server.Prelude.{
  ℕ, zero, suc, ◌+◌, ◌≡◌, ◌≢◌, ◌<◌, ◌≤◌, refl, sym, ap, ◌∙◌, Bool, true, false, List, [], ◌∷◌, ◌++◌,
  length, take, drop, ◌==◌, Option, none, some, arith, Bool-cases, inl, inr, append_assoc,
  append-nil, length-append, if◌then◌else◌, All,
}
use mathlib.Core.Path.{subst}
use wrensong_http_server.Cstring.{Chars, codes, NonZero, same, text_from, byte_at, byte_at-end}
use wrensong_http_server.Exec.{Exec, done, quit, fault, ◌>>=◌}
use wrensong_http_server.Http.Message.{
  Method, unknown, get, post, put, patch, delete, known_http_methods, max_headers, Pointer, Request,
  no_request,
}
use wrensong_http_server.Http.Spec.{
  Header, Meaning, nothing_said, heed_all, headers_text, method_text, request_text, behind,
}
use wrensong_http_server.Http.Parse.{
  HeaderKind, header_kind, Split, strsep, string_at, first_at, find_method, Parser, set_header,
  headers, Outcome, parsed, unknown_method, parse, with_method, parse_rest, is_unknown,
}
use wrensong_http_server.Http.Parse.Pieces.{
  Free, Free-NonZero, strsep-Free, strsep-end, text_from-piece, drop-front,
}
use wrensong_http_server.Http.Headers.{Shows, Shows-append, Agrees, Agrees-append, Heeded, heeded}
use wrensong_http_server.Http.Headers.Round.{IsPlain, up_to_value, behind_line, header_round}
use wrensong_http_server.Http.Headers.Loop.{Loop, headers-Loop}
use wrensong_http_server.Http.RequestLine.{
  Reads, Shows-Reads, LineIsPlain, up_to_path, up_to_version, behind_request_line, method_cut,
  path_cut, version_cut, path_shown, method_read,
}

-- What the parser has made of a request.
pub record Understood (p : Parser) (method : Method) (path : Chars) (s : Meaning) (body : Chars)
    : Type 0 where
  pub method_is : p.request.method ≡ method
  pub path_is : Reads p.buf p.request.path (some path)
  pub host_is : Reads p.buf p.request.host s.host
  pub command_is : Reads p.buf p.request.command s.command
  pub content_length_is : p.request.content_length ≡ s.content_length
  pub closing_is : p.closing ≡ s.closing
  pub body_left : (i : ℕ) × (p.cursor ≡ some i) × (drop i p.buf ≡ body)

-- The path is no header.
with_path :
    {pre : List ℕ} {r : Request} {closing : Bool} {s : Meaning} {at : Pointer}
    → Agrees pre r closing s
    → Agrees pre (record r { path = at }) closing s
with_path a = record {
  host_shown = a.host_shown;
  command_shown = a.command_shown;
  length_same = a.length_same;
  closing_same = a.closing_same;
}

-- Behind the method
rest_lem :
    (method path version : Chars) (hs : List Header) (body : Chars) (r : Request) (s : Meaning)
    (m : Method)
    → LineIsPlain method path version
    → All IsPlain (take max_headers hs)
    → heed_all (take max_headers hs) nothing_said ≡ done s
    → Agrees [] r false nothing_said
    → r.method ≡ m
    → (p : Parser) × (parse_rest
          (record {
            token = some 0;
            cursor = some (length (up_to_path method));
            buf =
                up_to_path method
                ++ (path ++ (b' ' ∷ (version ++ (b'\r' ∷ b'\n' ∷ headers_text hs body))));
          })
          r
        ≡ done (parsed p))
      × Understood p m path s (behind max_headers hs body)
unfolding parse_rest
rest_lem method path version hs body r s m line plain h a e =
    let start = up_to_path method in
    let left = behind max_headers hs body in
    let pre = behind_request_line method path version in
    let (i, cut, next) =
      version_cut (up_to_version method path) version (headers_text hs body) line.version_free in
    let q : Parser = record {
      buf = pre ++ headers_text hs body;
      cursor = some (length pre);
      request = record r { path = some (length start) };
      closing = false;
    } in
    let l =
      headers-Loop hs pre body max_headers q nothing_said s plain
        (Agrees-append {pre = []} pre (with_path a)) h in
    (
      l.to,
      rw (path_cut start path (version ++ (b'\r' ∷ b'\n' ∷ headers_text hs body)) line.path_free)
          (rw cut (rw (next, l.ran))),
      record {
        method_is = l.same_method ∙ e;
        path_is =
            rw (l.buf_is, l.same_path)
              (Shows-Reads l.front left (some (length start)) (some path) (
                l.keeps (some (length start)) (some path)
                  (path_shown method path version line.path_free)));
        host_is =
            rw l.buf_is (Shows-Reads l.front left l.to.request.host s.host l.agrees.host_shown);
        command_is =
            rw l.buf_is
              (Shows-Reads l.front left l.to.request.command s.command l.agrees.command_shown);
        content_length_is = l.agrees.length_same;
        closing_is = l.agrees.closing_same;
        body_left = (length l.front, l.at_body, rw l.buf_is (drop-front l.front left));
      },
    )

nothing_said-Agrees :
    {m : Method} {b : Option (List ℕ)} {n : ℕ}
    → Agrees [] (record no_request { method = m; buffer = b; buffer_len = n }) false nothing_said
nothing_said-Agrees = record {
  host_shown = tt;
  command_shown = tt;
  length_same = refl;
  closing_same = refl;
}

pub not_unknown : (m : Method) → m ≢ unknown → is_unknown m ≡ false
unfolding is_unknown
not_unknown unknown h = absurd (h refl)
not_unknown _ h = refl

method_known :
    (c : Split) (r : Request) (name : Chars) (m : Method)
    → find_method known_http_methods name r.method ≡ m
    → m ≢ unknown
    → with_method c r name ≡ parse_rest c (record r { method = m })
unfolding with_method
method_known c r name m e h =
    rw (with_method, e, not_unknown m h) (ap (λ x. parse_rest c (record r { method = x })) e)

-- The request text, where the search finds its method
pub parse_text :
    (method path version : Chars) (hs : List Header) (body : Chars) (n : ℕ) (s : Meaning)
    (m : Method)
    → LineIsPlain method path version
    → All IsPlain (take max_headers hs)
    → find_method known_http_methods method unknown ≡ m
    → m ≢ unknown
    → heed_all (take max_headers hs) nothing_said ≡ done s
    → (p : Parser) × (parse (record no_request {
      buffer = some (request_text method path version hs body);
      buffer_len = n;
    })
        ≡ done (parsed p))
      × Understood p m path s (behind max_headers hs body)
unfolding parse
parse_text method path version hs body n s m line plain found known h =
    let rest = path ++ (b' ' ∷ (version ++ (b'\r' ∷ b'\n' ∷ headers_text hs body))) in
    let r = record no_request {
      method = m;
      buffer = some (request_text method path version hs body);
      buffer_len = n;
    } in
    let (p, parsing, u) =
      rest_lem method path version hs body r s m line plain h nothing_said-Agrees refl in
    (
      p,
      rw (method_cut method rest line.method_free) (
          rw (method_read method rest line.method_free)
            (method_known _ _ method m found known ∙ parsing)),
      u,
    )

method_found :
    (m : Method) → m ≢ unknown → find_method known_http_methods (method_text m) unknown ≡ m
unfolding find_method same
method_found unknown h = absurd (h refl)
method_found get h = refl
method_found post h = refl
method_found put h = refl
method_found patch h = refl
method_found delete h = refl

-- A well-formed request is understood, as far as its first 128 headers: the parser ends without a fault,
-- and the method, the path, the texts behind the pointers, the length and the wish to close are those of the
-- request with these headers only; its cursor is at the body, or, from 128 headers on, at the first header
-- that is not read, or at the empty line where there is none. Well-formed: the method is one of the five
-- words; the path has no space and the version no `\r`; each of the first 128 headers has a name that is not empty
-- and has no colon, and no `\r` in name or value; none of this has a 0; and the lengths that these headers
-- give are ints.
pub parse-request_text :
    (m : Method) (path version : Chars) (hs : List Header) (body : Chars) (n : ℕ) (s : Meaning)
    → m ≢ unknown
    → LineIsPlain (method_text m) path version
    → All IsPlain (take max_headers hs)
    → heed_all (take max_headers hs) nothing_said ≡ done s
    → (p : Parser) × (parse (record no_request {
      buffer = some (request_text (method_text m) path version hs body);
      buffer_len = n;
    })
        ≡ done (parsed p))
      × Understood p m path s (behind max_headers hs body)
parse-request_text m path version hs body n s known line plain h =
    parse_text (method_text m) path version hs body n s m line plain (method_found m known) known h
