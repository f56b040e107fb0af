-- ===== src/Legacy/Tests/Files.antt =====
-- Whole requests for files.
use wrensong_http_server.Prelude.{
  ℕ, ◌≡◌, refl, true, List, [], ◌∷◌, ◌++◌, replicate, All, none, some, arith,
}
use wrensong_http_server.Cstring.{Chars, codes, text_from}
use wrensong_http_server.Exec.{done, fault}
use wrensong_http_server.Bstring.{Allocator}
use wrensong_http_server.Http.Message.{Pointer}
use wrensong_http_server.Legacy.World.{found, World, Header}
use wrensong_http_server.Legacy.Respond.{digits}
use wrensong_http_server.Http.Spec.{request_text}
use wrensong_http_server.Http.Headers.{Shows}
use wrensong_http_server.Http.Headers.Round.{IsPlain}
use wrensong_http_server.Http.RequestLine.{LineIsPlain}
use wrensong_http_server.Legacy.Fetched.{Fetched, handle-Fetched}
use wrensong_http_server.Legacy.Created.{Created, handle-Created}
use wrensong_http_server.Legacy.Headers.{Named}
use wrensong_http_server.Legacy.Handler.{handle}
use wrensong_http_server.Legacy.Empty.{handle_bare_post}
use wrensong_http_server.Legacy.Tests.{calm, directory, directory-Holds, host, host-IsPlain}

-- `GET /files/a HTTP/1.1`, with a file of three bytes behind every name
abbrev asks_file : World
asks_file = record calm {
  received = some (request_text (codes "GET") (codes "/files/a") (codes "HTTP/1.1") host []);
  opening = λ path. found (codes "abc");
}

file-LineIsPlain : LineIsPlain (codes "GET") (codes "/files/a") (codes "HTTP/1.1")
file-LineIsPlain = record {
  method_free = ground arith;
  path_free = ground arith;
  version_free = ground arith;
}

abbrev rich : Allocator
rich = record { answers = replicate 10 true; live = 1 }

handle-Fetched_example : Fetched asks_file rich directory 5 (codes "d/") (found (codes "abc"))
handle-Fetched_example =
    handle-Fetched asks_file rich directory 5 (codes "d/") (codes "a") (codes "HTTP/1.1") host []
      refl refl refl tt tt directory-Holds (ground arith) (ground arith) file-LineIsPlain
      host-IsPlain (ground arith) refl (λ front found n. refl) (ground arith)
      (refl, (refl, (refl, (refl, (refl, (refl, (refl, (refl, (refl, (refl, tt))))))))))

-- `POST /files/a HTTP/1.1` with a body of three bytes, and a `http_get_header` that gives the first header
abbrev first_value : List ℕ → List Header → Chars → Pointer
first_value b [] name = none
first_value b (h ∷ hs) name = h.value

abbrev announces : List (Chars × Chars)
announces = (codes "Content-Length", codes "3") ∷ []

abbrev makes_file : World
makes_file = record calm {
  received =
      some
        (request_text (codes "POST") (codes "/files/a") (codes "HTTP/1.1") announces (codes "abc"));
  get_header = first_value;
}

new_file-LineIsPlain : LineIsPlain (codes "POST") (codes "/files/a") (codes "HTTP/1.1")
new_file-LineIsPlain = record {
  method_free = ground arith;
  path_free = ground arith;
  version_free = ground arith;
}

announces-IsPlain : All IsPlain announces
announces-IsPlain = (
  record {
    nonempty = λ e. ground arith;
    no_colon = ground arith;
    name_in_line = ground arith;
    value_in_line = ground arith;
  },
  tt,
)

shown :
    (front body : List ℕ) (p : Pointer) (s : Chars)
    → Shows front p (some s)
    → (i : ℕ) × (p ≡ some i) × (text_from (front ++ body) i ≡ done s)
shown front body none s h = absurd h
shown front body (some i) s h = (i, refl, h body)

announced_three :
    (front : List ℕ) (hs : List Header)
    → Named front hs announces
    → (i : ℕ) × (first_value (front ++ (codes "abc" ++ (0 ∷ []))) hs (codes "content-length")
        ≡ some i)
      × (text_from (front ++ (codes "abc" ++ (0 ∷ []))) i ≡ done (digits 20 3))
unfolding digits
announced_three front [] h = absurd h
announced_three front (x ∷ xs) h = shown front (codes "abc" ++ (0 ∷ [])) x.value (codes "3") h.1

handle-Created_example : Created makes_file rich directory 5 (codes "d/") (codes "a") (codes "abc")
handle-Created_example =
    handle-Created makes_file rich directory 5 (codes "d/") (codes "a") (codes "HTTP/1.1") announces
      (codes "abc") 2 refl directory-Holds (ground arith) (ground arith) (ground arith)
      (ground arith) (ground arith) new_file-LineIsPlain announces-IsPlain (ground arith) refl
      announced_three (refl, (refl, (refl, (refl, (refl, (refl, tt))))))

-- The same request without a body and a length
abbrev makes_nothing : World
makes_nothing = record calm {
  received = some (request_text (codes "POST") (codes "/files/a") (codes "HTTP/1.1") host []);
}

handle_bare_post_example : handle makes_nothing rich directory (some 5) ≡ fault
handle_bare_post_example =
    handle_bare_post makes_nothing rich directory 5 (codes "d/") (codes "a") (codes "HTTP/1.1") host
      [] directory-Holds (ground arith) (ground arith) new_file-LineIsPlain host-IsPlain
      (ground arith) refl (λ front found n. refl) (λ c e. cc) refl (refl, (refl, (refl, tt)))
