-- ===== src/Http/RequestLine.antt =====
-- The pieces of a request line, as `strsep` of src/http.c cuts them.
use wrensong_http_server.Prelude.{
  ℕ, suc, ◌+◌, ◌≡◌, ap, ◌∙◌, List, [], ◌∷◌, ◌++◌, length, Option, none, some, arith, append_assoc,
  length-append,
}
use wrensong_http_server.Cstring.{Chars, text_from}
use wrensong_http_server.Exec.{done}
use wrensong_http_server.Http.Message.{Pointer}
use wrensong_http_server.Http.Parse.{strsep}
use wrensong_http_server.Http.Parse.Pieces.{Free, Free-NonZero, strsep-Free, text_from-piece}
use wrensong_http_server.Http.Headers.{Shows, Shows-append}

-- A pointer into the buffer and the text that stands there
abbrev pub Reads : List ℕ → Pointer → Option Chars → Type 0
Reads buf none none = Unit {0}
Reads buf (some i) (some s) = text_from buf i ≡ done s
Reads buf _ _ = ⊥

pub Shows-Reads :
    (front body : List ℕ) (at : Pointer) (o : Option Chars)
    → Shows front at o
    → Reads (front ++ body) at o
Shows-Reads front body none none h = h
Shows-Reads front body none (some s) h = h
Shows-Reads front body (some i) none h = h
Shows-Reads front body (some i) (some s) h = h body

-- The pieces of the request line keep to it.
pub record LineIsPlain (method path version : Chars) : Type 0 where
  pub method_free : Free b' ' method
  pub path_free : Free b' ' path
  pub version_free : Free b'\r' version

-- The buffer up to the path, and behind the request line, once the pieces are cut
abbrev pub up_to_path : Chars → List ℕ
up_to_path method = method ++ (0 ∷ [])

abbrev pub up_to_version : Chars → Chars → List ℕ
up_to_version method path = up_to_path method ++ (path ++ (0 ∷ []))

abbrev pub behind_request_line : Chars → Chars → Chars → List ℕ
behind_request_line method path version = up_to_version method path ++ (version ++ (0 ∷ b'\n' ∷ []))

pub method_cut :
    (method rest : Chars)
    → Free b' ' method
    → strsep b' ' (method ++ (b' ' ∷ rest)) (some 0)
      ≡ done (record {
        token = some 0;
        cursor = some (length (up_to_path method));
        buf = up_to_path method ++ rest;
      })
method_cut method rest h =
    strsep-Free b' ' [] method rest (omega arith) h
    ∙ rw (append_assoc method (0 ∷ []) rest, length-append method (0 ∷ []))
        (ap (λ k. done (record { token = some 0; cursor = some k; buf = method ++ (0 ∷ rest) }))
          {y = length method + 1} (omega arith))

pub path_cut :
    (pre path rest : Chars)
    → Free b' ' path
    → strsep b' ' (pre ++ (path ++ (b' ' ∷ rest))) (some (length pre))
      ≡ done (record {
        token = some (length pre);
        cursor = some (length (pre ++ (path ++ (0 ∷ []))));
        buf = (pre ++ (path ++ (0 ∷ []))) ++ rest;
      })
path_cut pre path rest h =
    strsep-Free b' ' pre path rest (omega arith) h
    ∙ rw (append_assoc pre (path ++ (0 ∷ [])) rest, append_assoc path (0 ∷ []) rest)
        (ap
          (λ k. done (record {
            token = some (length pre);
            cursor = some k;
            buf = pre ++ (path ++ (0 ∷ rest));
          }))
          {y = length (pre ++ (path ++ (0 ∷ [])))}
          (omega (arith, length-append pre (path ++ (0 ∷ [])), length-append path (0 ∷ []))))

pub version_cut :
    (pre version rest : Chars)
    → Free b'\r' version
    → (i : ℕ) × (strsep b'\r' (pre ++ (version ++ (b'\r' ∷ b'\n' ∷ rest))) (some (length pre))
        ≡ done (record {
          token = some (length pre);
          cursor = some i;
          buf = (pre ++ (version ++ (0 ∷ b'\n' ∷ []))) ++ rest;
        }))
      × (suc i ≡ length (pre ++ (version ++ (0 ∷ b'\n' ∷ []))))
version_cut pre version rest h = (
  suc (length pre + length version),
  strsep-Free b'\r' pre version (b'\n' ∷ rest) (omega arith) h
      ∙ rw (
        append_assoc pre (version ++ (0 ∷ b'\n' ∷ [])) rest,
        append_assoc version (0 ∷ b'\n' ∷ []) rest,
      ),
  omega (
    arith,
    length-append pre (version ++ (0 ∷ b'\n' ∷ [])),
    length-append version (0 ∷ b'\n' ∷ []),
  ),
)

pub path_shown :
    (method path version : Chars)
    → Free b' ' path
    → Shows
        (behind_request_line method path version)
        (some (length (up_to_path method)))
        (some path)
path_shown method path version h =
    Shows-append (up_to_version method path) (version ++ (0 ∷ b'\n' ∷ []))
      (some (length (up_to_path method))) (some path)
      (λ post.
        rw
          (
            append_assoc (up_to_path method) (path ++ (0 ∷ [])) post,
            append_assoc path (0 ∷ []) post,
          )
          (text_from-piece (up_to_path method) path post (Free-NonZero b' ' path h)))

pub method_read :
    (method rest : Chars) → Free b' ' method → text_from (up_to_path method ++ rest) 0 ≡ done method
method_read method rest h =
    rw (append_assoc method (0 ∷ []) rest)
      (text_from-piece [] method rest (Free-NonZero b' ' method h))
