-- ===== src/Http/Message.antt =====
-- The data of src/server.h. A pointer into a request's buffer is an index.
use wrensong_http_server.Prelude.{ℕ, List, [], ◌∷◌, Option, none}
use wrensong_http_server.Prelude.Int.{ℤ, pos}
use wrensong_http_server.Cstring.{Chars, codes}
use wrensong_http_server.Bstring.{Bstring}

-- `enum HttpMethodTyp`
pub data Method : Type 0 where
  unknown get post put patch delete : Method

-- `KNOWN_HTTP_METHODS`, up to the terminating entry
abbrev pub known_http_methods : List (Chars × Method)
known_http_methods =
    (codes "GET", get)
    ∷ (codes "POST", post)
    ∷ (codes "PUT", put)
    ∷ (codes "PATCH", patch)
    ∷ (codes "DELETE", delete)
    ∷ []

abbrev pub max_headers : ℕ
max_headers = 128

abbrev pub Pointer : Type 0
Pointer = Option ℕ

-- `HttpRequest`, with the bytes that `_buffer` points to
pub record Request : Type 0 where
  pub method : Method
  pub path : Pointer
  pub host : Pointer
  pub command : Pointer
  pub content_length : ℤ
  pub buffer : Option (List ℕ)
  pub buffer_len : ℕ
  pub body : Option Bstring

-- A request as `calloc` leaves it
abbrev pub no_request : Request
no_request = record {
  method = unknown;
  path = none;
  host = none;
  command = none;
  content_length = pos 0;
  buffer = none;
  buffer_len = 0;
  body = none;
}
