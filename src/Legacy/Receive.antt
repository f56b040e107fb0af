-- ===== src/Legacy/Receive.antt =====
-- The request as `_handle_connection` of src/old.c takes it apart, and its body.
use wrensong_http_server.Prelude.{
  ℕ, zero, suc, ◌+◌, true, false, List, [], ◌∷◌, ◌++◌, ◌==◌, if◌then◌else◌, Option, none, some,
}
use wrensong_http_server.Cstring.{Chars, codes, text_from, strtoul}
use wrensong_http_server.Exec.{Exec, done, fault, ◌>>=◌}
use wrensong_http_server.Bstring.{Bstring, Allocator, malloc, uint, size, init, append}
use wrensong_http_server.Http.Message.{Method, unknown, known_http_methods, max_headers, Pointer}
use wrensong_http_server.Http.Parse.{
  Split, strsep, advance, string_at, first_at, find_method, is_unknown,
}
use wrensong_http_server.Legacy.World.{Header, GetHeader}

-- The variables of the loop over the headers: `headers` is null if its `malloc` failed, and holds
-- the elements that are set.
pub record Lines : Type 0 where
  pub buf : List ℕ
  pub cursor : Pointer
  pub headers : Option (List Header)

-- The key and the value of a line that is not empty, and the buffer
unfoldable pub header_line : Pointer → List ℕ → Exec (Header × List ℕ)
unfolding strsep
header_line line buf = do
  k ← strsep b':' buf line
  behind ← advance k.cursor
  v ← strsep 0 k.buf behind
  done (record { key = k.token; value = v.token }, v.buf)

-- `req.headers[i] = ...`
unfoldable pub store_header : Option (List Header) → Header → Exec (Option (List Header))
store_header none h = fault
store_header (some hs) h = done (some (hs ++ (h ∷ [])))

-- The loop over the headers, with the rounds left
unfoldable pub read_headers : ℕ → Lines → Exec Lines
unfolding strsep header_line store_header
read_headers zero l = done l
read_headers (suc n) l = do
  s ← strsep b'\r' l.buf l.cursor
  behind ← advance s.cursor
  c ← first_at s.buf s.token
  elim (c == 0) [
    | true ↦ done (record l { buf = s.buf; cursor = behind })
    | false ↦ do
      h ← header_line s.token s.buf
      hs ← store_header l.headers h.0
      read_headers n (record { buf = h.1; cursor = behind; headers = hs })
  ]

-- The request, with the memory behind the allocation of the headers
pub record Request : Type 0 where
  pub method : Method
  pub path : Pointer
  pub lines : Lines
  pub memory : Allocator

unfoldable pub parse_lines : Split → Method → Allocator → Exec Request
unfolding strsep read_headers
parse_lines m method memory = do
  path ← strsep b' ' m.buf m.cursor
  version ← strsep b'\r' path.buf path.cursor
  behind ← advance version.cursor
  let (got, left) = malloc memory
  lines ←
      read_headers max_headers
        (record { buf = version.buf; cursor = behind; headers = if got then some [] else none })
  done (record { method = method; path = path.token; lines = lines; memory = left })

-- An unknown method is given up: `none`.
unfoldable pub with_name : Split → Chars → Allocator → Exec (Option Request)
unfolding parse_lines find_method is_unknown
with_name m name memory =
    let method = find_method known_http_methods name unknown in
    elim (is_unknown method) [
      | true ↦ done none
      | false ↦ do r ← parse_lines m method memory; done (some r)
    ]

unfoldable pub parse : List ℕ → Allocator → Exec (Option Request)
unfolding strsep with_name
parse buf memory = do
  m ← strsep b' ' buf (some 0)
  name ← string_at m.buf m.token
  with_name m name memory

-- The length that the header gives, or 0
unfoldable pub length_of : Option ℕ → ℕ
length_of none = 0
length_of (some n) = n

headers_of : Option (List Header) → List Header
headers_of none = []
headers_of (some hs) = hs

-- `http_get_header(&req, name)`
unfoldable pub lookup : GetHeader → Lines → Chars → Pointer
unfolding headers_of
lookup get l name = get l.buf (headers_of l.headers) name

unfoldable pub content_length : GetHeader → Lines → Exec ℕ
unfolding text_from strtoul length_of lookup
content_length get l = elim (lookup get l (codes "content-length")) [
  | none ↦ done 0
  | some i ↦ do s ← text_from l.buf i; done (length_of (strtoul s))
]

-- `bstring_init(content_length + 1, NULL)`, then `bstring_append(req.body, parse_buffer)`
unfoldable pub read_body : Lines → Allocator → ℕ → Exec (Option Bstring × Allocator)
unfolding text_from
read_body l m zero = done (none, m)
read_body l m (suc n) = do
  b ← init m (uint (size (suc n + 1))) none
  s ← string_at l.buf l.cursor
  a ← append b.1 b.0 (some s)
  done (some a.1, a.2)
