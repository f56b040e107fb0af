-- ===== src/Http/Parse.antt =====
-- The parsing of a request in place (`_handle_connection` of src/http.c, up to the end of the
-- headers): `strsep` writes terminators into the buffer and leaves pointers to the pieces.
pub mod Pieces
use wrensong_http_server.Prelude.{
  ℕ, zero, suc, ◌+◌, Bool, true, false, List, [], ◌∷◌, drop, ◌==◌, if◌then◌else◌, Option, none,
  some,
}
use mathlib.Core.Option
use wrensong_http_server.Cstring.{Chars, codes, same, same_upto, atoi, text_of, text_from, byte_at}
use wrensong_http_server.Exec.{Exec, done, quit, fault, ◌>>=◌, write_at}
use wrensong_http_server.Http.Message.{
  Method, unknown, get, post, put, patch, delete, known_http_methods, max_headers, Pointer, Request,
}

-- How far ahead the delimiter stands, or nothing if the string ends first. A delimiter of 0 is the
-- empty set of delimiters.
unfoldable pub seek : ℕ → List ℕ → Exec (Option ℕ)
seek d [] = fault
seek d (zero ∷ bs) = done none
seek d (suc c ∷ bs) = elim (suc c == d) [
  | true ↦ done (some 0)
  | false ↦ do o ← seek d bs; done (Option.map suc o)
]

-- What `strsep` returns, where it leaves its pointer, and the bytes.
pub record Split : Type 0 where
  pub token : Pointer
  pub cursor : Pointer
  pub buf : List ℕ

cut : List ℕ → ℕ → Option ℕ → Exec Split
cut buf i none = done (record { token = some i; cursor = none; buf = buf })
cut buf i (some j) = do
  buf' ← write_at buf (i + j) 0
  done (record { token = some i; cursor = some (suc (i + j)); buf = buf' })

-- `strsep(&p, delim)`
unfoldable pub strsep : ℕ → List ℕ → Pointer → Exec Split
unfolding seek cut
strsep d buf none = done (record { token = none; cursor = none; buf = buf })
strsep d buf (some i) = do o ← seek d (drop i buf); cut buf i o

-- `p++`, which is undefined on a null pointer
abbrev pub advance : Pointer → Exec Pointer
advance none = fault
advance (some i) = done (some (suc i))

abbrev pub string_at : List ℕ → Pointer → Exec Chars
string_at buf none = fault
string_at buf (some i) = text_from buf i

abbrev pub first_at : List ℕ → Pointer → Exec ℕ
first_at buf none = fault
first_at buf (some i) = byte_at buf i

-- The search through the methods: where none fits the request keeps the method it has.
unfoldable pub find_method : List (Chars × Method) → Chars → Method → Method
find_method [] name old = old
find_method ((s, m) ∷ ms) name old = if same name s then m else find_method ms name old

-- The local variables of the handler.
pub record Parser : Type 0 where
  pub buf : List ℕ
  pub cursor : Pointer
  pub request : Request
  pub closing : Bool

-- The branches of the header loop, by the prefixes that `strncmp` compares
pub data HeaderKind : Type 0 where
  length_kind host_kind command_kind connection_kind other_kind : HeaderKind

unfoldable pub header_kind : Chars → HeaderKind
header_kind key =
    if same_upto 14 key (codes "Content-Length")
    then length_kind
    else if same_upto 4 key (codes "Host")
    then host_kind
    else if same_upto 12 key (codes "Command")
    then command_kind
    else if same_upto 10 key (codes "Connection")
    then connection_kind
    else other_kind

-- What each of them sets, from a pointer to the value
unfoldable pub set_header : HeaderKind → Pointer → Parser → Exec Parser
set_header length_kind at p = do
  v ← string_at p.buf at
  n ← atoi v
  done (record p { request = record (p.request) { content_length = n } })
set_header host_kind at p = done (record p { request = record (p.request) { host = at } })
set_header command_kind at p = done (record p { request = record (p.request) { command = at } })
set_header connection_kind at p = do
  v ← string_at p.buf at
  done (if same_upto 5 v (codes "close") then record p { closing = true } else p)
set_header other_kind at p = done p

-- A header line that is not empty
unfoldable pub header_line : Pointer → Parser → Exec Parser
unfolding strsep header_kind set_header
header_line line p = do
  k ← strsep b':' p.buf line
  behind ← advance k.cursor
  v ← strsep 0 k.buf behind
  key ← string_at v.buf k.token
  set_header (header_kind key) v.token (record p { buf = v.buf })

-- The loop over the headers, with the rounds left
unfoldable pub headers : ℕ → Parser → Exec Parser
unfolding strsep header_line
headers zero p = done p
headers (suc n) p = do
  s ← strsep b'\r' p.buf p.cursor
  behind ← advance s.cursor
  c ← first_at s.buf s.token
  let q = record p { buf = s.buf; cursor = behind }
  elim (c == 0) [ true ↦ done q | false ↦ do q' ← header_line s.token q; headers n q' ]

pub data Outcome : Type 0 where
  unknown_method : Outcome
  parsed : Parser → Outcome

unfoldable pub is_unknown : Method → Bool
is_unknown unknown = true
is_unknown _ = false

-- The request line behind the method, then the headers
unfoldable pub parse_rest : Split → Request → Exec Outcome
unfolding strsep headers
parse_rest m r = do
  path ← strsep b' ' m.buf m.cursor
  version ← strsep b'\r' path.buf path.cursor
  behind ← advance version.cursor
  p ← headers max_headers (record {
    buf = version.buf;
    cursor = behind;
    request = record r { path = path.token };
    closing = false;
  })
  done (parsed p)

-- The request, once the text of its method is known
unfoldable pub with_method : Split → Request → Chars → Exec Outcome
with_method m r name =
    let method = find_method known_http_methods name r.method in
    elim (is_unknown method) [
      | true ↦ done unknown_method
      | false ↦ parse_rest m (record r { method = method })
    ]

parse_buffer : List ℕ → Request → Exec Outcome
parse_buffer buf r = do
  m ← strsep b' ' buf (some 0)
  name ← string_at m.buf m.token
  with_method m r name

-- `strcmp` on the null pointer that `strsep` gives back for a null buffer is undefined.
unfoldable pub parse : Request → Exec Outcome
unfolding parse_buffer
parse r = elim r.buffer [ none ↦ fault | some buf ↦ parse_buffer buf r ]
