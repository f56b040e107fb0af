-- ===== src/Http/Spec.antt =====
-- What a request says, apart from buffers and pointers: the reference that the parser is held to.
use wrensong_http_server.Prelude.{
  ℕ, zero, suc, ◌==◌, Bool, true, false, List, [], ◌∷◌, ◌++◌, Option, none, some, if◌then◌else◌,
}
use wrensong_http_server.Prelude.Int.{ℤ, pos}
use wrensong_http_server.Cstring.{Chars, codes, same, atoi}
use wrensong_http_server.Exec.{Exec, done, ◌>>=◌}
use wrensong_http_server.Http.Message.{Method, unknown, get, post, put, patch, delete}

-- A header, as its name and its value
abbrev pub Header : Type 0
Header = Chars × Chars

pub record Meaning : Type 0 where
  pub host : Option Chars
  pub command : Option Chars
  pub content_length : ℤ
  pub closing : Bool

abbrev pub nothing_said : Meaning
nothing_said = record { host = none; command = none; content_length = pos 0; closing = false }

-- Whether a text begins with another, which comes first
unfoldable pub begins_with : Chars → Chars → Bool
begins_with [] s = true
begins_with (c ∷ cs) [] = false
begins_with (c ∷ cs) (d ∷ ds) = if d == c then begins_with cs ds else false

-- What a header says, by its name: for `Command` the name in full, for the others its beginning. A later
-- header wins, and any other header says nothing.
unfoldable pub heed_header : Chars → Chars → Meaning → Exec Meaning
heed_header name val s =
    if begins_with (codes "Content-Length") name
    then (do n ← atoi val; done (record s { content_length = n }))
    else if begins_with (codes "Host") name
    then done (record s { host = some val })
    else if same name (codes "Command")
    then done (record s { command = some val })
    else if begins_with (codes "Connection") name
    then done (if begins_with (codes "close") val then record s { closing = true } else s)
    else done s

unfoldable pub heed_all : List Header → Meaning → Exec Meaning
unfolding heed_header
heed_all [] s = done s
heed_all ((name, val) ∷ hs) s = do s' ← heed_header name val s; heed_all hs s'

-- The word for each method
abbrev pub method_text : Method → Chars
method_text get = codes "GET"
method_text post = codes "POST"
method_text put = codes "PUT"
method_text patch = codes "PATCH"
method_text delete = codes "DELETE"
method_text unknown = []

-- The text of headers, with the empty line and what follows it
abbrev pub headers_text : List Header → Chars → Chars
headers_text [] body = b'\r' ∷ b'\n' ∷ body
headers_text ((name, val) ∷ hs) body =
    name ++ (b':' ∷ b' ' ∷ (val ++ (b'\r' ∷ b'\n' ∷ headers_text hs body)))

-- What is left of the text behind the first so many headers: the body, if the empty line is among what is
-- read, or else the other headers
abbrev pub behind : ℕ → List Header → Chars → Chars
behind zero hs body = headers_text hs body
behind (suc n) [] body = body
behind (suc n) (h ∷ hs) body = behind n hs body

abbrev pub request_text : Chars → Chars → Chars → List Header → Chars → Chars
request_text method path version hs body =
    method ++ (b' ' ∷ (path ++ (b' ' ∷ (version ++ (b'\r' ∷ b'\n' ∷ headers_text hs body)))))
