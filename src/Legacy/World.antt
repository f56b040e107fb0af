-- ===== src/Legacy/World.antt =====
-- What the handler of src/old.c asks of the code around it: the socket, the files and the error
-- stream. `swrapReceive` and `http_get_header` have no definition in the repository.
use wrensong_http_server.Prelude.{
  ℕ, zero, suc, Bool, true, not, List, [], ◌∷◌, ◌++◌, length, Option, none, some,
}
use wrensong_http_server.Cstring.{Chars}
use wrensong_http_server.Http.Message.{Pointer}

abbrev pub buffer_size : ℕ
buffer_size = 1024

-- What `fopen` for reading gives: the content, or a null pointer with `errno` at `ENOENT` or not
pub data Opening : Type 0 where
  found : Chars → Opening
  missing refused : Opening

-- What a call of `fread` does: it reads all that it is asked for; it reads less and `ferror` says nothing, and the
-- buffer then holds these bytes, old ones among them; or `ferror` tells an error.
pub data Reading : Type 0 where
  whole_read read_broken : Reading
  short_read : (ℕ → ℕ) → Reading

-- A `struct HttpHeader`
pub record Header : Type 0 where
  pub key : Pointer
  pub value : Pointer

-- `http_get_header`, over the buffer and the headers
abbrev pub GetHeader : Type 0
GetHeader = List ℕ → List Header → Chars → Pointer

-- The answers to come. A read or a send that has no answer left succeeds.
pub record World : Type 0 where
  -- `swrapReceive`: at most 1023 bytes, or an error or the end of the connection
  pub received : Option (List ℕ)
  pub opening : Chars → Opening
  pub opens_for_writing : Bool
  pub seeks : Bool
  pub tells : Bool
  pub rewinds : Bool
  pub reads : List Reading
  pub sends : List Bool
  pub get_header : GetHeader

-- `sent` is a call of `send` with these bytes, whatever it answers.
pub data Action : Type 0 where
  sent wrote : Chars → Action
  created : Chars → Action
  reported : Action
  connection_freed file_closed : Action
  descriptor_closed : ℕ → Action

-- What was done, the answers of `send` that are left, and whether `bytes_sent` is -1
pub record Out : Type 0 where
  pub actions : List Action
  pub sends : List Bool
  pub failed : Bool

abbrev pub act : Action → Out → Out
act a o = record o { actions = o.actions ++ (a ∷ []) }

abbrev pub succeeds : List Bool → Bool
succeeds [] = true
succeeds (b ∷ bs) = b

abbrev pub others {ℓ} : {A : Type ℓ} → List A → List A
others [] = []
others (b ∷ bs) = bs

abbrev pub next_reading : List Reading → Reading
next_reading [] = whole_read
next_reading (r ∷ rs) = r

-- So many bytes of a buffer, from an index on
abbrev pub bytes_of : (ℕ → ℕ) → ℕ → ℕ → Chars
bytes_of buffer i zero = []
bytes_of buffer i (suc n) = buffer i ∷ bytes_of buffer (suc i) n

-- What the buffer holds in place of a chunk of the file, unless `ferror` tells an error
abbrev pub chunk_read : Reading → Chars → Option Chars
chunk_read whole_read chunk = some chunk
chunk_read (short_read buffer) chunk = some (bytes_of buffer 0 (length chunk))
chunk_read read_broken chunk = none

-- `bytes_sent = send(conn_fd, bytes, ..., 0)`
abbrev pub send : Chars → Out → Out
send bytes o = record {
  actions = o.actions ++ (sent bytes ∷ []);
  sends = others o.sends;
  failed = not (succeeds o.sends);
}
