-- ===== src/Legacy/Handler.antt =====
-- `_handle_connection` of src/old.c as a whole. The source uses `conn_fd` without declaring it: here
-- it is the descriptor that the argument points to.
use wrensong_http_server.Prelude.{
  ℕ, Bool, true, false, ◌&&◌, List, [], ◌∷◌, ◌++◌, if◌then◌else◌, Option, none, some,
}
use wrensong_http_server.Exec.{Exec, done, quit, ◌>>=◌, write_at}
use wrensong_http_server.Bstring.{Bstring, Allocator, malloc, free_block, free}
use wrensong_http_server.Legacy.World.{
  World, Action, reported, connection_freed, file_closed, descriptor_closed, Header, act,
}
use wrensong_http_server.Legacy.Receive.{Request, parse, content_length, read_body}
use wrensong_http_server.Legacy.Respond.{Local, respond}

-- What the handler leaves behind
pub record Left : Type 0 where
  pub memory : Allocator
  pub filename : Bstring
  pub actions : List Action

-- `free` of a pointer that may be null
free_if : Bool → Allocator → Allocator
free_if true m = free_block m
free_if false m = m

free_body : Option Bstring → Allocator → Exec Allocator
free_body none m = done m
free_body (some b) m = free m (some b)

-- `filename` cut back to the length that it had
unfoldable pub restore : ℕ → Bstring → Exec Bstring
unfolding write_at
restore n b = do block ← write_at b.block n (some 0); done (record b { block = block; length = n })

-- Everything from the label `cleanup` on, told which of the buffer and the headers are allocated
unfoldable pub cleanup : ℕ → ℕ → Bool → Bool → Option Bstring → Local → Exec Left
unfolding free_if free_body restore
cleanup fd n buffer headers body l = do
  m ← free_body body (free_if headers (free_if buffer l.memory))
  b ← restore n l.filename
  let ended = (act (descriptor_closed fd) (act connection_freed l.out)).actions
  done (record {
    memory = m;
    filename = b;
    actions = if l.file_open then ended ++ (file_closed ∷ []) else ended;
  })

-- The test of `bytes_sent`
unfoldable pub check : Local → Local
check l = if l.checked && l.out.failed then record l { out = act reported l.out } else l

has_headers : Option (List Header) → Bool
has_headers none = false
has_headers (some hs) = true

-- From the end of the headers on
unfoldable pub serve : World → ℕ → Bstring → Request → Exec Left
unfolding content_length read_body respond check cleanup has_headers
serve w fd filename r = do
  n ← content_length w.get_header r.lines
  b ← read_body r.lines r.memory n
  l ← respond w r b.0 (record {
    memory = b.1;
    filename = filename;
    file_open = false;
    checked = true;
    out = record { actions = []; sends = w.sends; failed = true };
  })
  cleanup fd filename.length true (has_headers r.lines.headers) b.0 (check l)

-- Both returns before the label leave the descriptor open and the buffer allocated.
unfoldable pub serve_if : World → ℕ → Bstring → Allocator → Option Request → Exec Left
unfolding serve
serve_if w fd filename m none =
    done (record { memory = m; filename = filename; actions = reported ∷ [] })
serve_if w fd filename m (some r) = serve w fd filename r

-- The buffer up to the terminator behind what was received: nothing writes to the rest of it, and reading
-- there is a fault.
unfoldable pub receive : World → ℕ → Bstring → Allocator → Option (List ℕ) → Exec Left
unfolding parse serve_if
receive w fd filename m none =
    done (record { memory = m; filename = filename; actions = reported ∷ [] })
receive w fd filename m (some bytes) = do
  r ← parse (bytes ++ (0 ∷ [])) m
  serve_if w fd filename m r

unfoldable pub handle : World → Allocator → Bstring → Option ℕ → Exec Left
unfolding receive cleanup
handle w m filename none = quit
handle w m filename (some fd) =
    let (got, m1) = malloc m in
    if got
    then receive w fd filename m1 w.received
    else cleanup fd filename.length false false none (record {
      memory = m1;
      filename = filename;
      file_open = false;
      checked = false;
      out = record { actions = reported ∷ []; sends = w.sends; failed = true };
    })
