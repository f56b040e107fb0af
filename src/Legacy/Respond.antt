-- ===== src/Legacy/Respond.antt =====
-- The answers of src/old.c: a fixed text, the user agent or the rest of the path, a file, or the
-- creation of one.
use wrensong_http_server.Prelude.{
  ℕ, zero, suc, ◌+◌, ◌-◌, ◌*◌, ◌/◌, ◌%◌, Bool, true, false, ◌&&◌, List, [], ◌∷◌, ◌++◌, length, take,
  drop, ltb, if◌then◌else◌, Option, none, some,
}
use wrensong_http_server.Cstring.{Chars, codes, same, same_upto, text_from}
use wrensong_http_server.Exec.{Exec, done, fault, ◌>>=◌}
use wrensong_http_server.Bstring.{Bstring, Allocator, malloc, free_block, init, append, free}
use wrensong_http_server.Bstring.Contents.{read_string}
use wrensong_http_server.Bstring.Data.{written, data_of}
use wrensong_http_server.Http.Message.{Method, get, post, Pointer}
use wrensong_http_server.Http.Parse.{string_at}
use wrensong_http_server.Legacy.World.{
  buffer_size, Opening, found, missing, refused, World, wrote, created, reported, Out, act, others,
  send, Reading, next_reading, chunk_read,
}
use wrensong_http_server.Legacy.Receive.{Request, lookup}

-- The decimal digits of a number, of at most `fuel` digits: `%zu` and `%ld`
unfoldable pub digits : ℕ → ℕ → Chars
digits zero n = []
digits (suc fuel) n =
    let front = digits fuel (n / 10) in (if ltb n 10 then [] else front) ++ ((b'0' + n % 10) ∷ [])

-- A number below 2^64 has at most 20 digits.
abbrev pub decimal : ℕ → Chars
decimal n = digits 20 n

-- What the handler has to keep up to its label `cleanup`. `checked` says whether it falls through to
-- the test of `bytes_sent`, or jumps.
pub record Local : Type 0 where
  pub memory : Allocator
  pub filename : Bstring
  pub file_open : Bool
  pub checked : Bool
  pub out : Out

abbrev pub reply : Chars → Local → Local
reply bytes l = record l { out = send bytes l.out }

-- `goto cleanup`
abbrev pub jump : Local → Local
jump l = record l { checked = false }

-- `perror(...)` or `puts(...)`, then `goto cleanup`
abbrev pub give_up : Local → Local
give_up l = record l { out = act reported l.out; checked = false }

abbrev pub plain_text : Chars → Chars
plain_text s =
    codes "HTTP/1.1 200 OK\r\n"
    ++ (codes "Content-Type: text/plain\r\n"
        ++ (codes "Content-Length:" ++ (decimal (length s) ++ (codes "\r\n\r\n" ++ s))))

-- The text printed into `BUFFER_SIZE` bytes, sent and freed. Neither the result of `malloc` nor the
-- length is looked at.
unfoldable pub reply_text : Chars → Local → Exec Local
reply_text s l =
    let (got, left) = malloc l.memory in
    if got && ltb (length (plain_text s)) buffer_size
    then done (reply (plain_text s) (record l { memory = free_block left }))
    else fault

unfoldable pub user_agent : Request → Pointer → Local → Exec Local
unfolding text_from reply_text
user_agent r none l = reply_text (codes "NULL") l
user_agent r (some i) l = do s ← text_from r.lines.buf i; reply_text s l

-- `bstring_append(filename, name)`, and the path in `filename->data`
unfoldable pub name_file : Chars → Local → Exec (Local × Chars)
unfolding read_string
name_file name l = do
  a ← append l.memory (some l.filename) (some name)
  path ← read_string a.1.block
  done (record l { filename = a.1; memory = a.2 }, path)

-- `bstring_append` of each in turn
unfoldable pub append_all :
    Allocator → Option Bstring → List Chars → Exec (Option Bstring × Allocator)
append_all m b [] = done (b, m)
append_all m b (s ∷ ss) = do a ← append m b (some s); append_all a.2 (some a.1) ss

-- What `res` holds is sent.
unfoldable pub send_string : Option Bstring → Local → Exec Local
unfolding data_of
send_string none l = fault
send_string (some b) l = do s ← data_of b; done (reply s l)

abbrev pub file_header : ℕ → List Chars
file_header n =
    codes " 200 OK\r\n"
    ∷ codes "Content-Type: application/octet-stream\r\n"
    ∷ codes "Content-Length: "
    ∷ decimal n
    ∷ codes "\r\n\r\n"
    ∷ []

-- The loop over the file, with the rounds left and the answers of `fread`: a chunk is read, and the buffer sent.
unfoldable pub send_chunks : ℕ → Chars → List Reading → Out → Exec (Bool × Out)
send_chunks fuel [] reads o = done (true, o)
send_chunks zero (c ∷ cs) reads o = fault
send_chunks (suc fuel) (c ∷ cs) reads o =
    elim (chunk_read (next_reading reads) (take buffer_size (c ∷ cs))) [
      | some bytes ↦ send_chunks fuel (drop buffer_size (c ∷ cs)) (others reads) (send bytes o)
      | none ↦ done (false, act reported o)
    ]

unfoldable pub send_file : World → Chars → Local → Exec Local
unfolding send_chunks
send_file w content l = do
  c ← send_chunks (length content) content w.reads l.out
  done (record l { out = c.1; checked = c.0 })

-- The file is open, and `res` has the version. On an error `res` is not freed.
unfoldable pub get_found : World → Chars → Option Bstring → Local → Exec Local
unfolding append_all send_string send_file
get_found w content res l =
    if w.seeks && (w.tells && w.rewinds)
    then (do
      a ← append_all l.memory res (file_header (length content))
      l1 ← send_string a.0 (record l { memory = a.1 })
      m ← free l1.memory a.0
      send_file w content (record l1 { memory = m }))
    else done (give_up l)

unfoldable pub get_missing : Option Bstring → Local → Exec Local
unfolding append_all send_string
get_missing res l = do
  a ← append_all l.memory res (codes " 404 Not Found\r\n\r\n" ∷ [])
  l1 ← send_string a.0 (record l { memory = a.1 })
  done (jump l1)

-- `HTTP_VERSION`
abbrev pub http_version : Chars
http_version = codes "HTTP/1.1"

unfoldable pub get_opened : World → Opening → Local → Exec Local
unfolding get_found get_missing
get_opened w refused l = done (give_up l)
get_opened w missing l = do
  b ← init l.memory 0 (some http_version)
  get_missing b.0 (record l { memory = b.1 })
get_opened w (found content) l = do
  b ← init l.memory 0 (some http_version)
  get_found w content b.0 (record l { memory = b.1; file_open = true })

unfoldable pub get_file : World → Chars → Local → Exec Local
unfolding name_file get_opened
get_file w name l = do n ← name_file name l; get_opened w (w.opening n.1) n.0

-- The body is written in whole chunks, and then what remains.
unfoldable pub write_body : Option Bstring → Local → Exec Local
unfolding written
write_body none l = fault
write_body (some b) l =
    let chunks = b.length / buffer_size in
    let remaining = b.length % buffer_size in
    do
      whole ← written (take (buffer_size * chunks) b.block)
      rest ← written (take remaining (drop (b.length - remaining) b.block))
      let out1 = if ltb 0 chunks then act (wrote whole) l.out else l.out
      let out2 = if ltb 0 remaining then act (wrote rest) out1 else out1
      done (record l { out = out2 })

unfoldable pub post_new : World → Option Bstring → Chars → Local → Exec Local
unfolding write_body
post_new w body path l =
    if w.opens_for_writing
    then (do
      l1 ← write_body body (record l { file_open = true; out = act (created path) l.out })
      done (reply (codes "HTTP/1.1 201 Created\r\n\r\n") l1))
    else done (give_up l)

unfoldable pub post_opened : World → Option Bstring → Chars → Opening → Local → Exec Local
unfolding post_new
post_opened w body path (found content) l =
    done (jump (reply (codes "HTTP/1.1 409 Conflict\r\n\r\n") (record l { file_open = true })))
post_opened w body path missing l = post_new w body path l
post_opened w body path refused l = post_new w body path l

unfoldable pub post_file : World → Option Bstring → Chars → Local → Exec Local
unfolding name_file post_opened
post_file w body name l = do n ← name_file name l; post_opened w body n.1 (w.opening n.1) n.0

-- The branches of the answer, by the method and the path
pub data Route : Type 0 where
  root agent no_route : Route
  echo get_named post_named : Chars → Route

unfoldable pub is_get : Method → Bool
is_get get = true
is_get _ = false

unfoldable pub is_post : Method → Bool
is_post post = true
is_post _ = false

unfoldable pub route : Method → Chars → Route
unfolding is_get is_post
route m path =
    if same path (codes "/")
    then root
    else if same path (codes "/user-agent")
    then agent
    else if same_upto 6 path (codes "/echo/")
    then echo (drop 6 path)
    else if is_get m && same_upto 7 path (codes "/files/")
    then get_named (drop 7 path)
    else if is_post m && same_upto 7 path (codes "/files/")
    then post_named (drop 7 path)
    else no_route

unfoldable pub answer : World → Request → Option Bstring → Route → Local → Exec Local
unfolding reply_text user_agent get_file post_file
answer w r body root l = done (reply (codes "HTTP/1.1 200 OK\r\n\r\n") l)
answer w r body agent l = user_agent r (lookup w.get_header r.lines (codes "user-agent")) l
answer w r body (echo s) l = reply_text s l
answer w r body (get_named name) l = get_file w name l
answer w r body (post_named name) l = post_file w body name l
answer w r body no_route l = done (reply (codes "HTTP/1.1 404 Not Found\r\n\r\n") l)

unfoldable pub respond : World → Request → Option Bstring → Local → Exec Local
unfolding route answer
respond w r body l = do path ← string_at r.lines.buf r.path; answer w r body (route r.method path) l
