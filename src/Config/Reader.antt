-- ===== src/Config/Reader.antt =====
-- The ini reader (`_ini_read` of lib/tconfig.c) as a machine that takes one character at a time. The
-- inner loop of a comment is a state of its own. The buffer is an array of bytes, a pointer into it
-- an index. The counters are unbounded here; on inputs below 2^31 bytes they do not wrap.
pub mod Buffer
pub mod Line
pub mod Rounds
pub mod LastLine
pub mod Overflow
pub mod Comment
pub mod Sound
pub mod Terminated
pub mod Within
pub mod LineEnd
pub mod Safe
mod Tests
use wrensong_http_server.Prelude.{
  ℕ, zero, suc, ◌+◌, ◌-◌, Bool, true, false, not, ◌&&◌, ◌||◌, List, [], ◌∷◌, ◌++◌, length, take,
  replicate, ltb, ◌==◌, if◌then◌else◌, Option, none, some,
}
use wrensong_http_server.Cstring.{Chars, text_of, text_from, byte_at}
use wrensong_http_server.Exec.{Exec, done, quit, fault, ◌>>=◌, write_at}
use wrensong_http_server.Config.Problem.{
  Problem, missing_bracket, missing_equals, read_error, open_error, Policy, raise,
}
use wrensong_http_server.Config.Table.{Entry, Section, Table, add_entry, add_section, at, put_back}
use wrensong_http_server.Config.Sink.{
  Callbacks, Call, set_called, create_called, Sink, report, open_section, entry_in_table,
  store_entry, file_entry,
}

pub data Mode : Type 0 where
  section key value comment : Mode

pub record Reader : Type 0 where
  pub mode : Mode
  -- Inside the loop that reads a comment to the end of its line.
  pub in_comment : Bool
  pub buf : List ℕ
  pub position : ℕ
  pub value_at : Option ℕ
  pub spaces : ℕ
  pub line : ℕ
  pub sink : Sink

unfoldable pub text_at : List ℕ → Option ℕ → Exec Chars
unfolding text_from
text_at b none = fault
text_at b (some i) = text_from b i

-- The byte that `case ' '` looks at: the first of the value, or of the line.
unfoldable pub first_byte : Mode → Reader → Exec ℕ
unfolding byte_at
first_byte value r = elim r.value_at [ none ↦ fault | some i ↦ byte_at r.buf i ]
first_byte _ r = byte_at r.buf 0

-- `buf[position++] = c`
unfoldable pub put : ℕ → Reader → Exec Reader
put c r = do b ← write_at r.buf r.position c; done (record r { buf = b; position = r.position + 1 })

-- The loop that writes the spaces held back.
unfoldable pub put_spaces : ℕ → Reader → Exec Reader
unfolding put
put_spaces zero r = done r
put_spaces (suc n) r = do r' ← put b' ' r; put_spaces n r'

-- The buffer grows where two bytes are not left.
unfoldable pub grow : Reader → Reader
grow r =
    if ltb (length r.buf - 2) r.position
    then record r { buf = take r.position r.buf ++ replicate (length r.buf + 128 - r.position) 0 }
    else r

-- The buffer cleared, at the start of a key.
unfoldable pub fresh_line : Reader → Reader
fresh_line r = record r { buf = replicate (length r.buf) 0; mode = key; position = 0; spaces = 0 }

-- `case ' '`
unfoldable pub on_space : Reader → Exec Reader
unfolding first_byte
on_space r = do
  c ← first_byte r.mode r
  done (if c == 0 then r else record r { spaces = r.spaces + 1 })

-- `case ';'` and `case '#'`, up to the loop
unfoldable pub on_comment : ℕ → Mode → Reader → Exec Reader
on_comment c value r = put c r
on_comment c _ r = put c (record r { mode = comment; in_comment = true })

-- What the end of a line does in each state, before the line is cleared.
unfoldable pub end_line : Policy → Mode → Reader → Exec Reader
unfolding text_at text_from
end_line e value r = do
  k ← text_from r.buf 0
  v ← text_at r.buf r.value_at
  sink ← file_entry (record { key = k; value = v }) r.sink
  done (record r { sink = sink; value_at = none })
end_line e comment r = do
  k ← text_from r.buf 0
  sink ← file_entry (record { key = k; value = [] }) r.sink
  done (record r { sink = sink })
end_line e section r = do
  name ← text_from r.buf 0
  sink ← report e (missing_bracket name) r.sink
  done (record r { sink = sink })
end_line e key r = if r.position == 0 then done r else (do
  k ← text_from r.buf 0
  sink ← report e (missing_equals k) r.sink
  done (record r { sink = sink }))

-- `case '\n'`
unfoldable pub on_newline : Policy → Reader → Exec Reader
unfolding end_line fresh_line
on_newline e r = do r' ← end_line e r.mode (record r { line = r.line + 1 }); done (fresh_line r')

-- `case ']'`
unfoldable pub on_close : Reader → Exec Reader
unfolding text_from fresh_line
on_close r = do
  name ← text_from r.buf 0
  sink ← open_section name r.sink
  done (fresh_line (record r { sink = sink }))

-- `default`
unfoldable pub on_other : ℕ → Reader → Exec Reader
unfolding put_spaces put
on_other c r = do r' ← put_spaces r.spaces r; put c (record r' { spaces = 0 })

-- `case '='` and `case ':'`
unfoldable pub on_equals : ℕ → Mode → Reader → Exec Reader
unfolding on_other put
on_equals c key r = do
  r' ← put 0 (record r { mode = value })
  done (record r' { value_at = some r'.position; spaces = 0 })
on_equals c _ r = on_other c r

-- The switch.
unfoldable pub switch : Policy → ℕ → Reader → Exec Reader
unfolding on_space on_comment on_newline on_close on_equals on_other
switch e c r =
    if c == b' '
    then on_space r
    else if c == b';' || c == b'#'
    then on_comment c r.mode r
    else if c == b'\r'
    then done r
    else if c == b'\n'
    then on_newline e r
    else if c == b'['
    then done (record r { mode = section })
    else if c == b']'
    then on_close r
    else if c == b'=' || c == b':'
    then on_equals c r.mode r
    else on_other c r

-- One round of the comment's inner loop, which takes the end of the line too.
unfoldable pub comment_byte : ℕ → Reader → Exec Reader
unfolding put
comment_byte c r = if c == b'\n' then done (record r { in_comment = false }) else put c r

unfoldable pub take_char : Policy → ℕ → Reader → Exec Reader
unfolding switch grow comment_byte
take_char e c r = if r.in_comment then comment_byte c r else switch e c (grow r)

unfoldable pub run : Policy → Reader → List ℕ → Exec Reader
unfolding take_char
run e r [] = done r
run e r (c ∷ cs) = do r' ← take_char e c r; run e r' cs

abbrev pub start : Sink → Reader
start k = record {
  mode = section;
  in_comment = false;
  buf = replicate 128 0;
  position = 0;
  value_at = none;
  spaces = 0;
  line = 0;
  sink = k;
}

-- What follows the loop
abbrev finish : Policy → Bool → Reader → Exec (Bool × Sink)
finish e failed r = do
  k ← (if failed then report e read_error r.sink else done r.sink)
  done (true, k)

-- `_ini_read`: the characters up to the end of the file, and what `in->error` says behind them.
unfoldable pub read : Policy → List ℕ → Bool → Sink → Exec (Bool × Sink)
unfolding run report
read e input failed k = do r ← run e (start k) input; finish e failed r

abbrev pub into_table : Table → Sink
into_table t = record {
  callbacks = none;
  table = some t;
  current = none;
  calls = [];
  problems = [];
}

abbrev pub into_callbacks : Callbacks → Sink
into_callbacks c = record {
  callbacks = some c;
  table = none;
  current = none;
  calls = [];
  problems = [];
}

-- `ini_table_read` and `ini_read`
unfoldable pub table_read : Policy → List ℕ → Bool → Table → Exec (Bool × Sink)
unfolding read
table_read e input failed t = read e input failed (into_table t)

unfoldable pub callback_read : Policy → List ℕ → Bool → Callbacks → Exec (Bool × Sink)
unfolding read
callback_read e input failed c = read e input failed (into_callbacks c)

-- `ini_table_read_from_file` and `ini_read_file`: a file that does not open is `none`.
unfoldable pub table_read_from_file : Policy → Option (List ℕ × Bool) → Table → Exec (Bool × Sink)
unfolding table_read report
table_read_from_file e (some (input, failed)) t = table_read e input failed t
table_read_from_file e none t = do k ← report e open_error (into_table t); done (false, k)

unfoldable pub callback_read_from_file :
    Policy → Option (List ℕ × Bool) → Callbacks → Exec (Bool × Sink)
unfolding callback_read report
callback_read_from_file e (some (input, failed)) c = callback_read e input failed c
callback_read_from_file e none c = do k ← report e open_error (into_callbacks c); done (false, k)
