-- ===== src/Config/Sink.antt =====
-- What `_ini_read` of lib/tconfig.c writes to: a table or callbacks, and the error reports.
use wrensong_http_server.Prelude.{
  ℕ, Bool, false, List, [], ◌∷◌, ◌++◌, length, if◌then◌else◌, Option, none, some,
}
use wrensong_http_server.Cstring.{Chars}
use wrensong_http_server.Exec.{Exec, done, fault, ◌>>=◌}
use wrensong_http_server.Config.Problem.{Problem, Policy, raise}
use wrensong_http_server.Config.Table.{Entry, Table, add_entry, add_section, at, put_back}

-- Which members of `ini_callback_s` are set.
pub record Callbacks : Type 0 where
  pub has_set : Bool
  pub has_create : Bool

-- A call of a callback, with what it is told.
pub data Call : Type 0 where
  set_called : Chars → Chars → Call
  create_called : Chars → Call

-- What the reader writes to: the arguments `call` and `table`, where `none` is a null pointer, the
-- section that `current_section` points to, the calls made and the problems reported.
pub record Sink : Type 0 where
  pub callbacks : Option Callbacks
  pub table : Option Table
  pub current : Option ℕ
  pub calls : List Call
  pub problems : List Problem

-- `_ini_error`
unfoldable pub report : Policy → Problem → Sink → Exec Sink
unfolding raise
report e p k = do ps ← raise e p k.problems; done (record k { problems = ps })

calls_create : Option Callbacks → Bool
calls_create none = false
calls_create (some c) = c.has_create

calls_set : Option Callbacks → Bool
calls_set none = false
calls_set (some c) = c.has_set

-- `current_section = _ini_section_create(call, table, name)`: a callback gives a null section.
unfoldable pub open_section : Chars → Sink → Exec Sink
unfolding calls_create
open_section name k =
    if calls_create k.callbacks
    then done (record k { current = none; calls = k.calls ++ (create_called name ∷ []) })
    else elim k.table [
      | none ↦ fault
      | some t ↦ do
        t' ← add_section t name
        done (record k { table = some t'; current = some (length t.sections) })
    ]

unfoldable pub entry_in_table : Option Table → Option ℕ → Entry → Exec Table
unfolding at
entry_in_table none i e = fault
entry_in_table (some t) none e = fault
entry_in_table (some t) (some i) e = do s ← at t i; s' ← add_entry s e; done (put_back t i s')

-- `_ini_entry_create(call, current_section, key, value)`
unfoldable pub store_entry : Entry → Sink → Exec Sink
unfolding calls_set entry_in_table
store_entry e k =
    if calls_set k.callbacks
    then done (record k { calls = k.calls ++ (set_called e.key e.value ∷ []) })
    else do t ← entry_in_table k.table k.current e; done (record k { table = some t })

-- An entry outside of every section goes to a section with no name.
unfoldable pub file_entry : Entry → Sink → Exec Sink
unfolding store_entry open_section
file_entry e k = elim k.current [
  | none ↦ do k' ← open_section [] k; store_entry e k'
  | some i ↦ store_entry e k
]
