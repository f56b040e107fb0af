-- ===== src/Config/Interface.antt =====
-- lib/tconfig.h: the operations that the ini library declares, and what their comments promise. A
-- client takes them as a section parameter; the theorems about lib/tconfig.c fill them.
pub mod Filled
pub mod Client
pub mod Stored
mod Tests
use wrensong_http_server.Prelude.{
  ℕ, ◌≡◌, refl, sym, ap, ◌∙◌, Bool, true, false, ◌&&◌, List, [], ◌∷◌, Option, none, some,
  if◌then◌else◌, arith,
}
use wrensong_http_server.Prelude.Int.{ℤ}
use wrensong_http_server.Cstring.{Chars, same, same_iff, atoi, codes}
use wrensong_http_server.Exec.{Exec, done, quit, fault, ◌>>=◌}
use wrensong_http_server.Config.Problem.{Policy, set_error_handler, set_error_exit, raise}
use wrensong_http_server.Config.Table.{
  Table, empty_table, TableBlock, destroy, create_entry, check_entry, get_entry, get_entry_as_int,
  get_entry_as_double, get_entry_as_bool,
}
use wrensong_http_server.Config.Table.Create.{IsValid, create_entry-Created}
use wrensong_http_server.Config.Sink.{Sink, Callbacks}
use wrensong_http_server.Config.Reader.{
  table_read, callback_read, table_read_from_file, callback_read_from_file,
}
use wrensong_http_server.Config.Writer.{Out, table_write, table_write_to_file}

-- Errors that are reported, and do not end the program
abbrev pub IsTolerant : Policy → Type 0
IsTolerant e = e.has_handler ≡ true

pub record Interface : Type 1 where
  pub T : Type 0
  -- A table that the operations made
  pub Made : T → Type 0
  pub on_error : Bool → Policy → Policy
  pub exit_on_error : Bool → Policy → Policy
  pub create : T
  pub free_blocks : T → List TableBlock
  pub read_from_file : Policy → Option (List ℕ × Bool) → T → Exec (Bool × Option T)
  pub read_input : Policy → List ℕ → Bool → T → Exec (Bool × Option T)
  pub call_back : Policy → List ℕ → Bool → Callbacks → Exec (Bool × Sink)
  pub call_back_file : Policy → Option (List ℕ × Bool) → Callbacks → Exec (Bool × Sink)
  pub write_to_file : Policy → T → Bool → Out → Exec (Bool × Out)
  pub write_output : Policy → T → Out → Exec (Bool × Out)
  pub add : T → Chars → Chars → Chars → Exec T
  pub check : T → Chars → Chars → Bool
  pub value_of : T → Chars → Chars → Option Chars
  pub int_of : T → Chars → Chars → ℤ → Exec (Bool × ℤ)
  pub double_of : {D : Type 0} → (Chars → D) → T → Chars → Chars → D → Bool × D
  pub bool_of : T → Chars → Chars → Bool → Bool × Bool
  -- "Sets an error handler function to be called on errors."
  pub on_error_tolerates : (e : Policy) → IsTolerant (on_error true e)
  -- "Creates an empty ini_table_s struct for writing new entries to."
  pub create_made : Made create
  pub create_empty : (name key : Chars) → value_of create name key ≡ none
  -- A file that can not be read gives no success, and leaves the table.
  pub unread : (e : Policy) (t : T) → IsTolerant e → read_from_file e none t ≡ done (false, some t)
  -- "Returns false if the file could not be opened for writing"
  pub unwritten :
      (e : Policy) (t : T) (o : Out)
      → IsTolerant e
      → (o' : Out) × (write_to_file e t false o ≡ done (false, o')) × (o'.text ≡ o.text)
  -- "Creates a new entry in the `table' containing the `key' and `value' provided if it does not
  -- exist.  Otherwise, modifies an exsiting `key' with the new `value'"
  pub added :
      (t : T) (name key value : Chars)
      → Made t
      → (t' : T) × (add t name key value ≡ done t')
        × Made t'
        × ((n k : Chars)
            → value_of t' n k ≡ (if same name n && same key k then some value else value_of t n k))
  -- "Returns false if the entry does not exist, otherwise true."
  pub checked :
      (t : T) (name key : Chars) {v : Chars}
      → value_of t name key ≡ some v
      → check t name key ≡ true
  pub unchecked : (t : T) (name key : Chars) → value_of t name key ≡ none → check t name key ≡ false
  -- "converted to int.  Returns false on failure, otherwise true", and likewise
  pub int_read :
      (t : T) (name key : Chars) (old : ℤ) {v : Chars} {n : ℤ}
      → value_of t name key ≡ some v
      → atoi v ≡ done n
      → int_of t name key old ≡ done (true, n)
  pub int_failed :
      (t : T) (name key : Chars) (old : ℤ)
      → value_of t name key ≡ none
      → int_of t name key old ≡ done (false, old)
  pub double_read :
      {D : Type 0} (atof : Chars → D) (t : T) (name key : Chars) (old : D) {v : Chars}
      → value_of t name key ≡ some v
      → double_of atof t name key old ≡ (true, atof v)
  pub double_failed :
      {D : Type 0} (atof : Chars → D) (t : T) (name key : Chars) (old : D)
      → value_of t name key ≡ none
      → double_of atof t name key old ≡ (false, old)
  pub bool_read :
      (t : T) (name key : Chars) (old : Bool) {v : Chars}
      → value_of t name key ≡ some v
      → (bool_of t name key old).0 ≡ true
  pub bool_failed :
      (t : T) (name key : Chars) (old : Bool)
      → value_of t name key ≡ none
      → bool_of t name key old ≡ (false, old)
