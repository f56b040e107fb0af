-- ===== src/Config/Interface/Filled.antt =====
-- The ini library keeps what its header promises.
use wrensong_http_server.Prelude.{
  ◌≡◌, refl, Bool, true, false, [], ◌∷◌, ◌++◌, Option, none, some, arith,
}
use wrensong_http_server.Prelude.Int.{ℤ}
use wrensong_http_server.Cstring.{Chars, atoi}
use wrensong_http_server.Exec.{Exec, done, ◌>>=◌}
use wrensong_http_server.Config.Problem.{
  Policy, open_error, set_error_handler, set_error_exit, raise,
}
use wrensong_http_server.Config.Table.{
  Table, empty_table, destroy, create_entry, find_section, get, check_entry, get_entry,
  get_entry_as_int, get_entry_as_double, get_entry_as_bool,
}
use wrensong_http_server.Config.Table.Create.{IsValid, create_entry-Created}
use wrensong_http_server.Config.Sink.{Sink, report}
use wrensong_http_server.Config.Reader.{
  table_read, callback_read, table_read_from_file, callback_read_from_file,
}
use wrensong_http_server.Config.Writer.{Out, table_write, table_write_to_file}
use wrensong_http_server.Config.Interface.{IsTolerant, Interface}

-- The table that a reader leaves
abbrev with_table : Exec (Bool × Sink) → Exec (Bool × Option Table)
with_table m = m >>= λ r. done (r.0, r.1.table)

pub tolerates : (e : Policy) → IsTolerant (set_error_handler true e)
unfolding set_error_handler
tolerates e = refl

pub empty_lookup : (name key : Chars) → get_entry empty_table name key ≡ none
unfolding get_entry get find_section
empty_lookup name key = refl

pub made : IsValid empty_table
made = record { sections_fit = ground arith; entries_fit = tt }

pub unread_lem :
    (e : Policy) (t : Table)
    → IsTolerant e
    → with_table (table_read_from_file e none t) ≡ done (false, some t)
unfolding table_read_from_file report raise
unread_lem e t h = ground (arith, h)

pub unwritten_lem :
    (e : Policy) (t : Table) (o : Out)
    → IsTolerant e
    → (o' : Out) × (table_write_to_file e t false o ≡ done (false, o')) × (o'.text ≡ o.text)
unfolding table_write_to_file raise
unwritten_lem e t o h =
    (record o { problems = o.problems ++ (open_error ∷ []) }, ground (arith, h), refl)

pub checked_lem :
    (t : Table) (name key : Chars) {v : Chars}
    → get_entry t name key ≡ some v
    → check_entry t name key ≡ true
unfolding check_entry get_entry
checked_lem t name key h = ground arith

pub unchecked_lem :
    (t : Table) (name key : Chars) → get_entry t name key ≡ none → check_entry t name key ≡ false
unfolding check_entry get_entry
unchecked_lem t name key h = ground arith

pub int_read_lem :
    (t : Table) (name key : Chars) (old : ℤ) {v : Chars} {n : ℤ}
    → get_entry t name key ≡ some v
    → atoi v ≡ done n
    → get_entry_as_int t name key old ≡ done (true, n)
unfolding get_entry_as_int
int_read_lem t name key old h k = rw (get_entry_as_int, h, k)

pub int_failed_lem :
    (t : Table) (name key : Chars) (old : ℤ)
    → get_entry t name key ≡ none
    → get_entry_as_int t name key old ≡ done (false, old)
unfolding get_entry_as_int
int_failed_lem t name key old h = rw (get_entry_as_int, h)

pub double_read_lem :
    {D : Type 0} (atof : Chars → D) (t : Table) (name key : Chars) (old : D) {v : Chars}
    → get_entry t name key ≡ some v
    → get_entry_as_double atof t name key old ≡ (true, atof v)
unfolding get_entry_as_double
double_read_lem atof t name key old h = rw (get_entry_as_double, h)

pub double_failed_lem :
    {D : Type 0} (atof : Chars → D) (t : Table) (name key : Chars) (old : D)
    → get_entry t name key ≡ none
    → get_entry_as_double atof t name key old ≡ (false, old)
unfolding get_entry_as_double
double_failed_lem atof t name key old h = rw (get_entry_as_double, h)

pub bool_read_lem :
    (t : Table) (name key : Chars) (old : Bool) {v : Chars}
    → get_entry t name key ≡ some v
    → (get_entry_as_bool t name key old).0 ≡ true
unfolding get_entry_as_bool
bool_read_lem t name key old h = rw (get_entry_as_bool, h)

pub bool_failed_lem :
    (t : Table) (name key : Chars) (old : Bool)
    → get_entry t name key ≡ none
    → get_entry_as_bool t name key old ≡ (false, old)
unfolding get_entry_as_bool
bool_failed_lem t name key old h = rw (get_entry_as_bool, h)

abbrev pub library : Interface
library = record {
  T = Table;
  Made = IsValid;
  on_error = set_error_handler;
  exit_on_error = set_error_exit;
  create = empty_table;
  free_blocks = destroy;
  read_from_file = λ e file t. with_table (table_read_from_file e file t);
  read_input = λ e input failed t. with_table (table_read e input failed t);
  call_back = callback_read;
  call_back_file = callback_read_from_file;
  write_to_file = table_write_to_file;
  write_output = table_write;
  add = create_entry;
  check = check_entry;
  value_of = get_entry;
  int_of = get_entry_as_int;
  double_of = λ {D} atof. get_entry_as_double atof;
  bool_of = get_entry_as_bool;
  on_error_tolerates = tolerates;
  create_made = made;
  create_empty = empty_lookup;
  unread = unread_lem;
  unwritten = unwritten_lem;
  added = λ t name key value h.
      let c = create_entry-Created t name key value h in (c.table, c.created, c.valid, c.lookup);
  checked = checked_lem;
  unchecked = unchecked_lem;
  int_read = int_read_lem;
  int_failed = int_failed_lem;
  double_read = double_read_lem;
  double_failed = double_failed_lem;
  bool_read = bool_read_lem;
  bool_failed = bool_failed_lem;
}
