-- ===== src/Config/Writer.antt =====
-- The ini writer (`ini_table_write` and `ini_table_write_to_file` of lib/tconfig.c). The output is a
-- parameter of the program: here the text accepted so far, and whether each later call of `vprintf`
-- succeeds (with no answer left it does).
use wrensong_http_server.Prelude.{
  Bool, true, false, List, [], ◌∷◌, ◌++◌, ◌==◌, if◌then◌else◌, ◌≡◌, append_assoc, append-nil, ap,
  ◌∙◌,
}
use wrensong_http_server.Cstring.{Chars, codes}
use wrensong_http_server.Exec.{Exec, done, ◌>>=◌}
use wrensong_http_server.Config.Problem.{Problem, open_error, write_error, Policy, raise}
use wrensong_http_server.Config.Table.{Entry, Section, Table}

pub record Out : Type 0 where
  pub text : Chars
  pub answers : List Bool
  pub problems : List Problem

refuse : Policy → Out → Exec Out
unfolding raise
refuse e o = do ps ← raise e write_error o.problems; done (record o { problems = ps })

accept : Chars → Out → Out
accept piece o = record o { text = o.text ++ piece }

answered : Policy → Chars → List Bool → Out → Exec Out
unfolding refuse accept
answered e piece [] o = done (accept piece o)
answered e piece (true ∷ bs) o = done (accept piece (record o { answers = bs }))
answered e piece (false ∷ bs) o = refuse e (record o { answers = bs })

-- `_ini_write`, of a piece already formatted
unfoldable pub write : Policy → Chars → Out → Exec Out
unfolding answered
write e piece o = answered e piece o.answers o

-- `entry->key[0] == ';'`
abbrev pub is_note : Chars → Bool
is_note [] = false
is_note (c ∷ s) = c == b';'

abbrev pub entry_text : Entry → Chars
entry_text e =
    if is_note e.key then e.key ++ codes "\n" else e.key ++ (codes " = " ++ (e.value ++ codes "\n"))

abbrev pub header_text : Bool → Chars → Chars
header_text first name = (if first then codes "[" else codes "\n[") ++ (name ++ codes "]\n")

unfoldable pub write_entries : Policy → List Entry → Out → Exec Out
unfolding write
write_entries e [] o = done o
write_entries e (x ∷ xs) o = do o' ← write e (entry_text x) o; write_entries e xs o'

-- The flag is `i == 0`.
unfoldable pub write_sections : Policy → Bool → List Section → Out → Exec Out
unfolding write write_entries
write_sections e first [] o = done o
write_sections e first (s ∷ ss) o = do
  o1 ← write e (header_text first s.name) o
  o2 ← write_entries e s.entries o1
  write_sections e false ss o2

-- `ini_table_write`
unfoldable pub table_write : Policy → Table → Out → Exec (Bool × Out)
unfolding write_sections
table_write e t o = do o' ← write_sections e true t.sections o; done (true, o')

-- `ini_table_write_to_file`, told whether the file opens
unfoldable pub table_write_to_file : Policy → Table → Bool → Out → Exec (Bool × Out)
unfolding write_sections raise
table_write_to_file e t false o = do
  ps ← raise e open_error o.problems
  done (false, record o { problems = ps })
table_write_to_file e t true o = do o' ← write_sections e true t.sections o; done (true, o')

-- The whole text of a table.
abbrev pub entries_text : List Entry → Chars
entries_text [] = []
entries_text (x ∷ xs) = entry_text x ++ entries_text xs

abbrev pub sections_text : Bool → List Section → Chars
sections_text first [] = []
sections_text first (s ∷ ss) =
    header_text first s.name ++ (entries_text s.entries ++ sections_text false ss)

abbrev pub all_accepted : Chars → Out
all_accepted text = record { text = text; answers = []; problems = [] }

write_entries-text :
    (e : Policy) (xs : List Entry) (text : Chars)
    → write_entries e xs (all_accepted text) ≡ done (all_accepted (text ++ entries_text xs))
unfolding write_entries
write_entries-text e [] text = rw append-nil
write_entries-text e (x ∷ xs) text =
    write_entries-text e xs (text ++ entry_text x)
    ∙ ap (λ t. done (all_accepted t)) (append_assoc text (entry_text x) (entries_text xs))

write_sections-text :
    (e : Policy) (first : Bool) (ss : List Section) (text : Chars)
    → write_sections e first ss (all_accepted text)
      ≡ done (all_accepted (text ++ sections_text first ss))
unfolding write_sections
write_sections-text e first [] text = rw append-nil
write_sections-text e first (s ∷ ss) text =
    rw (write_entries-text e s.entries (text ++ header_text first s.name)) (
      write_sections-text e false ss ((text ++ header_text first s.name) ++ entries_text s.entries)
      ∙ ap (λ t. done (all_accepted t))
          (append_assoc (text ++ header_text first s.name) (entries_text s.entries)
              (sections_text false ss)
            ∙ append_assoc text (header_text first s.name)
                (entries_text s.entries ++ sections_text false ss)))

-- Where every call of `vprintf` succeeds, the text of the table is written.
pub table_write-text :
    (e : Policy) (t : Table)
    → table_write e t (all_accepted []) ≡ done (true, all_accepted (sections_text true t.sections))
unfolding table_write
table_write-text e t = rw (write_sections-text e true t.sections [])
