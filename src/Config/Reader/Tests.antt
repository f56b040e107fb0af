-- ===== src/Config/Reader/Tests.antt =====
-- Runs of the reader on small files.
use wrensong_http_server.Prelude.{
  ℕ, zero, suc, ◌≡◌, refl, Bool, true, false, List, [], ◌∷◌, ◌++◌, replicate, none, some, arith,
  inr,
}
use wrensong_http_server.Cstring.{Chars, codes}
use wrensong_http_server.Exec.{Exec, done, fault, ◌>>=◌, write_at, Safely}
use wrensong_http_server.Config.Table.{Entry, Section, empty_table, add_entry, add_section, at}
use wrensong_http_server.Config.Problem.{Policy}
use wrensong_http_server.Config.Sink.{Sink, file_entry, store_entry, open_section}
use wrensong_http_server.Config.Reader.{read, into_table, table_read}
use wrensong_http_server.Config.Reader.Sound.{Sound}
use wrensong_http_server.Config.Reader.Safe.{read-Safely}
use wrensong_http_server.Config.Reader.LastLine.{last_line_lost}
use wrensong_http_server.Config.Reader.Comment.{comment_joins}
use wrensong_http_server.Config.Reader.Overflow.{InLine, comment_overflows}

abbrev tolerant : Policy
tolerant = record { has_handler = true; exit_on_error = true }

abbrev tables : Exec (Bool × Sink) → Exec (List Section)
tables m = m >>= λ r. elim r.1.table [ none ↦ fault | some t ↦ done t.sections ]

abbrev entry : Chars → Chars → Entry
entry k v = record { key = k; value = v }

plain :
    tables (
      table_read tolerant
        (codes "[server]\nport = 80\nthreads=16\n[a]\n\nx = a b\n")
        false
        empty_table)
    ≡ done (
        record {
          name = codes "server";
          entries = entry (codes "port") (codes "80") ∷ entry (codes "threads") (codes "16") ∷ [];
          room = 10;
        }
        ∷ record { name = codes "a"; entries = entry (codes "x") (codes "a b") ∷ []; room = 10 }
        ∷ [])
unfolding table_read add_entry add_section at file_entry store_entry open_section write_at
plain = refl

comment_swallows :
    tables (table_read tolerant (codes "[s]\n; note\nport = 80\n") false empty_table)
    ≡ done (
        record { name = codes "s"; entries = entry (codes "; noteport = 80") [] ∷ []; room = 10 }
        ∷ [])
unfolding table_read add_entry add_section at file_entry store_entry open_section write_at
comment_swallows = refl

InLine-replicate : (n : ℕ) → InLine (replicate n b'x')
InLine-replicate zero = tt
InLine-replicate (suc n) = ((λ e. ground arith), InLine-replicate n)

comment_overflows_example :
    table_read tolerant (b';' ∷ (replicate 200 b'x' ++ (b'\n' ∷ []))) false empty_table ≡ fault
comment_overflows_example =
    comment_overflows tolerant (replicate 200 b'x') (b'\n' ∷ []) false empty_table
      (InLine-replicate 200) (ground arith)

abbrev one_entry : Sink
one_entry = record {
  callbacks = none;
  table = some (record {
    sections =
        record { name = codes "s"; entries = entry (codes "port") (codes "80") ∷ []; room = 10 }
        ∷ [];
    room = 10;
  });
  current = some 0;
  calls = [];
  problems = [];
}

last_line_lost_example :
    table_read tolerant (codes "[s]\nport = 80\n") false empty_table ≡ done (true, one_entry)
unfolding table_read add_entry add_section at file_entry store_entry open_section write_at
last_line_lost_example =
    last_line_lost tolerant (codes "[s]\nport = 80\n") (codes "x = 1") empty_table {b = true}
      {k = one_entry} (ground arith) refl

-- A file with no closed section, a key without a value, and a comment
read-Safely_example :
    Safely false
      (λ (o : Bool × Sink). (o.0 ≡ true) × Sound o.1)
      (read tolerant (codes "[a\nx y\n]; z\n=[\n:") true (into_table empty_table))
read-Safely_example =
    read-Safely tolerant (codes "[a\nx y\n]; z\n=[\n:") true (into_table empty_table) (ground arith)
      (inr (record {
        table = empty_table;
        no_callbacks = refl;
        table_is = refl;
        valid = record { sections_fit = ground arith; entries_fit = tt };
        inside = tt;
      }))

comment_joins_example :
    table_read tolerant
      (b';' ∷ (codes " note" ++ (b'\n' ∷ (codes "port=80" ++ (b'\n' ∷ [])))))
      false
      empty_table
    ≡ done (
      true,
      record (into_table (record {
        sections =
            record { name = []; entries = entry (codes "; noteport=80") [] ∷ []; room = 10 } ∷ [];
        room = 10;
      })) { current = some 0 },
    )
comment_joins_example =
    comment_joins tolerant (codes " note") (codes "port=80") (ground arith) (ground arith)
      (ground arith) (ground arith)
