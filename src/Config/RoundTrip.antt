-- ===== src/Config/RoundTrip.antt =====
-- The reader over the writer's output gives the table back.
pub mod Place
mod Tests
use wrensong_http_server.Prelude.{
  ℕ, zero, suc, ◌+◌, ◌≤◌, ◌<◌, ◌≡◌, ◌≢◌, refl, ap, sym, ◌∙◌, Bool, true, false, ◌&&◌, ◌||◌, not,
  List, [], ◌∷◌, ◌++◌, length, set, map, Option, none, some, arith, length-append, append_assoc,
  append-nil, All, ltb, ◌==◌, if◌then◌else◌,
}
use mathlib.Core.Path.{subst}
use wrensong_http_server.Cstring.{Chars, NonZero, codes}
use wrensong_http_server.Exec.{Exec, done, ◌>>=◌}
use wrensong_http_server.Config.Problem.{Policy}
use wrensong_http_server.Config.Table.{Entry, Section, Table, empty_table}
use wrensong_http_server.Config.Table.Create.{IsValid}
use wrensong_http_server.Config.Sink.{Sink}
use wrensong_http_server.Config.Reader.{
  Mode, section, key, value, comment, Reader, start, run, read, table_read, into_table,
}
use wrensong_http_server.Config.Reader.Buffer.{
  line_so_far, After, IsPlain, is_plain, run_word, IsPlain-NonZero,
}
use wrensong_http_server.Config.Reader.Rounds.{
  After-append, open_bracket, close_bracket, empty_line,
}
use wrensong_http_server.Config.Reader.Line.{with_value, equals_sign, space_before, end_value}
use wrensong_http_server.Config.Writer.{
  Out, is_note, entry_text, header_text, entries_text, sections_text, table_write, all_accepted,
  table_write-text,
}
use Place.{View, section_view, Stored, Standing, Standing-Stored, opened, filed}

-- No character in these has a meaning for the reader.
abbrev pub EntryIsPlain : Entry → Type 0
EntryIsPlain e = IsPlain key e.key × IsPlain value e.value

abbrev pub SectionIsPlain : Section → Type 0
SectionIsPlain s = IsPlain section s.name × All EntryIsPlain s.entries

not-is_note : (k : Chars) → IsPlain key k → is_note k ≡ false
not-is_note [] h = refl
not-is_note (c ∷ k) h = ground arith

-- The reader goes over `w` from the start of a line to the start of a line, where its sink is `P`.
record Fills (e : Policy) (from : Reader) (w : Chars) (P : Sink → Type 0) : Type 0 where
  to : Reader
  after : After e key [] to from w
  holds : P to.sink

joined :
    {e : Policy} {m m' : Mode} {xs ys : Chars} {r r' from : Reader} {v w : Chars}
    → (a : After e m xs r from v) → After e m' ys r' (line_so_far m xs a.left r) w
    → After e m' ys r' from (v ++ w)
joined a b = After-append _ _ _ _ _ _ _ _ _ _ a b

entry_line :
    (e : Policy) (x : Entry) (n : ℕ) (r : Reader) {front : View} {name : Chars} {es : List Entry}
    → EntryIsPlain x
    → 2 ≤ n
    → Standing r.sink front name es
    → Fills e (line_so_far key [] n r) (entry_text x) (λ k. Standing k front name (es ++ (x ∷ [])))
entry_line e x n r plain two s =
    let (k', done_filing, standing) = filed x s in
    let a1 = run_word e key x.key [] n r plain.0 (omega arith) in
    let a2 = equals_sign e x.key a1.left r a1.enough in
    let a3 = space_before e x.key a2.left r a2.enough in
    let a4 =
      run_word e value x.value (x.key ++ (0 ∷ [])) a3.left (with_value x.key r) plain.1 a3.enough in
    let a5 =
      end_value e x.key x.value a4.left r k' (IsPlain-NonZero key x.key plain.0)
        (IsPlain-NonZero value x.value plain.1) a4.enough done_filing in
    record {
      to = record r { value_at = none; line = r.line + 1; sink = k' };
      after = rw (not-is_note x.key plain.0) (joined a1 (joined a2 (joined a3 (joined a4 a5))));
      holds = standing;
    }

entry_lines :
    (e : Policy) (xs : List Entry) (n : ℕ) (r : Reader) {front : View} {name : Chars}
    {es : List Entry}
    → All EntryIsPlain xs
    → 2 ≤ n
    → Standing r.sink front name es
    → Fills e (line_so_far key [] n r) (entries_text xs) (λ k. Standing k front name (es ++ xs))
entry_lines e [] n r {front} {name} plain two s = record {
  to = r;
  after = record { left = n; enough = omega arith; runs = λ rest. refl };
  holds = rw append-nil s;
}
entry_lines e (x ∷ xs) n r {front} {name} {es} plain two s =
    let f = entry_line e x n r plain.0 two s in
    let g = entry_lines e xs f.after.left f.to plain.1 (omega (arith, f.after.enough)) f.holds in
    record { to = g.to; after = joined f.after g.after; holds = rw append_assoc at g.holds }

bracketed :
    (e : Policy) (m : Mode) (name : Chars) (n : ℕ) (r : Reader) {v : View}
    → IsPlain section name
    → 2 ≤ n
    → Stored r.sink v
    → Fills e (line_so_far m [] n r) (header_text true name) (λ k. Standing k v name [])
bracketed e m name n r plain two s =
    let (k', opening, standing) = opened name s in
    let a1 = open_bracket e m n r two in
    let a2 = run_word e section name [] a1.left r plain a1.enough in
    let a3 =
      close_bracket e name a2.left r k' (IsPlain-NonZero section name plain) a2.enough opening in
    let a4 = empty_line e a3.left (record r { sink = k' }) (omega (arith, a3.enough)) in
    record {
      to = record r { sink = k'; line = r.line + 1 };
      after = joined a1 (joined a2 (joined a3 a4));
      holds = standing;
    }

-- The reader stands at the start of the file, or of a line.
abbrev mode_at : Bool → Mode
mode_at true = section
mode_at false = key

header :
    (e : Policy) (first : Bool) (name : Chars) (n : ℕ) (r : Reader) {v : View}
    → IsPlain section name
    → 2 ≤ n
    → Stored r.sink v
    → Fills e
        (line_so_far (mode_at first) [] n r)
        (header_text first name)
        (λ k. Standing k v name [])
header e true name n r plain two s = bracketed e section name n r plain two s
header e false name n r plain two s =
    let a = empty_line e n r two in
    let f =
      bracketed e key name a.left (record r { line = r.line + 1 }) plain (omega (arith, a.enough))
        s in
    record { to = f.to; after = joined a f.after; holds = f.holds }

section_lines :
    (e : Policy) (first : Bool) (ss : List Section) (n : ℕ) (r : Reader) {v : View}
    → All SectionIsPlain ss
    → 2 ≤ n
    → Stored r.sink v
    → (to : Reader) × (run e (line_so_far (mode_at first) [] n r) (sections_text first ss)
        ≡ done to)
      × Stored to.sink (v ++ map section_view ss)
unfolding run
section_lines e first [] n r plain two s = (_, refl, rw append-nil s)
section_lines e first (x ∷ ss) n r plain two s =
    let f = header e first x.name n r plain.0.0 two s in
    let g =
      entry_lines e x.entries f.after.left f.to plain.0.1 (omega (arith, f.after.enough)) f.holds in
    let (to, ran, stored) =
      section_lines e false ss g.after.left g.to plain.1 (omega (arith, g.after.enough))
        (Standing-Stored g.holds) in
    (to, f.after.runs _ ∙ g.after.runs _ ∙ ran, rw append_assoc at stored)

-- What is written for a table of plain names, keys and values, of any length, where every write
-- succeeds, is read back into an empty table without a problem, to the same sections with the same
-- entries in the same order. Plain: no 0, space, line end or bracket; in names and keys no `;` or `#`,
-- and in keys no `=` or `:`.
pub table_read-table_write :
    (e : Policy) (t : Table)
    → All SectionIsPlain t.sections
    → (o : Out) × (k : Sink) × (t' : Table) × (table_write e t (all_accepted []) ≡ done (true, o))
      × (table_read e o.text false empty_table ≡ done (true, k))
      × (k.table ≡ some t')
      × (map section_view t'.sections ≡ map section_view t.sections)
      × (k.problems ≡ [])
      × IsValid t'
unfolding table_read
table_read-table_write e t plain =
    let (to, ran, stored) =
      section_lines e true t.sections 128 (start (into_table empty_table)) plain (omega arith)
        (record {
          table = empty_table;
          no_callbacks = refl;
          quiet = refl;
          in_table = refl;
          valid = omega arith;
          view = refl;
        }) in
    (
      all_accepted (sections_text true t.sections),
      to.sink,
      stored.table,
      table_write-text e t,
      rw ran,
      stored.in_table,
      stored.view,
      stored.quiet,
      stored.valid,
    )
