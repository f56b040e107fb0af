-- ===== src/Config/RoundTrip/Place.antt =====
-- Where the reader stands in the table that it fills.
use wrensong_http_server.Prelude.{
  ℕ, ◌≡◌, refl, ap, ◌∙◌, List, [], ◌∷◌, ◌++◌, length, map, none, some, arith, All-set, All-get,
  get_elem?, get_elem?-append_end, set-append_end, length-set,
}
use mathlib.Core.List.{map-append}
use wrensong_http_server.Cstring.{Chars}
use wrensong_http_server.Exec.{done}
use wrensong_http_server.Config.Table.{Entry, Section, Table, add_entry, new_section, at, put_back}
use wrensong_http_server.Config.Table.Create.{IsValid, SectionFits, add_section_lem, add_entry_lem}
use wrensong_http_server.Config.Sink.{Sink, open_section, store_entry, file_entry}

-- What a table says, whatever its arrays are allocated for.
abbrev pub View : Type 0
View = List (Chars × List Entry)

abbrev pub section_view : Section → Chars × List Entry
section_view s = (s.name, s.entries)

-- The sink fills a table that holds these sections.
pub record Stored (k : Sink) (v : View) : Type 0 where
  pub table : Table
  pub no_callbacks : k.callbacks ≡ none
  pub quiet : k.problems ≡ []
  pub in_table : k.table ≡ some table
  pub valid : IsValid table
  pub view : map section_view table.sections ≡ v

-- It stands in the last of them.
pub record Standing (k : Sink) (front : View) (name : Chars) (es : List Entry) : Type 0 where
  pub before : List Section
  pub here : Section
  pub table : Table
  pub no_callbacks : k.callbacks ≡ none
  pub quiet : k.problems ≡ []
  pub in_table : k.table ≡ some table
  pub valid : IsValid table
  pub sections : table.sections ≡ before ++ (here ∷ [])
  pub current : k.current ≡ some (length before)
  pub before_view : map section_view before ≡ front
  pub here_name : here.name ≡ name
  pub here_entries : here.entries ≡ es

pub Standing-Stored :
    {k : Sink} {front : View} {name : Chars} {es : List Entry}
    → Standing k front name es
    → Stored k (front ++ ((name, es) ∷ []))
Standing-Stored s = record {
  table = s.table;
  no_callbacks = s.no_callbacks;
  quiet = s.quiet;
  in_table = s.in_table;
  valid = s.valid;
  view = rw (s.sections, map-append) (cc (s.before_view, s.here_name, s.here_entries));
}

-- `_ini_section_create` moves it to a new section behind them.
pub opened :
    {k : Sink} {v : View} (name : Chars)
    → Stored k v
    → (k' : Sink) × (open_section name k ≡ done k') × Standing k' v name []
unfolding open_section
opened {k} name s =
    let (t', added, valid', sections') = add_section_lem s.table name s.valid in
    (
      record k { table = some t'; current = some (length s.table.sections) },
      simp (s.no_callbacks, s.in_table, added),
      record {
        before = s.table.sections;
        here = new_section name;
        table = t';
        no_callbacks = s.no_callbacks;
        quiet = s.quiet;
        in_table = refl;
        valid = valid';
        sections = sections';
        current = refl;
        before_view = s.view;
        here_name = refl;
        here_entries = refl;
      },
    )

filed_at :
    (k : Sink) (e : Entry) (t : Table) (i : ℕ) (s s' : Section)
    → k.callbacks ≡ none
    → k.table ≡ some t
    → k.current ≡ some i
    → get_elem? t.sections i ≡ some s
    → add_entry s e ≡ done s'
    → file_entry e k ≡ done (record k { table = some (put_back t i s') })
unfolding file_entry store_entry at
filed_at k e t i s s' a b c d f = ground arith

-- `_ini_entry_create` puts the entry at the end of that section.
pub filed :
    {k : Sink} {front : View} {name : Chars} {es : List Entry} (e : Entry)
    → Standing k front name es
    → (k' : Sink) × (file_entry e k ≡ done k') × Standing k' front name (es ++ (e ∷ []))
unfolding file_entry store_entry
filed {k} e s =
    let here_at : get_elem? s.table.sections (length s.before) ≡ some s.here =
      rw s.sections (get_elem?-append_end s.before s.here) in
    let (s', added, fits, named, entries) =
      add_entry_lem s.here e
        (All-get SectionFits s.table.sections (length s.before) s.valid.entries_fit here_at) in
    let t' = put_back s.table (length s.before) s' in
    (
      record k { table = some t' },
      filed_at k e s.table (length s.before) s.here s' s.no_callbacks s.in_table s.current here_at
          added,
      record {
        before = s.before;
        here = s';
        table = t';
        no_callbacks = s.no_callbacks;
        quiet = s.quiet;
        in_table = refl;
        valid = record {
          sections_fit =
              omega (arith, length-set s.table.sections (length s.before) s', s.valid.sections_fit);
          entries_fit =
              All-set SectionFits s.table.sections (length s.before) s' s.valid.entries_fit fits;
        };
        sections = rw s.sections (set-append_end s.before s.here s');
        current = s.current;
        before_view = s.before_view;
        here_name = named ∙ s.here_name;
        here_entries = entries ∙ ap (λ xs. xs ++ (e ∷ [])) s.here_entries;
      },
    )
