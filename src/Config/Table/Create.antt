-- ===== src/Config/Table/Create.antt =====
-- `ini_table_create_entry`, and the arrays that it writes to.
use wrensong_http_server.Prelude.{
  ℕ, zero, suc, ◌+◌, ◌%◌, ◌≤◌, ◌<◌, ◌≡◌, refl, ◌∙◌, Bool, true, false, ◌&&◌, List, [], ◌∷◌, ◌++◌,
  length, set, get_elem?, if◌then◌else◌, Option, none, some, arith, Option-cases, length-append,
  length-set, inl, inr, All, All-set, All-append, All-get, get_elem?-append_end, set-append_end,
}
use mathlib.Core.Path.{subst}
use wrensong_http_server.Cstring.{Chars, same, same_iff}
use wrensong_http_server.Exec.{done}
use wrensong_http_server.Config.Table.{
  Entry, Section, Table, grown, add_entry, new_section, add_section, find_section, find_entry,
  get_entry, locate, set_value, put_entry, put_at, create_entry, at,
}
use wrensong_http_server.Config.Table.Find.{
  find_value, find_in, get_entry-find_in, find_section-get, find_in-set, find_in-append,
  find_in-none, find_in-get, find_value-set_value, find_value-append,
}

-- An array of `n` elements is full only where the next element makes it grow.
abbrev pub Fits : ℕ → ℕ → Type 0
Fits n room = (n ≤ room) × (room % 10 ≡ 0)

abbrev pub SectionFits : Section → Type 0
SectionFits s = Fits (length s.entries) s.room

-- Both arrays have the room that the next write counts on.
pub record IsValid (t : Table) : Type 0 where
  pub sections_fit : Fits (length t.sections) t.room
  pub entries_fit : All SectionFits t.sections

length-set_value : (es : List Entry) (j : ℕ) (v : Chars) → length (set_value es j v) ≡ length es
length-set_value [] j v = refl
length-set_value (e ∷ es) zero v = refl
length-set_value (e ∷ es) (suc j) v = omega (arith, length-set_value es j v)

-- A new element always finds room.
grown-Fits : (n room : ℕ) → Fits n room → (n < grown n room) × Fits (n + 1) (grown n room)
grown-Fits n room h = ground arith

-- `_ini_entry_create` writes inside its array.
pub add_entry_lem :
    (s : Section) (e : Entry)
    → SectionFits s
    → (s' : Section) × (add_entry s e ≡ done s')
      × SectionFits s'
      × (s'.name ≡ s.name)
      × (s'.entries ≡ s.entries ++ (e ∷ []))
unfolding add_entry
add_entry_lem s e h = (
  record s { entries = s.entries ++ (e ∷ []); room = grown (length s.entries) s.room },
  ground (arith, grown-Fits (length s.entries) s.room h),
  ground (arith, grown-Fits (length s.entries) s.room h, length-append s.entries (e ∷ [])),
  refl,
  refl,
)

-- `_ini_section_create` writes inside its array.
pub add_section_lem :
    (t : Table) (name : Chars)
    → IsValid t
    → (t' : Table) × (add_section t name ≡ done t')
      × IsValid t'
      × (t'.sections ≡ t.sections ++ (new_section name ∷ []))
unfolding add_section
add_section_lem t name v = (
  record {
    sections = t.sections ++ (new_section name ∷ []);
    room = grown (length t.sections) t.room;
  },
  ground (arith, grown-Fits (length t.sections) t.room v.sections_fit),
  record {
    sections_fit = ground (
      arith,
      grown-Fits (length t.sections) t.room v.sections_fit,
      length-append t.sections (new_section name ∷ []),
    );
    entries_fit = All-append SectionFits t.sections _ v.entries_fit (omega arith);
  },
  refl,
)

put_entry_lem :
    (s : Section) (key value : Chars)
    → SectionFits s
    → (s' : Section) × (put_entry s key value ≡ done s')
      × SectionFits s'
      × (s'.name ≡ s.name)
      × ((k : Chars)
          → find_value s'.entries k ≡ (if same key k then some value else find_value s.entries k))
unfolding put_entry
put_entry_lem s key value h = elim (Option-cases (find_entry s.entries key)) [
  | inl e ↦
      let (s', added, fits, named, entries) =
        add_entry_lem s (record { key = key; value = value }) h in
      (
        s',
        rw (e, put_entry) added,
        fits,
        named,
        λ k. rw entries (find_value-append s.entries (record { key = key; value = value }) k e),
      )
  | inr (j, e) ↦ (
    record s { entries = set_value s.entries j value },
    rw (e, put_entry),
    omega (arith, length-set_value s.entries j value),
    refl,
    λ k. find_value-set_value s.entries key j value k e,
  )
]

put_at_lem :
    (t : Table) (i : ℕ) (s : Section) (key value : Chars)
    → IsValid t
    → get_elem? t.sections i ≡ some s
    → (s' : Section) × (put_at t i key value ≡ done (record t { sections = set t.sections i s' }))
      × IsValid (record t { sections = set t.sections i s' })
      × (s'.name ≡ s.name)
      × ((k : Chars)
          → find_value s'.entries k ≡ (if same key k then some value else find_value s.entries k))
unfolding put_at at
put_at_lem t i s key value v e =
    let (s', put, fits, named, values) =
      put_entry_lem s key value (All-get SectionFits t.sections i v.entries_fit e) in
    (
      s',
      rw (put_at, at, e, put),
      record {
        sections_fit = omega (arith, length-set t.sections i s', v.sections_fit);
        entries_fit = All-set SectionFits t.sections i s' v.entries_fit fits;
      },
      named,
      values,
    )

-- What `ini_table_create_entry` does to the table, as a map.
pub record Created (t : Table) (name key value : Chars) : Type 0 where
  pub table : Table
  pub created : create_entry t name key value ≡ done table
  pub valid : IsValid table
  pub lookup :
      (n k : Chars)
      → get_entry table n k ≡ (if same name n && same key k then some value else get_entry t n k)

-- An entry changed in the first section with the name, seen from outside.
changed_lookup :
    (here key_same : Bool) (value : Chars) (inside other after old : Option Chars)
    → after ≡ (if here then inside else other)
    → inside ≡ (if key_same then some value else old)
    → (here ≡ true → other ≡ old)
    → after ≡ (if here && key_same then some value else other)
changed_lookup true true value inside other after old h k l = cc
changed_lookup true false value inside other after old h k l = cc (l refl)
changed_lookup false key_same value inside other after old h k l = h

create_in_new :
    (t : Table) (name key value : Chars)
    → IsValid t
    → find_section t.sections name ≡ none
    → Created t name key value
unfolding create_entry find_value
create_in_new t name key value v e =
    let (t1, added, valid1, sections1) = add_section_lem t name v in
    let at_end = get_elem?-append_end t.sections (new_section name) in
    let (s', put, valid', named, values) =
      put_at_lem t1 (length t.sections) (new_section name) key value valid1 (rw sections1 at_end) in
    record {
      table = record t1 { sections = set t1.sections (length t.sections) s' };
      created = rw (locate, e, added) put;
      valid = valid';
      lookup = λ n k.
          rw (get_entry-find_in, get_entry-find_in, sections1, set-append_end)
            (changed_lookup (same name n) (same key k) value (find_value s'.entries k)
              (find_in t.sections n k) _ none (find_in-append t.sections name s' n k e named)
              (values k)
              (λ h.
                subst (λ m. find_in t.sections m k ≡ none) ((same_iff name n).0 h)
                  (find_in-none t.sections name k e)));
    }

create_in_old :
    (t : Table) (name key value : Chars) (i : ℕ)
    → IsValid t
    → find_section t.sections name ≡ some i
    → Created t name key value
unfolding create_entry
create_in_old t name key value i v e =
    let (s, at_i, named) = find_section-get t.sections name i e in
    let (s', put, valid', named', values) = put_at_lem t i s key value v at_i in
    record {
      table = record t { sections = set t.sections i s' };
      created = rw (locate, e) put;
      valid = valid';
      lookup = λ n k.
          rw (get_entry-find_in, get_entry-find_in)
            (changed_lookup (same name n) (same key k) value (find_value s'.entries k)
              (find_in t.sections n k) _ (find_value s.entries k)
              (find_in-set t.sections name i s' n k e (named' ∙ named)) (values k)
              (λ h.
                subst (λ m. find_in t.sections m k ≡ find_value s.entries k) ((same_iff name n).0 h)
                  (find_in-get t.sections name k i s e at_i)));
    }

-- Creating an entry in a valid table never writes outside of an array, keeps the table valid, and
-- changes the value of that key in that section and of no other.
pub create_entry-Created :
    (t : Table) (name key value : Chars) → IsValid t → Created t name key value
create_entry-Created t name key value v = elim (Option-cases (find_section t.sections name)) [
  | inl e ↦ create_in_new t name key value v e
  | inr (i, e) ↦ create_in_old t name key value i v e
]
