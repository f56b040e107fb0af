-- ===== src/Config/Reader/Sound.antt =====
-- What the reader writes to: a table whose arrays have room, or callbacks.
use wrensong_http_server.Prelude.{
  ℕ, zero, suc, ◌<◌, ◌≡◌, refl, ◌⊎◌, inl, inr, Bool, true, not, ◌&&◌, List, [], ◌∷◌, ◌++◌, length,
  get_elem?, Option, none, some, arith, length-append, length-set, All-get, All-set, Bool-cases,
}
use mathlib.Core.Path.{subst}
use wrensong_http_server.Cstring.{Chars}
use wrensong_http_server.Exec.{◌>>=◌, done, Safely, Safely-bind}
use wrensong_http_server.Config.Problem.{Policy, Problem, raise}
use wrensong_http_server.Config.Table.{Entry, Section, Table, add_entry, new_section, at, put_back}
use wrensong_http_server.Config.Table.Create.{IsValid, SectionFits, add_entry_lem, add_section_lem}
use wrensong_http_server.Config.Sink.{
  Callbacks, Sink, report, open_section, entry_in_table, store_entry, file_entry,
}

-- `ini_callback_s` with both members set
abbrev pub both_set : Callbacks
both_set = record { has_set = true; has_create = true }

abbrev InTable : Option ℕ → Table → Type 0
InTable none t = Unit {0}
InTable (some i) t = i < length t.sections

-- A valid table, and a section of it or none
pub record IntoTable (k : Sink) : Type 0 where
  pub table : Table
  pub no_callbacks : k.callbacks ≡ none
  pub table_is : k.table ≡ some table
  pub valid : IsValid table
  pub inside : InTable k.current table

abbrev pub Sound : Sink → Type 0
Sound k = (k.callbacks ≡ some both_set) ⊎ IntoTable k

-- Whether `_ini_error` may leave the program
abbrev pub exits : Policy → Bool
exits e = not e.has_handler && e.exit_on_error

pub report-Safely :
    (e : Policy) (p : Problem) (k : Sink) → Sound k → Safely (exits e) Sound (report e p k)
unfolding report raise
report-Safely e p k h = elim (Bool-cases (exits e)) [
  | inl may ↦ rw may refl
  | inr stays ↦ rw stays (still h)
]
  where
    still : Sound k → Sound (record k { problems = k.problems ++ (p ∷ []) })
    still (inl both) = inl both
    still (inr t) = inr (record {
      table = t.table;
      no_callbacks = t.no_callbacks;
      table_is = t.table_is;
      valid = t.valid;
      inside = t.inside;
    })

-- A sink that an entry can go to
abbrev Ready : Sink → Type 0
Ready k = (k.callbacks ≡ some both_set) ⊎ ((i : ℕ) × (k.current ≡ some i))

pub open_section-Safely :
    (may : Bool) (name : Chars) (k : Sink)
    → Sound k
    → Safely may (λ k'. Sound k' × Ready k') (open_section name k)
unfolding open_section
open_section-Safely may name k (inl both) = rw both (inl refl, inl refl)
open_section-Safely may name k (inr t) =
    let (t', added, valid, sections) = add_section_lem t.table name t.valid in
    rw (t.no_callbacks, t.table_is, added)
      (
        inr (record {
          table = t';
          no_callbacks = t.no_callbacks;
          table_is = refl;
          valid = valid;
          inside =
              rw sections (omega (arith, length-append t.table.sections (new_section name ∷ [])));
        }),
        inr (_, refl),
      )

get_elem?-inside {ℓ} :
    {A : Type ℓ} (xs : List A) (i : ℕ) → i < length xs → (x : A) × (get_elem? xs i ≡ some x)
get_elem?-inside [] i h = absurd (omega arith)
get_elem?-inside (x ∷ xs) zero h = (x, refl)
get_elem?-inside (x ∷ xs) (suc i) h = get_elem?-inside xs i (omega arith)

entry_in_table_lem :
    (t : Table) (i : ℕ) (e : Entry) (s s' : Section)
    → get_elem? t.sections i ≡ some s
    → add_entry s e ≡ done s'
    → entry_in_table (some t) (some i) e ≡ done (put_back t i s')
unfolding entry_in_table at
entry_in_table_lem t i e s s' found added = rw (entry_in_table, at, found, added) refl

store_entry-Safely :
    (may : Bool) (e : Entry) (k : Sink) → Sound k → Ready k → Safely may Sound (store_entry e k)
unfolding store_entry
store_entry-Safely may e k (inl both) ready = rw both (inl refl)
store_entry-Safely may e k (inr t) (inl both) = absurd (cc (both, t.no_callbacks))
store_entry-Safely may e k (inr t) (inr (i, at_i)) =
    let (s, found) =
      get_elem?-inside t.table.sections i (subst (λ o. InTable o t.table) at_i t.inside) in
    let (s', added, fits, _, _) =
      add_entry_lem s e (All-get SectionFits t.table.sections i t.valid.entries_fit found) in
    rw (t.no_callbacks, t.table_is, at_i, entry_in_table_lem t.table i e s s' found added)
      (inr (record {
        table = put_back t.table i s';
        no_callbacks = refl;
        table_is = refl;
        valid = record {
          sections_fit = omega (arith, length-set t.table.sections i s', t.valid.sections_fit);
          entries_fit = All-set SectionFits t.table.sections i s' t.valid.entries_fit fits;
        };
        inside =
            omega (
              arith,
              length-set t.table.sections i s',
              subst (λ o. InTable o t.table) at_i t.inside,
            );
      }))

pub file_entry-Safely :
    (may : Bool) (e : Entry) (k : Sink) → Sound k → Safely may Sound (file_entry e k)
unfolding file_entry
file_entry-Safely may e k h = go k.current refl
  where
    go :
        (o : Option ℕ)
        → k.current ≡ o
        → Safely may Sound
            (elim o [ none ↦ open_section [] k >>= store_entry e | some i ↦ store_entry e k ])
    go none p =
        Safely-bind may Sound (open_section [] k) _ (open_section-Safely may [] k h)
          (λ k' r. store_entry-Safely may e k' r.0 r.1)
    go (some i) p = store_entry-Safely may e k h (inr (i, p))
