-- ===== src/Config/Table/Find.antt =====
-- The table as a map from a section's name and a key to a value: `_ini_section_find` and
-- `_ini_entry_find` against the first match in the lists.
use wrensong_http_server.Prelude.{
  ℕ, zero, suc, ◌≡◌, refl, List, [], ◌∷◌, ◌++◌, set, get_elem?, if◌then◌else◌, Option, none, some,
  and_then, arith,
}
use wrensong_http_server.Cstring.{Chars, same, same_iff}
use wrensong_http_server.Config.Table.{
  Entry, Section, Table, find_section, find_entry, get_entry, set_value,
}

-- The first entry with the key, and the first section with the name.
unfoldable pub find_value : List Entry → Chars → Option Chars
find_value [] key = none
find_value (e ∷ es) key = if same e.key key then some e.value else find_value es key

unfoldable pub find_in : List Section → Chars → Chars → Option Chars
find_in [] name key = none
find_in (s ∷ ss) name key =
    if same s.name name then find_value s.entries key else find_in ss name key

find_entry-find_value :
    (es : List Entry) (key : Chars)
    → and_then (and_then (find_entry es key) (get_elem? es)) (λ e. some e.value) ≡ find_value es key
unfolding find_entry find_value
find_entry-find_value [] key = refl
find_entry-find_value (e ∷ es) key = ground (arith, find_entry-find_value es key)

found :
    (ss : List Section) (name key : Chars)
    → and_then
        (and_then (find_section ss name) λ i.
          and_then
            (get_elem? ss i)
            λ s. and_then (find_entry s.entries key) λ j. get_elem? s.entries j)
        (λ e. some e.value)
      ≡ find_in ss name key
unfolding find_section find_in
found [] name key = refl
found (s ∷ ss) name key = ground (arith, found ss name key, find_entry-find_value s.entries key)

-- `ini_table_get_entry`, which searches for a section and then for an entry by their indices, gives
-- the value of the first entry with the key in the first section with the name.
pub get_entry-find_in :
    (t : Table) (name key : Chars) → get_entry t name key ≡ find_in t.sections name key
unfolding get_entry
get_entry-find_in t name key = found t.sections name key

-- The three things that a position found says of the sections.
pub find_section-get :
    (ss : List Section) (name : Chars) (i : ℕ)
    → find_section ss name ≡ some i
    → (s : Section) × (get_elem? ss i ≡ some s) × (s.name ≡ name)
unfolding find_section
find_section-get [] name i h = cc
find_section-get (s ∷ ss) name zero h = (s, refl, ground (arith, same_iff s.name name))
find_section-get (s ∷ ss) name (suc i) h = find_section-get ss name i (ground arith)

pub find_in-none :
    (ss : List Section) (name k : Chars) → find_section ss name ≡ none → find_in ss name k ≡ none
unfolding find_section find_in
find_in-none [] name k h = refl
find_in-none (s ∷ ss) name k h = ground (arith, find_in-none ss name k)

pub find_in-get :
    (ss : List Section) (name k : Chars) (i : ℕ) (s : Section)
    → find_section ss name ≡ some i
    → get_elem? ss i ≡ some s
    → find_in ss name k ≡ find_value s.entries k
unfolding find_section find_in
find_in-get [] name k i s h e = cc
find_in-get (x ∷ ss) name k zero s h e = ground arith
find_in-get (x ∷ ss) name k (suc i) s h e = ground (arith, find_in-get ss name k i s)

pub find_in-set :
    (ss : List Section) (name : Chars) (i : ℕ) (s : Section) (n k : Chars)
    → find_section ss name ≡ some i
    → s.name ≡ name
    → find_in (set ss i s) n k ≡ (if same name n then find_value s.entries k else find_in ss n k)
unfolding find_section find_in
find_in-set [] name i s n k h e = cc
find_in-set (x ∷ ss) name zero s n k h e = ground (arith, same_iff x.name name)
find_in-set (x ∷ ss) name (suc i) s n k h e =
    ground
      (arith, same_iff x.name name, same_iff x.name n, same_iff name n, find_in-set ss name i s n k)

pub find_in-append :
    (ss : List Section) (name : Chars) (s : Section) (n k : Chars)
    → find_section ss name ≡ none
    → s.name ≡ name
    → find_in (ss ++ (s ∷ [])) n k
      ≡ (if same name n then find_value s.entries k else find_in ss n k)
unfolding find_section find_in
find_in-append [] name s n k h e = ground arith
find_in-append (x ∷ ss) name s n k h e =
    ground (
      arith,
      same_iff x.name name,
      same_iff x.name n,
      same_iff name n,
      find_in-append ss name s n k,
    )

pub find_value-set_value :
    (es : List Entry) (key : Chars) (j : ℕ) (v k : Chars)
    → find_entry es key ≡ some j
    → find_value (set_value es j v) k ≡ (if same key k then some v else find_value es k)
unfolding find_entry find_value
find_value-set_value [] key j v k h = cc
find_value-set_value (e ∷ es) key zero v k h = ground (arith, same_iff e.key key)
find_value-set_value (e ∷ es) key (suc j) v k h =
    ground (
      arith,
      same_iff e.key key,
      same_iff e.key k,
      same_iff key k,
      find_value-set_value es key j v k,
    )

pub find_value-append :
    (es : List Entry) (e : Entry) (k : Chars)
    → find_entry es e.key ≡ none
    → find_value (es ++ (e ∷ [])) k ≡ (if same e.key k then some e.value else find_value es k)
unfolding find_entry find_value
find_value-append [] e k h = ground arith
find_value-append (x ∷ es) e k h =
    ground
      (arith, same_iff x.key e.key, same_iff x.key k, same_iff e.key k, find_value-append es e k)
