-- ===== src/Config/Table.antt =====
-- The table of sections and entries (lib/tconfig.c). `size` is the length of the list, and `room`
-- the number of elements that the array is allocated for: it is grown by ten wherever the size is a
-- multiple of ten, and a write behind its end is undefined. Allocation succeeds.
pub mod Find
pub mod Create
pub mod Destroy
mod Tests
use wrensong_http_server.Prelude.{
  ℕ, zero, suc, ◌+◌, ◌%◌, Bool, true, false, ◌||◌, List, [], ◌∷◌, ◌++◌, length, set, get_elem?, ltb,
  ◌==◌, if◌then◌else◌, Option, none, some, and_then,
}
use mathlib.Core.Option
use wrensong_http_server.Prelude.Int.{ℤ}
use wrensong_http_server.Cstring.{Chars, same, atoi, codes}
use wrensong_http_server.Exec.{Exec, done, fault, ◌>>=◌}

-- `ini_entry_s`
pub record Entry : Type 0 where
  pub key : Chars
  pub value : Chars

-- `ini_section_s`
pub record Section : Type 0 where
  pub name : Chars
  pub entries : List Entry
  pub room : ℕ

-- `ini_table_s`
pub record Table : Type 0 where
  pub sections : List Section
  pub room : ℕ

-- `ini_table_create`
abbrev pub empty_table : Table
empty_table = record { sections = []; room = 10 }

-- The room after the growth that precedes a new element.
abbrev pub grown : ℕ → ℕ → ℕ
grown size room = if size % 10 == 0 then 10 + size else room

-- `_ini_entry_create`, with no callback
unfoldable pub add_entry : Section → Entry → Exec Section
add_entry s e =
    let room = grown (length s.entries) s.room in
    if ltb (length s.entries) room
    then done (record s { entries = s.entries ++ (e ∷ []); room = room })
    else fault

abbrev pub new_section : Chars → Section
new_section name = record { name = name; entries = []; room = 10 }

-- `_ini_section_create`, with no callback: the new section is the last one.
unfoldable pub add_section : Table → Chars → Exec Table
add_section t name =
    let room = grown (length t.sections) t.room in
    if ltb (length t.sections) room
    then done (record { sections = t.sections ++ (new_section name ∷ []); room = room })
    else fault

-- `_ini_section_find`: a pointer into the array is an index.
unfoldable pub find_section : List Section → Chars → Option ℕ
find_section [] name = none
find_section (s ∷ ss) name =
    if same s.name name then some 0 else Option.map suc (find_section ss name)

-- `_ini_entry_find`
unfoldable pub find_entry : List Entry → Chars → Option ℕ
find_entry [] key = none
find_entry (e ∷ es) key = if same e.key key then some 0 else Option.map suc (find_entry es key)

-- `_ini_entry_get`
unfoldable pub get : Table → Chars → Chars → Option Entry
unfolding find_section find_entry
get t name key = and_then (find_section t.sections name) λ i.
    and_then (get_elem? t.sections i)
      λ s. and_then (find_entry s.entries key) λ j. get_elem? s.entries j

-- `ini_table_check_entry`
unfoldable pub check_entry : Table → Chars → Chars → Bool
unfolding get
check_entry t name key = elim (get t name key) [ none ↦ false | some e ↦ true ]

-- `ini_table_get_entry`
unfoldable pub get_entry : Table → Chars → Chars → Option Chars
unfolding get
get_entry t name key = and_then (get t name key) λ e. some e.value

-- `ini_table_get_entry_as_int`: the result, and the new content of `*value`.
unfoldable pub get_entry_as_int : Table → Chars → Chars → ℤ → Exec (Bool × ℤ)
unfolding get_entry
get_entry_as_int t name key old = elim (get_entry t name key) [
  | none ↦ done (false, old)
  | some val ↦ do n ← atoi val; done (true, n)
]

-- `ini_table_get_entry_as_bool`, likewise
unfoldable pub get_entry_as_bool : Table → Chars → Chars → Bool → Bool × Bool
unfolding get_entry
get_entry_as_bool t name key old = elim (get_entry t name key) [
  | none ↦ (false, old)
  | some val ↦ (true, same val (codes "on") || same val (codes "true"))
]

-- `ini_table_get_entry_as_double`, likewise, over `atof`
unfoldable pub get_entry_as_double {ℓ} :
    {D : Type ℓ} (atof : Chars → D) → Table → Chars → Chars → D → Bool × D
unfolding get_entry
get_entry_as_double atof t name key old = elim (get_entry t name key) [
  | none ↦ (false, old)
  | some val ↦ (true, atof val)
]

-- The blocks of memory of a table, by the indices of the section and the entry
pub data TableBlock : Type 0 where
  table_block sections_block : TableBlock
  name_block entries_block : ℕ → TableBlock
  key_block value_block : ℕ → ℕ → TableBlock

destroy_from : ℕ → List Section → List TableBlock
destroy_from i [] = []
destroy_from i (s ∷ ss) = entries_block i ∷ destroy_from (suc i) ss

-- `ini_table_destroy`: the blocks that it frees, in their order
unfoldable pub destroy : Table → List TableBlock
unfolding destroy_from
destroy t = destroy_from 0 t.sections ++ (sections_block ∷ table_block ∷ [])

-- `section = _ini_section_find(...)`, or a new section; with its index
locate : Table → Chars → Exec (Table × ℕ)
locate t name = elim (find_section t.sections name) [
  | some i ↦ done (t, i)
  | none ↦ do t' ← add_section t name; done (t', length t.sections)
]

abbrev set_value : List Entry → ℕ → Chars → List Entry
set_value [] j v = []
set_value (e ∷ es) zero v = record e { value = v } ∷ es
set_value (e ∷ es) (suc j) v = e ∷ set_value es j v

-- The new value of an entry that is there, or a new entry.
put_entry : Section → Chars → Chars → Exec Section
put_entry s key value = elim (find_entry s.entries key) [
  | some j ↦ done (record s { entries = set_value s.entries j value })
  | none ↦ add_entry s (record { key = key; value = value })
]

-- `&table->section[i]`, and a change of what it points to
unfoldable pub at : Table → ℕ → Exec Section
at t i = elim (get_elem? t.sections i) [ none ↦ fault | some s ↦ done s ]

abbrev pub put_back : Table → ℕ → Section → Table
put_back t i s = record t { sections = set t.sections i s }

put_at : Table → ℕ → Chars → Chars → Exec Table
put_at t i key value = do s ← at t i; s' ← put_entry s key value; done (put_back t i s')

-- `ini_table_create_entry`
unfoldable pub create_entry : Table → Chars → Chars → Chars → Exec Table
unfolding locate put_at put_entry add_section add_entry at
create_entry t name key value = do at ← locate t name; put_at at.0 at.1 key value
