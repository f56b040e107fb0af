-- ===== src/Config/Table/Destroy.antt =====
-- What `ini_table_destroy` frees, and what it does not.
use wrensong_http_server.Prelude.{
  ℕ, suc, ◌+◌, ◌*◌, ◌≡◌, refl, sym, ap, ◌∙◌, Bool, true, false, List, [], ◌∷◌, ◌++◌, length,
  if◌then◌else◌, arith, append_assoc,
}
use wrensong_http_server.Config.Table.{
  Entry, Section, Table, TableBlock, table_block, sections_block, name_block, entries_block,
  key_block, value_block, destroy_from, destroy,
}

-- The blocks that a table points to, the inner ones first, each from a call of `strdup`, `calloc` or `realloc` of
-- its own: a section has its name and the array of its entries, and an entry its key and its value.
entry_blocks : ℕ → ℕ → List Entry → List TableBlock
entry_blocks i j [] = []
entry_blocks i j (e ∷ es) = key_block i j ∷ value_block i j ∷ entry_blocks i (suc j) es

section_blocks : ℕ → List Section → List TableBlock
unfolding entry_blocks
section_blocks i [] = []
section_blocks i (s ∷ ss) =
    name_block i ∷ (entry_blocks i 0 s.entries ++ (entries_block i ∷ section_blocks (suc i) ss))

unfoldable pub blocks : Table → List TableBlock
unfolding section_blocks
blocks t = section_blocks 0 t.sections ++ (sections_block ∷ table_block ∷ [])

abbrev is_string : TableBlock → Bool
is_string (name_block i) = true
is_string (key_block i j) = true
is_string (value_block i j) = true
is_string _ = false

abbrev pub strings : List TableBlock → List TableBlock
strings [] = []
strings (b ∷ bs) = let rest = strings bs in if is_string b then b ∷ rest else rest

abbrev pub without_strings : List TableBlock → List TableBlock
without_strings [] = []
without_strings (b ∷ bs) = let rest = without_strings bs in if is_string b then rest else b ∷ rest

abbrev pub entries_in : List Section → ℕ
entries_in [] = 0
entries_in (s ∷ ss) = length s.entries + entries_in ss

entries-without_strings :
    (i j : ℕ) (es : List Entry) (rest : List TableBlock)
    → without_strings (entry_blocks i j es ++ rest) ≡ without_strings rest
unfolding entry_blocks
entries-without_strings i j [] rest = refl
entries-without_strings i j (e ∷ es) rest = entries-without_strings i (suc j) es rest

sections-without_strings :
    (i : ℕ) (ss : List Section) (rest : List TableBlock)
    → without_strings (section_blocks i ss ++ rest) ≡ destroy_from i ss ++ without_strings rest
unfolding section_blocks destroy_from
sections-without_strings i [] rest = refl
sections-without_strings i (s ∷ ss) rest =
    ap without_strings
      (append_assoc (entry_blocks i 0 s.entries) (entries_block i ∷ section_blocks (suc i) ss) rest)
    ∙ entries-without_strings i 0 s.entries (entries_block i ∷ (section_blocks (suc i) ss ++ rest))
    ∙ ap (λ z. entries_block i ∷ z) (sections-without_strings (suc i) ss rest)

entries-strings :
    (i j : ℕ) (es : List Entry) (rest : List TableBlock)
    → length (strings (entry_blocks i j es ++ rest)) ≡ 2 * length es + length (strings rest)
unfolding entry_blocks
entries-strings i j [] rest = omega arith
entries-strings i j (e ∷ es) rest = omega (arith, entries-strings i (suc j) es rest)

sections-strings :
    (i : ℕ) (ss : List Section) (rest : List TableBlock)
    → length (strings (section_blocks i ss ++ rest))
      ≡ length ss + 2 * entries_in ss + length (strings rest)
unfolding section_blocks
sections-strings i [] rest = omega arith
sections-strings i (s ∷ ss) rest = omega (
  arith,
  ap (λ z. length (strings z))
      (append_assoc (entry_blocks i 0 s.entries) (entries_block i ∷ section_blocks (suc i) ss)
        rest),
  entries-strings i 0 s.entries (entries_block i ∷ (section_blocks (suc i) ss ++ rest)),
  sections-strings (suc i) ss rest,
)

-- Of the blocks of any table, the inner ones first, destroying it frees exactly those that are no strings, in this
-- order: it leaves one string for each section, its name, and two for each entry, its key and its value.
pub destroy-blocks :
    (t : Table)
    → (destroy t ≡ without_strings (blocks t))
      × (length (strings (blocks t)) ≡ length t.sections + 2 * entries_in t.sections)
unfolding destroy blocks
destroy-blocks t = (
  sym (sections-without_strings 0 t.sections (sections_block ∷ table_block ∷ [])),
  sections-strings 0 t.sections (sections_block ∷ table_block ∷ []) ∙ omega arith,
)
