-- ===== src/Bstring/Init.antt =====
-- `bstring_init` and `bstring_free`: the string that is made, and the blocks that are allocated.
use wrensong_http_server.Prelude.{
  ℕ, ◌+◌, ◌^◌, ◌≤◌, ◌<◌, ◌≡◌, refl, ap, ◌∙◌, inl, inr, ◌⊎◌, false, [], ◌∷◌, ◌++◌, length, Option,
  none, some, arith, Bool-cases, length-append,
}
use wrensong_http_server.Cstring.{Chars}
use wrensong_http_server.Exec.{Exec, done, quit, fault}
use wrensong_http_server.Bstring.{
  blank, Bstring, Allocator, answer, later, uint, text, place, init_capacity, init_fill, init, free,
  free_block,
}
use wrensong_http_server.Bstring.Contents.{
  Holds, filled, length-filled, length-blank, take_all, Copied, copy_terminated,
}

-- The default, the capacity asked for, or just enough for the text and its terminator.
pub init_capacity_bounds :
    (c n : ℕ)
    → c < 2 ^ 32
    → n + 1 < 2 ^ 32
    → (n < init_capacity c n) × (c ≤ init_capacity c n) × (init_capacity c n < 2 ^ 32)
unfolding init_capacity
init_capacity_bounds c n h k = ground arith

-- How `bstring_init` may end.
abbrev pub Initialized : Allocator → ℕ → Chars → Exec (Option Bstring × Allocator) → Type 0
Initialized m c s (done (some b, m')) = Holds b s × (c ≤ b.capacity) × (m'.live ≡ m.live + 2)
Initialized m c s (done (none, m')) =
    ((answer m.answers ≡ false) ⊎ (answer (later m.answers) ≡ false)) × (m'.live ≡ m.live)
Initialized m c s quit = ⊥
Initialized m c s fault = ⊥

pub init_fill-Holds :
    (c : ℕ) (s : Chars)
    → length s < c
    → c < 2 ^ 32
    → (b : Bstring) × (init_fill c s ≡ done b) × Holds b s × (b.capacity ≡ c)
unfolding init_fill
init_fill-Holds c s h small =
    (b, rw (short, take_all s (length s) (omega arith), placed), held, refl)
  where
    short : uint (length s) ≡ length s
    short = omega arith

    p : Copied [] (blank c) s
    p = copy_terminated [] (blank c) s (omega (arith, length-blank c))

    placed : place (blank c) 0 s (length s) ≡ done (filled s ++ (some 0 ∷ p.left))
    placed = ap (λ k. place (blank c) 0 s k) (omega arith) ∙ p.copied

    b : Bstring
    b = record { block = filled s ++ (some 0 ∷ p.left); length = length s; capacity = c }

    held : Holds b s
    held = record {
      spare = p.left;
      layout = refl;
      counted = refl;
      allocated = omega (
        arith,
        length-append (filled s) (some 0 ∷ p.left),
        length-filled s,
        p.fills,
        length-blank c,
      );
      small = small;
    }

-- `bstring_init` makes a string that holds the text it is given, with at least the capacity asked
-- for, in two new blocks; or it returns a null pointer because the allocator refused one of the
-- two, and then leaves no block behind.
pub init-Initialized :
    (m : Allocator) (c : ℕ) (s : Option Chars)
    → c < 2 ^ 32
    → length (text s) + 1 < 2 ^ 32
    → Initialized m c (text s) (init m c s)
unfolding init
init-Initialized m c s h k =
    let cap = init_capacity c (length (text s)) in
    let short : uint (length (text s)) ≡ length (text s) = omega arith in
    let (room, large, small) = init_capacity_bounds c (length (text s)) h k in
    let (b, made, held, same_capacity) = init_fill-Holds cap (text s) room small in
    elim (Bool-cases (answer m.answers)) [
      | inl first ↦ elim (Bool-cases (answer (later m.answers))) [
        | inl second ↦
            rw (first, second, short, made) (held, omega (arith, large, same_capacity), omega arith)
        | inr second ↦ rw (first, second) (inr second, omega arith)
      ]
      | inr first ↦ rw first (inl first, refl)
    ]

-- A string that `bstring_init` made, freed, gives back both blocks.
pub init-free :
    (m : Allocator) (c : ℕ) (s : Option Chars) {b : Bstring} {m' : Allocator}
    → c < 2 ^ 32
    → length (text s) + 1 < 2 ^ 32
    → init m c s ≡ done (some b, m')
    → (m'' : Allocator) × (free m' (some b) ≡ done m'') × (m''.live ≡ m.live)
unfolding free
init-free m c s {m' = m'} h k e =
    let (held, large, count) = rw e at (init-Initialized m c s h k) in
    (free_block (free_block m'), refl, omega (arith, count))
