-- ===== src/Bstring.antt =====
-- src/bstring.c and src/bstring.h: the growable string. A block of memory is a list of bytes, `none`
-- for a byte that nothing has written yet. The allocator is a list of its answers to come (with none
-- left it fails) and the number of blocks that are allocated.
pub mod Contents
pub mod Append
pub mod Init
pub mod Data
mod Tests
use wrensong_http_server.Prelude.{
  ℕ, suc, ◌+◌, ◌-◌, ◌*◌, ◌%◌, ◌^◌, Bool, true, false, List, [], ◌∷◌, ◌++◌, map, length, take,
  replicate, leb, ◌==◌, if◌then◌else◌, Option, none, some,
}
use wrensong_http_server.Cstring.{Chars}
use wrensong_http_server.Exec.{Exec, done, quit, fault, ◌>>=◌, write_at, memcpy}

abbrev pub Block : Type 0
Block = List (Option ℕ)

-- `struct Bstring`
pub record Bstring : Type 0 where
  pub block : Block
  pub length : ℕ
  pub capacity : ℕ

pub record Allocator : Type 0 where
  pub answers : List Bool
  pub live : ℕ

abbrev pub bstring_init_capacity : ℕ
bstring_init_capacity = 16

-- `unsigned int` and `size_t` arithmetic wraps.
abbrev pub uint : ℕ → ℕ
uint n = n % 2 ^ 32

abbrev pub size : ℕ → ℕ
size n = n % 2 ^ 64

abbrev pub answer : List Bool → Bool
answer [] = false
answer (b ∷ bs) = b

abbrev pub later : List Bool → List Bool
later [] = []
later (b ∷ bs) = bs

-- One answer is used up. A new block counts, a block that `realloc` moves does not.
abbrev pub malloc : Allocator → Bool × Allocator
malloc m =
    if answer m.answers
    then (true, record { answers = later m.answers; live = m.live + 1 })
    else (false, record { answers = later m.answers; live = m.live })

abbrev pub realloc : Allocator → Bool × Allocator
realloc m = (answer m.answers, record m { answers = later m.answers })

abbrev pub free_block : Allocator → Allocator
free_block m = record m { live = m.live - 1 }

-- Bytes that nothing has written.
abbrev pub blank : ℕ → Block
blank n = replicate n none

-- The old bytes that fit, then fresh ones.
unfoldable pub resized : Block → ℕ → Block
resized b n = take n b ++ blank (n - length b)

abbrev pub text : Option Chars → Chars
text none = []
text (some s) = s

-- `bstring_init`, with the string that `s` points to
unfoldable pub init_capacity : ℕ → ℕ → ℕ
init_capacity capacity slen =
    let asked = if capacity == 0 then bstring_init_capacity else capacity in
    if leb asked slen then uint (slen + 1) else asked

-- The copy of `s` to index `i`, and the terminator at index `end`.
unfoldable pub place : Block → ℕ → Chars → ℕ → Exec Block
place block i s end = do copied ← memcpy block i (map some s); write_at copied end (some 0)

unfoldable pub init_fill : ℕ → Chars → Exec Bstring
unfolding place
init_fill capacity s =
    let slen = uint (length s) in
    do
      block ← place (blank capacity) 0 (take slen s) slen
      done (record { block = block; length = slen; capacity = capacity })

unfoldable pub init : Allocator → ℕ → Option Chars → Exec (Option Bstring × Allocator)
init m capacity s =
    let (got_struct, m1) = malloc m in
    let (got_data, m2) = malloc m1 in
    let cap = init_capacity capacity (uint (length (text s))) in
    if got_struct
    then (if got_data
        then (do b ← init_fill cap (text s); done (some b, m2))
        else done (none, free_block m2))
    else done (none, m1)

-- The capacity that `bstring_append` asks for: the product is of two `unsigned int`s.
unfoldable pub grown_capacity : ℕ → ℕ → ℕ
grown_capacity capacity new_len =
    let doubled = uint (capacity * 2) in if leb doubled new_len then size (new_len + 1) else doubled

unfoldable pub append_fill : Bstring → ℕ → Chars → Exec Bstring
unfolding place
append_fill b new_len s = do
  block ← place b.block b.length s new_len
  done (record b { block = block; length = uint new_len })

unfoldable pub append_at : Allocator → Bstring → Chars → Exec (Bool × Bstring × Allocator)
unfolding append_fill grown_capacity resized
append_at m b s =
    let new_len = size (b.length + length s) in
    let new_cap = grown_capacity b.capacity new_len in
    let (got, m') = realloc m in
    let bigger = record b { block = resized b.block new_cap; capacity = uint new_cap } in
    if leb b.capacity new_len
    then (if got
        then (do b' ← append_fill bigger new_len s; done (true, b', m'))
        else done (false, b, m'))
    else (do b' ← append_fill b new_len s; done (true, b', m))

-- `bstring_append`; `none` is a null pointer.
unfoldable pub append :
    Allocator → Option Bstring → Option Chars → Exec (Bool × Bstring × Allocator)
unfolding append_at
append m none s = quit
append m (some b) none = quit
append m (some b) (some s) = append_at m b s

-- `bstring_free`
unfoldable pub free : Allocator → Option Bstring → Exec Allocator
free m none = quit
free m (some b) = done (free_block (free_block m))
