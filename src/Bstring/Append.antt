-- ===== src/Bstring/Append.antt =====
-- `bstring_append`: what it leaves behind on each path.
use wrensong_http_server.Prelude.{
  ℕ, ◌+◌, ◌-◌, ◌*◌, ◌^◌, ◌≤◌, ◌<◌, ◌≡◌, refl, ap, inl, inr, Bool, true, false, ◌∷◌, ◌++◌, length,
  leb, some, arith, append_assoc, length-append, Bool-cases, ◌&&◌, ltb, if◌then◌else◌,
}
use wrensong_http_server.Cstring.{Chars}
use wrensong_http_server.Exec.{Exec, done, quit, fault, ◌>>=◌}
use wrensong_http_server.Bstring.{
  Block, blank, Bstring, Allocator, answer, later, uint, size, resized, grown_capacity, append_fill,
  append_at, append,
}
use wrensong_http_server.Bstring.Contents.{
  Holds, filled, length-filled, length-blank, take_all, append_fill-Holds,
}

-- Where the new length is at least the capacity, and leaves room for the terminator in 32 bits: the capacity
-- asked for leaves room for the terminator, never shrinks the block, fits in 32 bits, and is the double wherever
-- the double is enough and does not wrap, or else the length with the terminator.
pub grown_capacity_bounds :
    (c n : ℕ)
    → c ≤ n
    → n + 1 < 2 ^ 32
    → (n < grown_capacity c n)
      × (c ≤ grown_capacity c n)
      × (grown_capacity c n < 2 ^ 32)
      × (grown_capacity c n ≡ (if ltb n (c * 2) && ltb (c * 2) (2 ^ 32) then c * 2 else n + 1))
unfolding grown_capacity
grown_capacity_bounds c n h k = ground arith

-- How `bstring_append` may end on a string that holds `xs`.
abbrev pub Appended :
    Allocator → Bstring → Chars → Chars → Exec (Bool × Bstring × Allocator) → Type 0
Appended m b xs s (done (true, b', m')) =
    Holds b' (xs ++ s) × (b.capacity ≤ b'.capacity) × (m'.live ≡ m.live)
Appended m b xs s (done (false, b', m')) =
    (b' ≡ b) × (b.capacity ≤ length xs + length s) × (answer m.answers ≡ false) × (m'.live ≡ m.live)
Appended m b xs s quit = ⊥
Appended m b xs s fault = ⊥

resized-filled :
    (b : Bstring) (xs : Chars) (n : ℕ)
    → (v : Holds b xs) → b.capacity ≤ n
    → (rest : Block) × (resized b.block n ≡ filled xs ++ rest) × (length (resized b.block n) ≡ n)
unfolding resized
resized-filled b xs n v h = (
  (some 0 ∷ v.spare) ++ blank (n - length b.block),
  rw (take_all b.block n (omega (arith, v.allocated)), v.layout)
      (append_assoc (filled xs) (some 0 ∷ v.spare) _),
  rw (take_all b.block n (omega (arith, v.allocated))) (
      omega (
        arith,
        v.allocated,
        length-append b.block (blank (n - length b.block)),
        length-blank (n - length b.block),
      )),
)

new_len-eq :
    (b : Bstring) (xs s : Chars)
    → Holds b xs
    → length xs + length s + 1 < 2 ^ 32
    → size (b.length + length s) ≡ length xs + length s
new_len-eq b xs s v h = omega (arith, v.counted)

-- With room, the string is filled where it stands.
append_in_place :
    (m : Allocator) (b : Bstring) (xs s : Chars)
    → Holds b xs
    → length xs + length s < b.capacity
    → Appended m b xs s (do b' ← append_fill b (length xs + length s) s; done (true, b', m))
append_in_place m b xs s v room =
    let (b', filled_in, held, same_capacity) =
      append_fill-Holds b xs s (some 0 ∷ v.spare) v.layout v.counted
        (omega (
          arith,
          v.allocated,
          ap length v.layout,
          length-append (filled xs) (some 0 ∷ v.spare),
          length-filled xs,
        ))
        v.allocated v.small in
    rw filled_in (held, omega (arith, same_capacity), refl)

-- Without, it is filled in a larger block.
append_grown :
    (m : Allocator) (b : Bstring) (xs s : Chars)
    → Holds b xs
    → length xs + length s + 1 < 2 ^ 32
    → b.capacity ≤ length xs + length s
    → let new_cap = grown_capacity b.capacity (length xs + length s) in
      let bigger = record b { block = resized b.block new_cap; capacity = uint new_cap } in
      Appended m b xs s (do
        b' ← append_fill bigger (length xs + length s) s
        done (true, b', record m { answers = later m.answers }))
append_grown m b xs s v h tight =
    let new_cap = grown_capacity b.capacity (length xs + length s) in
    let (over, grows, fits, _) = grown_capacity_bounds b.capacity (length xs + length s) tight h in
    let (rest, layout, total) = resized-filled b xs new_cap v grows in
    let bigger = record b { block = resized b.block new_cap; capacity = uint new_cap } in
    let (b', filled_in, held, same_capacity) =
      append_fill-Holds bigger xs s rest layout v.counted
        (omega
          (arith, total, ap length layout, length-append (filled xs) rest, length-filled xs, over))
        (omega (arith, total, fits)) (omega (arith, fits)) in
    rw filled_in (held, omega (arith, same_capacity, fits, grows), refl)

-- On a string that holds `xs`, with room below 2^32 for the longer text, `bstring_append` never
-- leaves the block: it ends with a string that holds `xs ++ s`, or, when the block is too small and
-- the allocator refuses, returns false with the string unchanged.
pub append-Appended :
    (m : Allocator) (b : Bstring) (xs s : Chars)
    → Holds b xs
    → length xs + length s + 1 < 2 ^ 32
    → Appended m b xs s (append m (some b) (some s))
unfolding append
append-Appended m b xs s v h =
    rw (append_at, new_len-eq b xs s v h)
      (elim (Bool-cases (leb b.capacity (length xs + length s))) [
        | inl tight ↦ rw tight (elim (Bool-cases (answer m.answers)) [
          | inl got ↦ rw got (append_grown m b xs s v h (ground arith))
          | inr refused ↦ rw refused (refl, ground arith, refused, refl)
        ])
        | inr room ↦ rw room (append_in_place m b xs s v (ground arith))
      ])
