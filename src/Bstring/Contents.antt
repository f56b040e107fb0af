-- ===== src/Bstring/Contents.antt =====
-- What a growable string holds, and that each function of bstring.c keeps to it: no write outside of
-- the block, the text terminated, no block lost when the allocator fails.
use wrensong_http_server.Prelude.{
  ℕ, zero, suc, ◌+◌, ◌^◌, ◌≤◌, ◌<◌, ◌≡◌, refl, sym, ◌∙◌, ap, List, [], ◌∷◌, ◌++◌, map, length, take,
  Option, none, some, arith, append_assoc, length-append, length-map, length-replicate,
}
use mathlib.Core.List.{map-append}
use wrensong_http_server.Cstring.{Chars, NonZero}
use wrensong_http_server.Exec.{Exec, done, fault, ◌>>=◌, memcpy-append, write_at-append}
use wrensong_http_server.Bstring.{Block, blank, place, Bstring, uint, append_fill}

abbrev pub filled : Chars → Block
filled s = map some s

pub length-filled : (s : Chars) → length (filled s) ≡ length s
length-filled s = length-map s some

pub length-blank : (n : ℕ) → length (blank n) ≡ n
length-blank n = length-replicate n none

-- The block starts with the text and its terminator, and the fields say how long both are.
pub record Holds (b : Bstring) (s : Chars) : Type 0 where
  pub spare : Block
  pub layout : b.block ≡ filled s ++ (some 0 ∷ spare)
  pub counted : b.length ≡ length s
  pub allocated : b.capacity ≡ length b.block
  pub small : b.capacity < 2 ^ 32

-- What a reader of the C string at a pointer sees.
unfoldable pub read_string : Block → Exec Chars
read_string [] = fault
read_string (none ∷ b) = fault
read_string (some zero ∷ b) = done []
read_string (some (suc c) ∷ b) = do s ← read_string b; done (suc c ∷ s)

pub read_string-filled :
    (s : Chars) (b : Block) → NonZero s → read_string (filled s ++ (some 0 ∷ b)) ≡ done s
unfolding read_string
read_string-filled [] b h = refl
read_string-filled (zero ∷ s) b h = absurd (omega arith)
read_string-filled (suc c ∷ s) b h = rw (read_string-filled s b h.1)

pub take_all {ℓ} : {A : Type ℓ} (xs : List A) (n : ℕ) → length xs ≤ n → take n xs ≡ xs
take_all [] zero h = refl
take_all [] (suc n) h = refl
take_all (x ∷ xs) zero h = absurd (omega arith)
take_all (x ∷ xs) (suc n) h = rw (take_all xs n (omega arith))

-- A list at least `n` long splits into `n` elements and the others.
pub split_at {ℓ} :
    {A : Type ℓ} (n : ℕ) (xs : List A)
    → n ≤ length xs
    → (front : List A) × (back : List A) × (xs ≡ front ++ back) × (length front ≡ n)
split_at zero xs h = ([], xs, refl, refl)
split_at (suc n) [] h = absurd (omega arith)
split_at (suc n) (x ∷ xs) h =
    let (front, back, e, l) = split_at n xs (omega arith) in
    (x ∷ front, back, ap (◌∷◌ x) e, ap suc l)

-- A copy and its terminator over `front` and one more byte.
copy_over :
    (pre front : Block) (o : Option ℕ) (spare : Block) (s : Chars)
    → length front ≡ length s
    → place (pre ++ (front ++ (o ∷ spare))) (length pre) s (length pre + length s)
      ≡ done ((pre ++ filled s) ++ (some 0 ∷ spare))
unfolding place
copy_over pre front o spare s h =
    rw
      (
        memcpy-append pre front (filled s) (o ∷ spare) (h ∙ sym (length-filled s)),
        ← append_assoc pre (filled s) (o ∷ spare),
        ← end,
      )
      (write_at-append (pre ++ filled s) o (some 0) spare)
  where
    end : length (pre ++ filled s) ≡ length pre + length s
    end = omega (arith, length-append pre (filled s), length-filled s)

-- What a copy behind a prefix gives, where the block has room for the terminator too.
pub record Copied (pre rest : Block) (s : Chars) : Type 0 where
  pub left : Block
  pub copied :
      place (pre ++ rest) (length pre) s (length pre + length s)
      ≡ done ((pre ++ filled s) ++ (some 0 ∷ left))
  pub fills : suc (length s + length left) ≡ length rest

pub copy_terminated : (pre rest : Block) (s : Chars) → length s < length rest → Copied pre rest s
copy_terminated pre rest s h =
    let (front, back, e, l) = split_at (length s) rest (omega arith) in go front back e l
  where
    go : (front back : Block) → rest ≡ front ++ back → length front ≡ length s → Copied pre rest s
    go front [] e l = absurd (omega (arith, ap length e, length-append front []))
    go front (o ∷ spare) e l = record {
      left = spare;
      copied = rw e (copy_over pre front o spare s l);
      fills = omega (arith, ap length e, length-append front (o ∷ spare));
    }

-- Whatever stands behind the text, a fill that fits leaves the longer text.
pub append_fill-Holds :
    (b : Bstring) (xs s : Chars) (rest : Block)
    → b.block ≡ filled xs ++ rest
    → b.length ≡ length xs
    → length s < length rest
    → b.capacity ≡ length b.block
    → b.capacity < 2 ^ 32
    → (b' : Bstring) × (append_fill b (length xs + length s) s ≡ done b')
      × Holds b' (xs ++ s)
      × (b'.capacity ≡ b.capacity)
unfolding append_fill
append_fill-Holds b xs s rest layout counted room allocated small =
    (b', rw (layout, counted, ← length-filled xs, c.copied), held, refl)
  where
    c : Copied (filled xs) rest s
    c = copy_terminated (filled xs) rest s room

    b' : Bstring
    b' = record b {
      block = (filled xs ++ filled s) ++ (some 0 ∷ c.left);
      length = uint (length xs + length s);
    }

    size_kept : length b'.block ≡ length b.block
    size_kept = omega (
      arith,
      length-append (filled xs ++ filled s) (some 0 ∷ c.left),
      length-append (filled xs) (filled s),
      length-filled s,
      c.fills,
      ap length layout,
      length-append (filled xs) rest,
    )

    held : Holds b' (xs ++ s)
    held = record {
      spare = c.left;
      layout = rw map-append;
      counted = omega (
        arith,
        length-append xs s,
        ap length layout,
        length-append (filled xs) rest,
        length-filled xs,
      );
      allocated = allocated ∙ sym size_kept;
      small = small;
    }
