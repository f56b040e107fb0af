-- ===== src/Cstring.antt =====
-- The functions of <string.h> and <stdlib.h> that the code calls, on a string given by the bytes
-- before its terminator.
use wrensong_http_server.Prelude.{
  ℕ, suc, ◌+◌, ◌-◌, ◌*◌, ◌^◌, ◌%◌, ◌≡◌, Bool, true, false, ◌&&◌, ◌||◌, List, [], ◌∷◌, ltb, leb,
  ◌==◌, if◌then◌else◌, ◌↔◌, arith, zero, ◌<◌, ◌++◌, length, refl,
}
use mathlib.Core.Option.{Option, none, some}
use Prim.Native.Char.{code}
use Prim.Native.String.{String}
use wrensong_http_server.Prelude.Int.{ℤ, pos, negsuc}
use wrensong_http_server.Exec.{Exec, done, fault, ◌>>=◌}

-- A string is what stands before its terminator.
abbrev pub Chars : Type 0
Chars = List ℕ

-- `strcmp(a, b) == 0`
unfoldable pub same : Chars → Chars → Bool
same [] [] = true
same (x ∷ xs) (y ∷ ys) = x == y && same xs ys
same _ _ = false

pub same_iff : (a b : Chars) → (same a b ≡ true) ↔ (a ≡ b)
unfolding same
same_iff (x ∷ a) (y ∷ b) = ground (arith, same_iff a b)
same_iff _ _ = ground arith

-- `strncmp(a, b, n) == 0`: the comparison ends at a common terminator.
unfoldable pub same_upto : ℕ → Chars → Chars → Bool
same_upto zero a b = true
same_upto (suc n) [] [] = true
same_upto (suc n) (x ∷ xs) (y ∷ ys) = x == y && same_upto n xs ys
same_upto (suc n) _ _ = false

-- No terminator inside.
abbrev pub NonZero : Chars → Type 0
NonZero [] = Unit {0}
NonZero (c ∷ cs) = (0 < c) × NonZero cs

abbrev is_digit : ℕ → Bool
is_digit c = leb b'0' c && leb c b'9'

abbrev is_space : ℕ → Bool
is_space c = c == b' ' || (leb 9 c && leb c 13)

-- The decimal digits at the front, behind a number read so far.
unfoldable pub digits_onto : ℕ → Chars → ℕ
digits_onto acc [] = acc
digits_onto acc (c ∷ cs) =
    let rest = digits_onto (acc * 10 + (c - b'0')) cs in if is_digit c then rest else acc

unfoldable pub skip_spaces : Chars → Chars
skip_spaces [] = []
skip_spaces (c ∷ cs) = if is_space c then skip_spaces cs else c ∷ cs

-- A value of an `int`, or undefined behaviour where it does not fit.
unfoldable pub fit_int : Bool → ℕ → Exec ℤ
fit_int false n = if ltb n (2 ^ 31) then done (pos n) else fault
fit_int true zero = done (pos 0)
fit_int true (suc n) = if ltb n (2 ^ 31) then done (negsuc n) else fault

unfoldable pub signed_digits : Chars → Exec ℤ
unfolding digits_onto fit_int
signed_digits [] = done (pos 0)
signed_digits (c ∷ cs) =
    if c == b'-'
    then fit_int true (digits_onto 0 cs)
    else fit_int false (digits_onto 0 (if c == b'+' then cs else c ∷ cs))

-- `atoi(s)`, whose behaviour is undefined where the number does not fit an `int`.
unfoldable pub atoi : Chars → Exec ℤ
unfolding skip_spaces signed_digits
atoi s = signed_digits (skip_spaces s)

unfoldable pub fit_unsigned : Bool → ℕ → Option ℕ
fit_unsigned negated n =
    if ltb n (2 ^ 64) then some (if negated then (2 ^ 64 - n) % 2 ^ 64 else n) else none

unfoldable pub unsigned_digits : Chars → Option ℕ
unfolding digits_onto fit_unsigned
unsigned_digits [] = some 0
unsigned_digits (c ∷ cs) =
    if c == b'-'
    then fit_unsigned true (digits_onto 0 cs)
    else fit_unsigned false (digits_onto 0 (if c == b'+' then cs else c ∷ cs))

-- `strtoul(s, NULL, 10)`, or nothing where it sets `errno`
unfoldable pub strtoul : Chars → Option ℕ
unfolding skip_spaces unsigned_digits
strtoul s = unsigned_digits (skip_spaces s)

pub NonZero-append : (xs ys : Chars) → NonZero xs → NonZero ys → NonZero (xs ++ ys)
NonZero-append [] ys h k = k
NonZero-append (c ∷ xs) ys h k = (h.0, NonZero-append xs ys h.1 k)

-- The bytes of an ASCII literal.
abbrev pub codes : String → Chars
codes String.[] = []
codes (String.◌∷◌ c s) = code c ∷ codes s

-- The string in a buffer, up to its terminator.
unfoldable pub text_of : List ℕ → Exec Chars
text_of [] = fault
text_of (zero ∷ b) = done []
text_of (suc c ∷ b) = do s ← text_of b; done (suc c ∷ s)

unfoldable pub text_from : List ℕ → ℕ → Exec Chars
unfolding text_of
text_from b zero = text_of b
text_from [] (suc i) = fault
text_from (c ∷ b) (suc i) = text_from b i

unfoldable pub byte_at : List ℕ → ℕ → Exec ℕ
byte_at [] i = fault
byte_at (c ∷ b) zero = done c
byte_at (c ∷ b) (suc i) = byte_at b i

pub byte_at-end : (xs ys : Chars) (c : ℕ) → byte_at (xs ++ (c ∷ ys)) (length xs) ≡ done c
unfolding byte_at
byte_at-end [] ys c = refl
byte_at-end (x ∷ xs) ys c = byte_at-end xs ys c

pub text_from-end : (xs ys : Chars) → text_from (xs ++ ys) (length xs) ≡ text_of ys
unfolding text_from
text_from-end [] ys = refl
text_from-end (x ∷ xs) ys = text_from-end xs ys

pub text_of-terminated : (xs ys : Chars) → NonZero xs → text_of (xs ++ (0 ∷ ys)) ≡ done xs
unfolding text_of
text_of-terminated [] ys h = refl
text_of-terminated (zero ∷ xs) ys h = absurd (omega arith)
text_of-terminated (suc c ∷ xs) ys h = rw (text_of-terminated xs ys h.1)
