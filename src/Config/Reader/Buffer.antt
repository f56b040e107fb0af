-- ===== src/Config/Reader/Buffer.antt =====
-- The reader's buffer: the bytes of the line so far, then zeros. Each lemma is one round of the loop.
use wrensong_http_server.Prelude.{
  ℕ, zero, suc, ◌+◌, ◌-◌, ◌≤◌, ◌≡◌, refl, ap, ◌∙◌, Bool, true, false, not, ◌&&◌, ◌||◌, List, [],
  ◌∷◌, ◌++◌, length, take, replicate, ltb, ◌==◌, arith, length-append, length-replicate,
  append_assoc, append-nil, Bool-cases, inl, inr,
}
use wrensong_http_server.Cstring.{Chars, NonZero}
use wrensong_http_server.Exec.{done, write_at-append}
use wrensong_http_server.Config.Problem.{Policy}
use wrensong_http_server.Config.Reader.{
  Mode, section, key, value, comment, Reader, put, grow, switch, take_char, run,
}

abbrev pub zeros : ℕ → List ℕ
zeros n = replicate n 0

-- The reader with `xs` read of the line, and `n` bytes of the buffer left.
abbrev pub line_so_far : Mode → Chars → ℕ → Reader → Reader
line_so_far m xs n r = record r {
  mode = m;
  in_comment = false;
  buf = xs ++ zeros n;
  position = length xs;
  spaces = 0;
}

-- A character that a line in this state takes as it is.
abbrev pub is_plain : Mode → ℕ → Bool
is_plain m c =
    ltb 0 c && not (c == b' ' || c == b'\r' || c == b'\n' || c == b'[' || c == b']') && in_mode m
  where
    in_mode : Mode → Bool
    in_mode value = true
    in_mode key = not (c == b';' || c == b'#' || c == b'=' || c == b':')
    in_mode _ = not (c == b';' || c == b'#')

abbrev pub IsPlain : Mode → Chars → Type 0
IsPlain m [] = Unit {0}
IsPlain m (c ∷ cs) = (is_plain m c ≡ true) × IsPlain m cs

pub IsPlain-NonZero : (m : Mode) (xs : Chars) → IsPlain m xs → NonZero xs
IsPlain-NonZero m [] h = tt
IsPlain-NonZero m (c ∷ xs) h = (ground arith, IsPlain-NonZero m xs h.1)

take_front {ℓ} : {A : Type ℓ} (xs ys : List A) → take (length xs) (xs ++ ys) ≡ xs
take_front [] ys = refl
take_front (x ∷ xs) ys = rw (take_front xs ys)

pub length-line : (xs : Chars) (n : ℕ) → length (xs ++ zeros n) ≡ length xs + n
length-line xs n = omega (arith, length-append xs (zeros n), length-replicate n zero)

-- Growth keeps the line, and leaves two bytes at least.
pub grow_lem :
    (m : Mode) (xs : Chars) (n : ℕ) (r : Reader)
    → 2 ≤ length xs + n
    → (k : ℕ) × (grow (line_so_far m xs n r) ≡ line_so_far m xs (suc (suc k)) r)
unfolding grow
grow_lem m xs n r h = elim (Bool-cases (ltb (length (xs ++ zeros n) - 2) (length xs))) [
  | inl tight ↦ (
    n + 126,
    rw tight (
        rw (take_front xs (zeros n), length-line xs n)
          (ap (λ k. line_so_far m xs k r) {y = suc (suc (n + 126))} (omega arith))),
  )
  | inr room ↦ (
    n - 2,
    rw room
        (ap (λ k. line_so_far m xs k r) {y = suc (suc (n - 2))} (ground (arith, length-line xs n))),
  )
]

pub put_lem :
    (m : Mode) (xs : Chars) (n c : ℕ) (r : Reader)
    → put c (line_so_far m xs (suc n) r) ≡ done (line_so_far m (xs ++ (c ∷ [])) n r)
unfolding put
put_lem m xs n c r = rw (
  write_at-append xs 0 c (zeros n),
  append_assoc xs (c ∷ []) (zeros n),
  length-append xs (c ∷ []),
)

-- A plain character goes to the end of the line.
switch_plain :
    (e : Policy) (m : Mode) (xs : Chars) (n c : ℕ) (r : Reader)
    → is_plain m c ≡ true
    → switch e c (line_so_far m xs (suc n) r) ≡ done (line_so_far m (xs ++ (c ∷ [])) n r)
unfolding switch
switch_plain e section xs n c r h = ground (arith, put_lem section xs n c r)
switch_plain e key xs n c r h = ground (arith, put_lem key xs n c r)
switch_plain e value xs n c r h = ground (arith, put_lem value xs n c r)
switch_plain e comment xs n c r h = ground (arith, put_lem comment xs n c r)

-- The run over `w` from this line takes the reader to the line with `w` behind it.
pub record After (e : Policy) (m : Mode) (xs : Chars) (r : Reader) (from : Reader) (w : Chars)
    : Type 0 where
  pub left : ℕ
  pub enough : 2 ≤ length xs + left
  pub runs : (rest : Chars) → run e from (w ++ rest) ≡ run e (line_so_far m xs left r) rest

pub run_word :
    (e : Policy) (m : Mode) (w xs : Chars) (n : ℕ) (r : Reader)
    → IsPlain m w
    → 2 ≤ length xs + n
    → After e m (xs ++ w) r (line_so_far m xs n r) w
unfolding run take_char
run_word e m [] xs n r h two = record {
  left = n;
  enough = omega (arith, length-append xs []);
  runs = λ rest. rw append-nil;
}
run_word e m (c ∷ w) xs n r (pc, pw) two =
    let (k, grown) = grow_lem m xs n r two in
    let later =
      run_word e m w (xs ++ (c ∷ [])) (suc k) r pw (omega (arith, length-append xs (c ∷ []))) in
    record {
      left = later.left;
      enough = rw (append_assoc xs (c ∷ []) w) at later.enough;
      runs = λ rest.
          rw (grown, switch_plain e m xs (suc k) c r pc)
            (later.runs rest
              ∙ ap (λ ys. run e (line_so_far m ys later.left r) rest) (append_assoc xs (c ∷ []) w));
    }
