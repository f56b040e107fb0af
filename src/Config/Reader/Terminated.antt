-- ===== src/Config/Reader/Terminated.antt =====
-- The reader's buffer as long as its last byte is the terminator: reading never leaves it.
use wrensong_http_server.Prelude.{
  ℕ, zero, suc, ◌+◌, ◌<◌, ◌≤◌, ◌≡◌, refl, ap, ap₂, ◌∙◌, List, [], ◌∷◌, ◌++◌, length, Option, none,
  some, arith,
}
use wrensong_http_server.Cstring.{Chars, text_of, text_from, byte_at}
use wrensong_http_server.Exec.{done, fault, write_at_front}
use wrensong_http_server.Config.Reader.{
  Mode, section, key, value, comment, Reader, put, put_spaces, first_byte, text_at,
}

text_of-last : (xs : List ℕ) → (s : Chars) × (text_of (xs ++ (0 ∷ [])) ≡ done s)
unfolding text_of
text_of-last [] = ([], refl)
text_of-last (zero ∷ xs) = ([], refl)
text_of-last (suc c ∷ xs) = let (s, e) = text_of-last xs in (suc c ∷ s, rw e)

pub text_from-last :
    (xs : List ℕ) (i : ℕ) → i ≤ length xs → (s : Chars) × (text_from (xs ++ (0 ∷ [])) i ≡ done s)
unfolding text_from
text_from-last [] zero h = text_of-last []
text_from-last [] (suc i) h = absurd (omega arith)
text_from-last (x ∷ xs) zero h = text_of-last (x ∷ xs)
text_from-last (x ∷ xs) (suc i) h = text_from-last xs i (omega arith)

byte_at-last :
    (xs : List ℕ) (i : ℕ) → i ≤ length xs → (c : ℕ) × (byte_at (xs ++ (0 ∷ [])) i ≡ done c)
unfolding byte_at
byte_at-last [] zero h = (0, refl)
byte_at-last [] (suc i) h = absurd (omega arith)
byte_at-last (x ∷ xs) zero h = (x, refl)
byte_at-last (x ∷ xs) (suc i) h = byte_at-last xs i (omega arith)

-- A reader in a value has one, inside of a buffer with `n` bytes before the last.
abbrev pub HasValue : ℕ → Mode → Option ℕ → Type 0
HasValue n value none = ⊥
HasValue n value (some i) = i ≤ n
HasValue n section o = Unit {0}
HasValue n key o = Unit {0}
HasValue n comment o = Unit {0}

pub text_at-last :
    (xs : List ℕ) (o : Option ℕ)
    → HasValue (length xs) value o
    → (s : Chars) × (text_at (xs ++ (0 ∷ [])) o ≡ done s)
unfolding text_at
text_at-last xs none h = absurd h
text_at-last xs (some i) h = text_from-last xs i h

pub first_byte_lem :
    (m : Mode) (r : Reader) (front : List ℕ)
    → r.buf ≡ front ++ (0 ∷ [])
    → HasValue (length front) m r.value_at
    → (c : ℕ) × (first_byte m r ≡ done c)
unfolding first_byte
first_byte_lem section r front e h =
    let (c, q) = byte_at-last front 0 (omega arith) in (c, ap (λ b. byte_at b 0) e ∙ q)
first_byte_lem key r front e h =
    let (c, q) = byte_at-last front 0 (omega arith) in (c, ap (λ b. byte_at b 0) e ∙ q)
first_byte_lem comment r front e h =
    let (c, q) = byte_at-last front 0 (omega arith) in (c, ap (λ b. byte_at b 0) e ∙ q)
first_byte_lem value r front e h = go r.value_at h
  where
    go :
        (o : Option ℕ)
        → HasValue (length front) value o
        → (c : ℕ) × ((elim o [ none ↦ fault | some i ↦ byte_at r.buf i ]) ≡ done c)
    go none h = absurd h
    go (some i) h = let (c, q) = byte_at-last front i h in (c, ap (λ b. byte_at b i) e ∙ q)

-- Writing before the last byte keeps it.
pub put_lem :
    (c : ℕ) (r : Reader) (front : List ℕ)
    → r.buf ≡ front ++ (0 ∷ [])
    → r.position < length front
    → (ys : List ℕ) × (put c r
        ≡ done (record r { buf = ys ++ (0 ∷ []); position = r.position + 1 }))
      × (length ys ≡ length front)
unfolding put
put_lem c r front e h =
    let (ys, written, same) = write_at_front front (0 ∷ []) r.position c h in
    (ys, rw (e, written) refl, same)

pub put_spaces_lem :
    (n : ℕ) (r : Reader) (front : List ℕ)
    → r.buf ≡ front ++ (0 ∷ [])
    → r.position + n ≤ length front
    → (ys : List ℕ) × (put_spaces n r
        ≡ done (record r { buf = ys ++ (0 ∷ []); position = r.position + n }))
      × (length ys ≡ length front)
unfolding put_spaces
put_spaces_lem zero r front e h =
    (front, ap₂ (λ b k. done (record r { buf = b; position = k })) e (omega arith), refl)
put_spaces_lem (suc n) r front e h =
    let (ys, written, same) = put_lem b' ' r front e (omega arith) in
    let (zs, more, same') =
      put_spaces_lem n (record r { buf = ys ++ (0 ∷ []); position = r.position + 1 }) ys refl
        (omega (arith, same)) in
    (
      zs,
      rw written
          (more ∙ ap (λ k. done (record r { buf = zs ++ (0 ∷ []); position = k })) (omega arith)),
      same' ∙ same,
    )
