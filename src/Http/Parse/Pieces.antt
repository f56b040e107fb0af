-- ===== src/Http/Parse/Pieces.antt =====
-- `strsep` on a buffer given by its parts: what stands before the pointer, the piece, and the rest.
use wrensong_http_server.Prelude.{
  ℕ, zero, suc, ◌+◌, ◌≡◌, ◌≢◌, ◌<◌, refl, ap, ◌∙◌, List, [], ◌∷◌, ◌++◌, length, drop, Option, none,
  some, arith, append_assoc, length-append,
}
use wrensong_http_server.Cstring.{Chars, NonZero, text_from, text_from-end, text_of-terminated}
use wrensong_http_server.Exec.{done, Ends, Ends-bind, anything, write_at, write_at-append}
use wrensong_http_server.Http.Message.{Pointer}
use wrensong_http_server.Http.Parse.{Split, seek, cut, strsep}

-- No terminator and no delimiter inside.
abbrev pub Free : ℕ → Chars → Type 0
Free d [] = Unit {0}
Free d (c ∷ cs) = (0 < c) × (c ≢ d) × Free d cs

pub Free-NonZero : (d : ℕ) (xs : Chars) → Free d xs → NonZero xs
Free-NonZero d [] h = tt
Free-NonZero d (c ∷ xs) h = (h.0, Free-NonZero d xs h.2)

pub Free-zero : (d : ℕ) (xs : Chars) → Free d xs → Free 0 xs
Free-zero d [] h = tt
Free-zero d (c ∷ xs) h = (h.0, omega arith, Free-zero d xs h.2)

pub Free-append : (d : ℕ) (xs ys : Chars) → Free d xs → Free d ys → Free d (xs ++ ys)
Free-append d [] ys h k = k
Free-append d (c ∷ xs) ys h k = (h.0, h.1, Free-append d xs ys h.2 k)

pub Free-back : (d : ℕ) (xs ys : Chars) → Free d (xs ++ ys) → Free d ys
Free-back d [] ys h = h
Free-back d (c ∷ xs) ys h = Free-back d xs ys h.2

pub drop-front : (xs ys : List ℕ) → drop (length xs) (xs ++ ys) ≡ ys
drop-front [] ys = refl
drop-front (x ∷ xs) ys = drop-front xs ys

seek-Free :
    (d : ℕ) (tok post : Chars)
    → 0 < d
    → Free d tok
    → seek d (tok ++ (d ∷ post)) ≡ done (some (length tok))
unfolding seek
seek-Free zero [] post p h = absurd (omega arith)
seek-Free (suc d) [] post p h = ground arith
seek-Free d (zero ∷ tok) post p h = absurd (omega arith)
seek-Free d (suc c ∷ tok) post p h = ground (arith, seek-Free d tok post p h.2)

seek-end : (d : ℕ) (tok post : Chars) → Free d tok → seek d (tok ++ (0 ∷ post)) ≡ done none
unfolding seek
seek-end d [] post h = refl
seek-end d (zero ∷ tok) post h = absurd (omega arith)
seek-end d (suc c ∷ tok) post h = ground (arith, seek-end d tok post h.2)

-- The piece up to a delimiter
pub strsep-Free :
    (d : ℕ) (pre tok post : Chars)
    → 0 < d
    → Free d tok
    → strsep d (pre ++ (tok ++ (d ∷ post))) (some (length pre))
      ≡ done (record {
        token = some (length pre);
        cursor = some (suc (length pre + length tok));
        buf = pre ++ (tok ++ (0 ∷ post));
      })
unfolding strsep
strsep-Free d pre tok post p h =
    rw (drop-front pre (tok ++ (d ∷ post)), seek-Free d tok post p h)
      (rw
        (
          ← append_assoc pre tok (d ∷ post),
          ← append_assoc pre tok (0 ∷ post),
          ← length-append pre tok,
        )
        (rw (write_at-append (pre ++ tok) d 0 post)))

-- The last piece of a string
pub strsep-end :
    (d : ℕ) (pre tok post : Chars)
    → Free d tok
    → strsep d (pre ++ (tok ++ (0 ∷ post))) (some (length pre))
      ≡ done (record { token = some (length pre); cursor = none; buf = pre ++ (tok ++ (0 ∷ post)) })
unfolding strsep
strsep-end d pre tok post h = rw (drop-front pre (tok ++ (0 ∷ post)), seek-end d tok post h)

-- A string that stands in a buffer
pub text_from-piece :
    (pre tok post : Chars)
    → NonZero tok
    → text_from (pre ++ (tok ++ (0 ∷ post))) (length pre) ≡ done tok
text_from-piece pre tok post h =
    text_from-end pre (tok ++ (0 ∷ post)) ∙ text_of-terminated tok post h

write_at-Ends : (xs : List ℕ) (i v : ℕ) → Ends (λ ys. length ys ≡ length xs) (write_at xs i v)
unfolding write_at
write_at-Ends [] i v = tt
write_at-Ends (x ∷ xs) zero v = refl
write_at-Ends (x ∷ xs) (suc i) v =
    Ends-bind (λ ys. length ys ≡ suc (length xs)) (write_at xs i v) _ (write_at-Ends xs i v)
      (λ ys e. ap suc e)

-- Cutting a buffer keeps its length.
pub strsep-Ends :
    (d : ℕ) (buf : List ℕ) (p : Pointer)
    → Ends (λ (s : Split). length s.buf ≡ length buf) (strsep d buf p)
unfolding strsep cut
strsep-Ends d buf none = refl
strsep-Ends d buf (some i) =
    Ends-bind (λ (s : Split). length s.buf ≡ length buf) (seek d (drop i buf)) (cut buf i)
      (anything (seek d (drop i buf))) cut_ends
  where
    cut_ends :
        (o : Option ℕ) → Unit {0} → Ends (λ (s : Split). length s.buf ≡ length buf) (cut buf i o)
    cut_ends none h = refl
    cut_ends (some j) h =
        Ends-bind (λ (s : Split). length s.buf ≡ length buf) (write_at buf (i + j) 0) _
          (write_at-Ends buf (i + j) 0) (λ ys e. e)
