-- ===== src/Config/Reader/Rounds.antt =====
-- The rounds of the reader's loop for the characters that have a meaning of their own.
use wrensong_http_server.Prelude.{
  ℕ, zero, suc, ◌+◌, ◌≤◌, ◌≡◌, refl, ◌∙◌, [], ◌∷◌, ◌++◌, length, arith, length-replicate,
  append_assoc,
}
use wrensong_http_server.Cstring.{Chars, NonZero, text_of}
use wrensong_http_server.Exec.{done}
use wrensong_http_server.Config.Problem.{Policy}
use wrensong_http_server.Config.Sink.{Sink, open_section}
use wrensong_http_server.Config.Reader.{Mode, section, key, Reader, switch, take_char, run}
use wrensong_http_server.Config.Reader.Buffer.{zeros, line_so_far, grow_lem, After, length-line}

-- One character takes the reader to this line.
pub step_After :
    (e : Policy) (m m' : Mode) (xs ys : Chars) (n : ℕ) (r r' : Reader) (c : ℕ)
    → 2 ≤ length xs + n
    → ((k : ℕ)
        → (j : ℕ) × (switch e c (line_so_far m xs (suc (suc k)) r) ≡ done (line_so_far m' ys j r'))
          × (2 ≤ length ys + j))
    → After e m' ys r' (line_so_far m xs n r) (c ∷ [])
unfolding run take_char
step_After e m m' xs ys n r r' c two step =
    let (k, grown) = grow_lem m xs n r two in
    let (j, stepped, enough) = step k in
    record { left = j; enough = enough; runs = λ rest. rw (grown, stepped) }

pub After-append :
    (e : Policy) (m m' : Mode) (xs ys : Chars) (r r' from : Reader) (v w : Chars)
    → (a : After e m xs r from v) → After e m' ys r' (line_so_far m xs a.left r) w
    → After e m' ys r' from (v ++ w)
After-append e m m' xs ys r r' from v w a b = record {
  left = b.left;
  enough = b.enough;
  runs = λ rest. rw (append_assoc v w rest) (a.runs (w ++ rest) ∙ b.runs rest);
}

-- `[` at the start of a line
pub open_bracket :
    (e : Policy) (m : Mode) (n : ℕ) (r : Reader)
    → 2 ≤ n
    → After e section [] r (line_so_far m [] n r) (b'[' ∷ [])
unfolding switch
open_bracket e m n r two =
    step_After e m section [] [] n r r b'[' (omega arith) (λ k. (suc (suc k), refl, omega arith))

pub text_of-line : (xs : Chars) (n : ℕ) → NonZero xs → text_of (xs ++ zeros (suc n)) ≡ done xs
unfolding text_of
text_of-line [] n h = refl
text_of-line (zero ∷ xs) n h = absurd (omega arith)
text_of-line (suc c ∷ xs) n h = rw (text_of-line xs n h.1)

-- `]` behind the name of a section
pub close_bracket :
    (e : Policy) (xs : Chars) (n : ℕ) (r : Reader) (k' : Sink)
    → NonZero xs
    → 2 ≤ length xs + n
    → open_section xs r.sink ≡ done k'
    → After e key [] (record r { sink = k' }) (line_so_far section xs n r) (b']' ∷ [])
unfolding switch
close_bracket e xs n r k' nz two opened =
    step_After e section key xs [] n r (record r { sink = k' }) b']' two
      (λ k. (
        length xs + suc (suc k),
        rw (text_of-line xs (suc k) nz, opened, length-line xs (suc (suc k))),
        omega arith,
      ))

-- The end of an empty line
pub empty_line :
    (e : Policy) (n : ℕ) (r : Reader)
    → 2 ≤ n
    → After e key [] (record r { line = r.line + 1 }) (line_so_far key [] n r) (b'\n' ∷ [])
unfolding switch
empty_line e n r two =
    step_After e key key [] [] n r (record r { line = r.line + 1 }) b'\n' (omega arith)
      (λ k. (suc (suc k), rw (length-replicate k zero), omega arith))
