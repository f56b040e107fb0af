-- ===== src/Config/Reader/Overflow.antt =====
-- The loop over a comment, and the end of the buffer.
use wrensong_http_server.Prelude.{
  ℕ, zero, suc, ◌+◌, ◌<◌, ◌≤◌, ◌≡◌, ◌≢◌, refl, ap, ◌∙◌, Bool, true, false, List, [], ◌∷◌, ◌++◌,
  length, replicate, ltb, ==_iff, if◌then◌else◌, arith, Bool-cases, inl, inr,
}
use wrensong_http_server.Cstring.{Chars}
use wrensong_http_server.Exec.{done, fault, write_at, write_at_outside}
use wrensong_http_server.Config.Problem.{Policy}
use wrensong_http_server.Config.Table.{Table}
use wrensong_http_server.Config.Reader.{
  Reader, put, comment_byte, take_char, comment, run, table_read, on_comment, switch, grow, read,
  start, into_table,
}

-- No newline inside
abbrev pub InLine : Chars → Type 0
InLine [] = Unit {0}
InLine (c ∷ cs) = (c ≢ b'\n') × InLine cs

write_at_inside :
    (xs : List ℕ) (i v : ℕ)
    → i < length xs
    → (ys : List ℕ) × (write_at xs i v ≡ done ys) × (length ys ≡ length xs)
unfolding write_at
write_at_inside [] i v h = absurd (omega arith)
write_at_inside (x ∷ xs) zero v h = (v ∷ xs, refl, refl)
write_at_inside (x ∷ xs) (suc i) v h =
    let (ys, e, same) = write_at_inside xs i v (omega arith) in (x ∷ ys, rw e, omega (arith, same))

pub comment_round :
    (e : Policy) (c : ℕ) (r : Reader) → r.in_comment ≡ true → c ≢ b'\n' → take_char e c r ≡ put c r
unfolding take_char comment_byte
comment_round e c r inside other =
    ap (λ b. if b then comment_byte c r else switch e c (grow r)) inside
    ∙ ap (λ b. if b then done (record r { in_comment = false }) else put c r) {y = false}
        (ground (arith, ==_iff c b'\n'))

comment_run :
    (e : Policy) (cs rest : Chars) (r : Reader)
    → r.in_comment ≡ true
    → InLine cs
    → r.position ≤ length r.buf
    → length r.buf < r.position + length cs
    → run e r (cs ++ rest) ≡ fault
unfolding run put
comment_run e [] rest r inside h low high = absurd (omega arith)
comment_run e (c ∷ cs) rest r inside h low high =
    elim (Bool-cases (ltb r.position (length r.buf))) [
      | inl room ↦
          let (b, written, same) = write_at_inside r.buf r.position c (ground arith) in
          rw (comment_round e c r inside h.0) (
            rw written (
              comment_run e cs rest (record r { buf = b; position = r.position + 1 }) inside h.1
                (ground (arith, same)) (omega (arith, same))))
      | inr full ↦
          rw (comment_round e c r inside h.0)
            (rw (write_at_outside r.buf r.position c (ground arith)) refl)
    ]

-- A file that starts with a comment of more than 128 bytes, the semicolon included, makes the reader
-- write behind the end of its buffer, whatever follows and whatever table it reads into.
pub comment_overflows :
    (e : Policy) (cs rest : Chars) (failed : Bool) (t : Table)
    → InLine cs
    → 128 ≤ length cs
    → table_read e (b';' ∷ (cs ++ rest)) failed t ≡ fault
unfolding table_read read run take_char switch on_comment grow put write_at
comment_overflows e cs rest failed t h long = rw (
    comment_run e cs rest
      (record (start (into_table t)) {
        in_comment = true;
        mode = comment;
        buf = b';' ∷ replicate 127 0;
        position = 1;
      })
      refl h (omega arith) (omega arith))
