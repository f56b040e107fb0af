-- ===== src/Config/Reader/LastLine.antt =====
-- What the reader does between two ends of a line.
use wrensong_http_server.Prelude.{
  ℕ, zero, suc, ◌≡◌, ◌≢◌, refl, sym, ap, ◌∙◌, Bool, true, false, ◌||◌, [], ◌∷◌, ◌++◌, length, ltb,
  ◌==◌, ==_iff, if◌then◌else◌, arith, Bool-cases, inl, inr, ◌⊎◌, ◌-◌, false,
}
use wrensong_http_server.Cstring.{Chars}
use wrensong_http_server.Exec.{Exec, done, quit, fault, ◌>>=◌, write_at}
use wrensong_http_server.Config.Problem.{Policy}
use wrensong_http_server.Config.Table.{Table}
use wrensong_http_server.Config.Sink.{Sink}
use wrensong_http_server.Config.Reader.{
  Mode, key, value, section, comment, Reader, put, put_spaces, comment_byte, take_char, run,
  on_comment, on_space, on_other, on_equals, first_byte, switch, grow, start, read, table_read,
  into_table,
}

-- A run that, if it ends, ends with the sink it had
abbrev Keeps : Sink → Exec Reader → Type 0
Keeps k (done r) = r.sink ≡ k
Keeps k quit = Unit {0}
Keeps k fault = Unit {0}

Keeps-bind {ℓ} :
    {A : Type ℓ} (k : Sink) (m : Exec A) (f : A → Exec Reader)
    → ((a : A) → Keeps k (f a))
    → Keeps k (m >>= f)
Keeps-bind k (done a) f h = h a
Keeps-bind k quit f h = tt
Keeps-bind k fault f h = tt

Keeps-then :
    (k : Sink) (m : Exec Reader) (f : Reader → Exec Reader)
    → Keeps k m
    → ((r : Reader) → r.sink ≡ k → Keeps k (f r))
    → Keeps k (m >>= f)
Keeps-then k (done r) f g h = h r g
Keeps-then k quit f g h = tt
Keeps-then k fault f g h = tt

put-Keeps : (c : ℕ) (r : Reader) (k : Sink) → r.sink ≡ k → Keeps k (put c r)
unfolding put
put-Keeps c r k e = Keeps-bind k (write_at r.buf r.position c) _ (λ b. e)

put_spaces-Keeps : (n : ℕ) (r : Reader) (k : Sink) → r.sink ≡ k → Keeps k (put_spaces n r)
unfolding put_spaces
put_spaces-Keeps zero r k e = e
put_spaces-Keeps (suc n) r k e =
    Keeps-then k (put b' ' r) _ (put-Keeps b' ' r k e) (λ r' e'. put_spaces-Keeps n r' k e')

on_other-Keeps : (c : ℕ) (r : Reader) (k : Sink) → r.sink ≡ k → Keeps k (on_other c r)
unfolding on_other
on_other-Keeps c r k e =
    Keeps-then k (put_spaces r.spaces r) _ (put_spaces-Keeps r.spaces r k e)
      (λ r' e'. put-Keeps c (record r' { spaces = 0 }) k e')

on_equals-Keeps :
    (c : ℕ) (m : Mode) (r : Reader) (k : Sink) → r.sink ≡ k → Keeps k (on_equals c m r)
unfolding on_equals
on_equals-Keeps c key r k e =
    Keeps-then k (put 0 (record r { mode = value })) _ (put-Keeps 0 (record r { mode = value }) k e)
      (λ r' e'. e')
on_equals-Keeps c section r k e = on_other-Keeps c r k e
on_equals-Keeps c value r k e = on_other-Keeps c r k e
on_equals-Keeps c comment r k e = on_other-Keeps c r k e

on_comment-Keeps :
    (c : ℕ) (m : Mode) (r : Reader) (k : Sink) → r.sink ≡ k → Keeps k (on_comment c m r)
unfolding on_comment
on_comment-Keeps c value r k e = put-Keeps c r k e
on_comment-Keeps c key r k e = put-Keeps c (record r { mode = comment; in_comment = true }) k e
on_comment-Keeps c section r k e = put-Keeps c (record r { mode = comment; in_comment = true }) k e
on_comment-Keeps c comment r k e = put-Keeps c (record r { mode = comment; in_comment = true }) k e

if-Keeps :
    (k : Sink) (b : Bool) (x y : Exec Reader) → Keeps k x → Keeps k y → Keeps k (if b then x else y)
if-Keeps k true x y h g = h
if-Keeps k false x y h g = g

on_space-Keeps : (r : Reader) (k : Sink) → r.sink ≡ k → Keeps k (on_space r)
unfolding on_space
on_space-Keeps r k e =
    Keeps-bind k (first_byte r.mode r) _
      (λ c. elim (Bool-cases (c == 0)) [ inl q ↦ rw q e | inr q ↦ rw q e ])

switch-Keeps :
    (e : Policy) (c : ℕ) (r : Reader) (k : Sink)
    → c ≢ b'\n'
    → c ≢ b']'
    → r.sink ≡ k
    → Keeps k (switch e c r)
unfolding switch
switch-Keeps e c r k n b s = if-Keeps k (c == b' ') _ _ (on_space-Keeps r k s) (
    if-Keeps k (c == b';' || c == b'#') _ _ (on_comment-Keeps c r.mode r k s) (
      if-Keeps k (c == b'\r') _ _ s (
        rw (newline) (
          if-Keeps k (c == b'[') _ _ s (
            rw (close) (
              if-Keeps k (c == b'=' || c == b':') _ _ (on_equals-Keeps c r.mode r k s)
                (on_other-Keeps c r k s)))))))
  where
    newline : (c == b'\n') ≡ false
    newline = ground (arith, ==_iff c b'\n')

    close : (c == b']') ≡ false
    close = ground (arith, ==_iff c b']')

take_char-Keeps :
    (e : Policy) (c : ℕ) (r : Reader) (k : Sink)
    → c ≢ b'\n'
    → c ≢ b']'
    → r.sink ≡ k
    → Keeps k (take_char e c r)
unfolding take_char comment_byte grow
take_char-Keeps e c r k n b s =
    if-Keeps k r.in_comment _ _ (if-Keeps k (c == b'\n') _ _ s (put-Keeps c r k s))
      (switch-Keeps e c (grow r) k n b (grow-sink r ∙ s))
  where
    grow-sink : (r : Reader) → (grow r).sink ≡ r.sink
    grow-sink r = elim (Bool-cases (ltb (length r.buf - 2) r.position)) [
      | inl q ↦ rw q
      | inr q ↦ rw q
    ]

-- No newline and no closing bracket
abbrev pub Unended : Chars → Type 0
Unended [] = Unit {0}
Unended (c ∷ cs) = (c ≢ b'\n') × (c ≢ b']') × Unended cs

run-Keeps :
    (e : Policy) (cs : Chars) (r : Reader) (k : Sink)
    → Unended cs
    → r.sink ≡ k
    → Keeps k (run e r cs)
unfolding run
run-Keeps e [] r k h s = s
run-Keeps e (c ∷ cs) r k h s =
    Keeps-then k (take_char e c r) _ (take_char-Keeps e c r k h.0 h.1 s)
      (λ r' s'. run-Keeps e cs r' k h.2 s')

run-append :
    (e : Policy) (xs ys : Chars) (r : Reader)
    → run e r (xs ++ ys) ≡ (run e r xs >>= λ r'. run e r' ys)
unfolding run
run-append e [] ys r = refl
run-append e (c ∷ xs) ys r = elim (Exec-cases (take_char e c r)) [
  | inl (r', q) ↦ rw q (run-append e xs ys r')
  | inr (inl q) ↦ rw q
  | inr (inr q) ↦ rw q
]
  where
    Exec-cases : (m : Exec Reader) → ((r : Reader) × (m ≡ done r)) ⊎ (m ≡ quit) ⊎ (m ≡ fault)
    Exec-cases (done r) = inl (r, refl)
    Exec-cases quit = inr (inl refl)
    Exec-cases fault = inr (inr refl)

-- How `_ini_read` ends behind its loop, where nothing failed
abbrev ending : Exec Reader → Exec (Bool × Sink)
ending m = m >>= λ r. done (true, r.sink)

kept :
    (k : Sink) (m : Exec Reader) (b : Bool) (to : Sink)
    → Keeps k m
    → ending m ≡ done (b, to)
    → ending (done (start k)) ≡ done (b, to)
kept k (done r) b to h e = ap (λ x. done (true, x)) (sym h) ∙ e
kept k quit b to h e = cc
kept k fault b to h e = cc

-- Where the reader ends on a file, it ends the same way on the file without its last characters, as
-- long as no newline and no closing bracket is among these: a last line that is not ended is lost.
pub last_line_lost :
    (e : Policy) (input last : Chars) (t : Table) {b : Bool} {k : Sink}
    → Unended last
    → table_read e (input ++ last) false t ≡ done (b, k)
    → table_read e input false t ≡ done (b, k)
unfolding table_read read
last_line_lost e input last t {b = b} {k = k} h q =
    go (run e (start (into_table t)) input) (rw run-append at q)
  where
    go : (m : Exec Reader) → ending (m >>= λ r. run e r last) ≡ done (b, k) → ending m ≡ done (b, k)
    go (done r) q = kept r.sink (run e r last) b k (run-Keeps e last r r.sink h refl) q
    go quit q = q
    go fault q = q
