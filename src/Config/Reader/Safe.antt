-- ===== src/Config/Reader/Safe.antt =====
-- The reader on files of any content, as long as their lines are short.
use wrensong_http_server.Prelude.{
  ℕ, ◌+◌, ◌<◌, ◌≤◌, ◌≡◌, ◌≢◌, refl, sym, Bool, true, false, not, ◌&&◌, ◌||◌, [], ◌∷◌, replicate,
  arith, ◌==◌, if◌then◌else◌,
}
use mathlib.Core.Path.{subst}
use wrensong_http_server.Cstring.{Chars}
use wrensong_http_server.Exec.{Exec, done, Safely, Safely-bind, Safely-if, Safely-mono}
use wrensong_http_server.Config.Problem.{Policy, read_error}
use wrensong_http_server.Config.Sink.{report, Sink}
use wrensong_http_server.Config.Reader.{
  section, Reader, put, comment_byte, take_char, run, on_comment, on_space, on_other, on_equals,
  on_newline, on_close, switch, grow, read, start, finish,
}
use wrensong_http_server.Config.Reader.Sound.{Sound, exits, report-Safely}
use wrensong_http_server.Config.Reader.Within.{
  Within, weaken, put-Safely, on_other-Safely, on_space-Safely, on_equals-Safely, on_comment-Safely,
}
use wrensong_http_server.Config.Reader.LineEnd.{long_buf, on_newline-Safely, on_close-Safely}

-- The bytes since the line was last cleared, at most, and whether a comment may have begun since the last end
-- of a line. Behind a comment the end of the line clears nothing.
abbrev next_count : ℕ → Bool → ℕ → ℕ
next_count k may c = if not may && (c == b'\n' || c == b']') then 0 else k + 1

abbrev next_may : Bool → ℕ → Bool
next_may may c = not (c == b'\n') && (may || (c == b';' || c == b'#'))

-- No more than 126 bytes from one place where the line is cleared to the next
abbrev pub HasShortLines : ℕ → Bool → Chars → Type 0
HasShortLines k may [] = Unit {0}
HasShortLines k may (c ∷ cs) = (k < 126) × HasShortLines (next_count k may c) (next_may may c) cs

next_count_few : (k : ℕ) (may : Bool) (c : ℕ) → k < 126 → next_count k may c ≤ 126
next_count_few k may c h = ground arith

next_count_kept : (k : ℕ) (may : Bool) (c : ℕ) → c ≢ b'\n' → c ≢ b']' → next_count k may c ≡ k + 1
next_count_kept k may c n b = ground arith

next_count_comment : (k : ℕ) (may : Bool) (c : ℕ) → may ≡ true → next_count k may c ≡ k + 1
next_count_comment k may c h = ground arith

next_may_kept : (may : Bool) (c : ℕ) → c ≢ b'\n' → may ≡ true → next_may may c ≡ true
next_may_kept may c n h = ground arith

next_may_begun : (may : Bool) (c : ℕ) → (c == b';' || c == b'#') ≡ true → next_may may c ≡ true
next_may_begun may c h = ground arith

module _ (p : Policy) (k : ℕ) (may : Bool) (c : ℕ) (small : k < 126) where
  abbrev Next : Reader → Type 0
  Next = Within (next_count k may c) (next_may may c)

  -- A byte that is no end of a line and no bracket
  kept :
      (m : Exec Reader)
      → c ≢ b'\n'
      → c ≢ b']'
      → Safely (exits p) (Within (k + 1) may) m
      → Safely (exits p) Next m
  kept m n b h =
      Safely-mono (exits p) (Within (k + 1) may) Next m
        (λ r.
          weaken (k + 1) (next_count k may c) may (next_may may c) r
            (omega (arith, next_count_kept k may c n b)) (next_count_few k may c small)
            (next_may_kept may c n))
        h

  -- The line is cleared.
  cleared : (m : Exec Reader) → Safely (exits p) (Within 0 false) m → Safely (exits p) Next m
  cleared m h =
      Safely-mono (exits p) (Within 0 false) Next m
        (λ r.
          weaken 0 (next_count k may c) false (next_may may c) r (omega arith)
            (next_count_few k may c small) (λ e. absurd (cc e)))
        h

  switch-Safely :
      (r : Reader) → r.in_comment ≡ false → Within k may r → Safely (exits p) Next (switch p c r)
  unfolding switch
  switch-Safely r outside w =
      Safely-if (exits p) Next (c == b' ') _ _
        (λ e.
          kept (on_space r) (λ q. ground arith) (λ q. ground arith)
            (on_space-Safely (exits p) k may small r w))
        (λ e1.
          Safely-if (exits p) Next (c == b';' || c == b'#') _ _
            (λ e. begins e (λ q. ground arith) (λ q. ground arith))
            (λ e2.
              Safely-if (exits p) Next (c == b'\r') _ _
                (λ e. kept (done r) (λ q. ground arith) (λ q. ground arith) still)
                (λ e3.
                  Safely-if (exits p) Next (c == b'\n') _ _
                    (λ e. cleared (on_newline p r) (on_newline-Safely p k may r outside w))
                    (λ e4.
                      Safely-if (exits p) Next (c == b'[') _ _
                        (λ e.
                          kept (done (record r { mode = section })) (λ q. ground arith)
                            (λ q. ground arith) (in_section still))
                        (λ e5.
                          Safely-if (exits p) Next (c == b']') _ _
                            (λ e.
                              cleared (on_close r) (on_close-Safely (exits p) k may r outside w))
                            (λ e6.
                              Safely-if (exits p) Next (c == b'=' || c == b':') _ _
                                (λ e.
                                  kept (on_equals c r.mode r) (λ q. ground arith)
                                    (λ q. ground arith)
                                    (on_equals-Safely (exits p) k may small c r.mode r w))
                                (λ e7.
                                  kept (on_other c r) (λ q. ground arith) (λ q. ground arith)
                                    (on_other-Safely (exits p) k may small c r w))))))))
    where
      still : Within (k + 1) may r
      still = weaken k (k + 1) may may r (omega arith) (omega arith) (λ e. e) w

      in_section : Within (k + 1) may r → Within (k + 1) may (record r { mode = section })
      in_section v = record {
        front = v.front;
        buf_is = v.buf_is;
        long = v.long;
        used = v.used;
        few = v.few;
        inside = v.inside;
        valued = tt;
        sound = v.sound;
      }

      begins :
          (c == b';' || c == b'#') ≡ true
          → c ≢ b'\n'
          → c ≢ b']'
          → Safely (exits p) Next (on_comment c r.mode r)
      begins e n b =
          Safely-mono (exits p) (Within (k + 1) true) Next (on_comment c r.mode r)
            (λ r'.
              weaken (k + 1) (next_count k may c) true (next_may may c) r'
                (omega (arith, next_count_kept k may c n b)) (next_count_few k may c small)
                (λ _. next_may_begun may c e))
            (on_comment-Safely (exits p) k may c r.mode r small w)

  grow_same : (r : Reader) → Within k may r → grow r ≡ r
  unfolding grow
  grow_same r w = ground (arith, w.used, w.few, long_buf k may r w)

  comment_byte-Safely :
      (r : Reader) → r.in_comment ≡ true → Within k may r → Safely (exits p) Next (comment_byte c r)
  unfolding comment_byte
  comment_byte-Safely r inside w =
      Safely-if (exits p) Next (c == b'\n') _ _
        (λ e.
          weaken k (next_count k may c) false (next_may may c) (record r { in_comment = false })
            (omega (arith, counted)) (next_count_few k may c small) (λ q. absurd (cc q)) ended)
        (λ e.
          Safely-mono (exits p) (Within (k + 1) may) Next (put c r)
            (λ r'.
              weaken (k + 1) (next_count k may c) may (next_may may c) r' (omega (arith, counted))
                (next_count_few k may c small) (next_may_kept may c (λ q. ground arith)))
            (put-Safely (exits p) k may small c r w))
    where
      counted : next_count k may c ≡ k + 1
      counted = next_count_comment k may c (w.inside inside)

      ended : Within k false (record r { in_comment = false })
      ended = record {
        front = w.front;
        buf_is = w.buf_is;
        long = w.long;
        used = w.used;
        few = w.few;
        inside = λ e. e;
        valued = w.valued;
        sound = w.sound;
      }

  take_char-Safely : (r : Reader) → Within k may r → Safely (exits p) Next (take_char p c r)
  unfolding take_char
  take_char-Safely r w =
      Safely-if (exits p) Next r.in_comment _ _ (λ e. comment_byte-Safely r e w)
        (λ e.
          subst (λ z. Safely (exits p) Next (switch p c z)) (sym (grow_same r w))
            (switch-Safely r e w))

run-Safely :
    (p : Policy) (cs : Chars) (k : ℕ) (may : Bool) (r : Reader)
    → HasShortLines k may cs
    → Within k may r
    → Safely (exits p) (λ r'. Sound r'.sink) (run p r cs)
unfolding run
run-Safely p [] k may r h w = w.sound
run-Safely p (c ∷ cs) k may r h w =
    Safely-bind (exits p) (λ r'. Sound r'.sink) (take_char p c r) _
      (take_char-Safely p k may c h.0 r w)
      (λ r' w'. run-Safely p cs (next_count k may c) (next_may may c) r' h.1 w')

-- A file of any content cannot make the reader leave its buffer, or follow a null pointer, as long as its
-- lines are short: where no more than 126 bytes lie between two places where the reader clears the line, into
-- a valid table, or callbacks of which both are set, the reader ends, and leaves the table valid; it leaves
-- the program only where the policy says that an error does. A line that may end in a comment counts together
-- with the one behind it.
pub read-Safely :
    (p : Policy) (input : Chars) (failed : Bool) (k : Sink)
    → HasShortLines 0 false input
    → Sound k
    → Safely (exits p) (λ o. (o.0 ≡ true) × Sound o.1) (read p input failed k)
unfolding read
read-Safely p input failed k h s =
    Safely-bind (exits p) Good (run p (start k) input) (finish p failed)
      (run-Safely p input 0 false (start k) h begin)
      (λ r sound.
        Safely-bind (exits p) Good (if failed then report p read_error r.sink else done r.sink)
          (λ k'. done (true, k'))
          (Safely-if (exits p) Sound failed _ _ (λ _. report-Safely p read_error r.sink sound)
            (λ _. sound))
          (λ k' sound'. (refl, sound')))
  where
    Good : Bool × Sink → Type 0
    Good o = (o.0 ≡ true) × Sound o.1

    begin : Within 0 false (start k)
    begin = record {
      front = replicate 127 0;
      buf_is = refl;
      long = refl;
      used = omega arith;
      few = omega arith;
      inside = λ e. e;
      valued = tt;
      sound = s;
    }
