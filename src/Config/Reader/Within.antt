-- ===== src/Config/Reader/Within.antt =====
-- The reader inside of its buffer of 128 bytes: the rounds that go on with a line.
use wrensong_http_server.Prelude.{
  ℕ, ◌+◌, ◌<◌, ◌≤◌, ◌≡◌, refl, sym, ◌∙◌, Bool, true, false, List, [], ◌∷◌, ◌++◌, length, arith,
  ◌==◌, if◌then◌else◌,
}
use mathlib.Core.Path.{subst}
use wrensong_http_server.Exec.{Safely}
use wrensong_http_server.Config.Reader.{
  Mode, section, key, value, comment, Reader, put, on_comment, on_space, on_other, on_equals,
}
use wrensong_http_server.Config.Reader.Sound.{Sound}
use wrensong_http_server.Config.Reader.Terminated.{
  HasValue, first_byte_lem, put_lem, put_spaces_lem,
}

-- Where at most `j` bytes of the buffer are used or asked for by the spaces held back, and where the reader
-- may be in a comment
pub record Within (j : ℕ) (may : Bool) (r : Reader) : Type 0 where
  pub front : List ℕ
  pub buf_is : r.buf ≡ front ++ (0 ∷ [])
  pub long : length front ≡ 127
  pub used : r.position + r.spaces ≤ j
  pub few : j ≤ 126
  pub inside : r.in_comment ≡ true → may ≡ true
  pub valued : HasValue 127 r.mode r.value_at
  pub sound : Sound r.sink

pub weaken :
    (j k : ℕ) (may might : Bool) (r : Reader)
    → j ≤ k
    → k ≤ 126
    → (may ≡ true → might ≡ true)
    → Within j may r
    → Within k might r
weaken j k may might r h few f w = record {
  front = w.front;
  buf_is = w.buf_is;
  long = w.long;
  used = omega (arith, w.used);
  few = few;
  inside = λ e. f (w.inside e);
  valued = w.valued;
  sound = w.sound;
}

module _ (stops : Bool) (k : ℕ) (may : Bool) (small : k < 126) where
  pub put-Safely :
      (c : ℕ) (r : Reader) → Within k may r → Safely stops (Within (k + 1) may) (put c r)
  put-Safely c r w =
      let (ys, e, same) = put_lem c r w.front w.buf_is (omega (arith, w.used, w.long)) in
      rw e (record {
        front = ys;
        buf_is = refl;
        long = same ∙ w.long;
        used = omega (arith, w.used);
        few = omega arith;
        inside = w.inside;
        valued = w.valued;
        sound = w.sound;
      })

  pub on_other-Safely :
      (c : ℕ) (r : Reader) → Within k may r → Safely stops (Within (k + 1) may) (on_other c r)
  unfolding on_other
  on_other-Safely c r w =
      let (ys, spaced, same) =
        put_spaces_lem r.spaces r w.front w.buf_is (omega (arith, w.used, w.long)) in
      let r1 = record r { buf = ys ++ (0 ∷ []); position = r.position + r.spaces; spaces = 0 } in
      let (zs, e, same') = put_lem c r1 ys refl (omega (arith, w.used, w.long, same)) in
      rw spaced (
        rw e (record {
          front = zs;
          buf_is = refl;
          long = same' ∙ same ∙ w.long;
          used = omega (arith, w.used);
          few = omega arith;
          inside = w.inside;
          valued = w.valued;
          sound = w.sound;
        }))

  pub on_space-Safely :
      (r : Reader) → Within k may r → Safely stops (Within (k + 1) may) (on_space r)
  unfolding on_space
  on_space-Safely r w =
      let (c, e) =
        first_byte_lem r.mode r w.front w.buf_is
          (subst (λ n. HasValue n r.mode r.value_at) (sym w.long) w.valued) in
      rw e (held_back (c == 0))
    where
      held_back :
          (b : Bool) → Within (k + 1) may (if b then r else record r { spaces = r.spaces + 1 })
      held_back true = weaken k (k + 1) may may r (omega arith) (omega arith) (λ e. e) w
      held_back false = record {
        front = w.front;
        buf_is = w.buf_is;
        long = w.long;
        used = omega (arith, w.used);
        few = omega arith;
        inside = w.inside;
        valued = w.valued;
        sound = w.sound;
      }

  pub on_equals-Safely :
      (c : ℕ) (m : Mode) (r : Reader)
      → Within k may r
      → Safely stops (Within (k + 1) may) (on_equals c m r)
  unfolding on_equals
  on_equals-Safely c key r w =
      let (ys, e, same) =
        put_lem 0 (record r { mode = value }) w.front w.buf_is (omega (arith, w.used, w.long)) in
      rw e (record {
        front = ys;
        buf_is = refl;
        long = same ∙ w.long;
        used = omega (arith, w.used);
        few = omega arith;
        inside = w.inside;
        valued = omega (arith, w.used);
        sound = w.sound;
      })
  on_equals-Safely c section r w = on_other-Safely c r w
  on_equals-Safely c value r w = on_other-Safely c r w
  on_equals-Safely c comment r w = on_other-Safely c r w

-- A comment begins, or a byte of a value is kept.
pub on_comment-Safely :
    (stops : Bool) (k : ℕ) (may : Bool) (c : ℕ) (m : Mode) (r : Reader)
    → k < 126
    → Within k may r
    → Safely stops (Within (k + 1) true) (on_comment c m r)
unfolding on_comment
on_comment-Safely stops k may c m r small w = go m
  where
    begun : Within k true (record r { mode = comment; in_comment = true })
    begun = record {
      front = w.front;
      buf_is = w.buf_is;
      long = w.long;
      used = w.used;
      few = w.few;
      inside = λ e. refl;
      valued = tt;
      sound = w.sound;
    }

    go : (m : Mode) → Safely stops (Within (k + 1) true) (on_comment c m r)
    go value =
        put-Safely stops k true small c r
          (weaken k k may true r (omega arith) (omega arith) (λ e. refl) w)
    go section = put-Safely stops k true small c _ begun
    go key = put-Safely stops k true small c _ begun
    go comment = put-Safely stops k true small c _ begun
