-- ===== src/Config/Reader/LineEnd.antt =====
-- The reader inside of its buffer of 128 bytes: the rounds that end a line.
use wrensong_http_server.Prelude.{
  ℕ, ◌+◌, ◌≡◌, refl, sym, ap, ◌∙◌, Bool, false, [], ◌∷◌, length, replicate, arith, ◌==◌,
  length-append,
}
use mathlib.Core.Path.{subst}
use wrensong_http_server.Cstring.{Chars, text_from}
use wrensong_http_server.Exec.{Exec, done, ◌>>=◌, Safely, Safely-bind, Safely-if}
use wrensong_http_server.Config.Problem.{Policy, missing_bracket, missing_equals}
use wrensong_http_server.Config.Sink.{report, file_entry, open_section, Sink}
use wrensong_http_server.Config.Reader.{
  text_at, Mode, section, key, value, comment, Reader, on_newline, on_close, end_line, fresh_line,
}
use wrensong_http_server.Config.Table.{Entry}
use wrensong_http_server.Config.Reader.Sound.{
  Sound, exits, report-Safely, open_section-Safely, file_entry-Safely,
}
use wrensong_http_server.Config.Reader.Terminated.{HasValue, text_from-last, text_at-last}
use wrensong_http_server.Config.Reader.Within.{Within}

line_text :
    (j : ℕ) (may : Bool) (r : Reader) → Within j may r → (s : Chars) × (text_from r.buf 0 ≡ done s)
line_text j may r w =
    let (s, e) = text_from-last w.front 0 (omega arith) in (s, ap (λ b. text_from b 0) w.buf_is ∙ e)

-- What the end of a line leaves
record LineEnded (r to : Reader) : Type 0 where
  length_is : length to.buf ≡ 128
  same_comment : to.in_comment ≡ r.in_comment
  sound : Sound to.sink

fresh_line-Within :
    (r to : Reader) → LineEnded r to → r.in_comment ≡ false → Within 0 false (fresh_line to)
unfolding fresh_line
fresh_line-Within r to h outside = record {
  front = replicate 127 0;
  buf_is = ap (λ n. replicate n 0) h.length_is;
  long = refl;
  used = omega arith;
  few = omega arith;
  inside = λ e. absurd (cc (h.same_comment, outside));
  valued = tt;
  sound = h.sound;
}

pub long_buf : (j : ℕ) (may : Bool) (r : Reader) → Within j may r → length r.buf ≡ 128
long_buf j may r w = ap length w.buf_is ∙ omega (arith, w.long, length-append w.front (0 ∷ []))

module _ (p : Policy) (j : ℕ) (may : Bool) where
  -- A problem reported, or an entry stored, at the end of a line
  sink_to :
      (r : Reader) (n : Exec Sink)
      → Within j may r
      → Safely (exits p) Sound n
      → Safely (exits p) (LineEnded r) (n >>= λ sink. done (record r { sink = sink }))
  sink_to r n w h =
      Safely-bind (exits p) (LineEnded r) n _ h (λ sink sound. record {
        length_is = long_buf j may r w;
        same_comment = refl;
        sound = sound;
      })

  end_line-Safely :
      (m : Mode) (r : Reader)
      → HasValue 127 m r.value_at
      → Within j may r
      → Safely (exits p) (LineEnded r) (end_line p m r)
  unfolding end_line
  end_line-Safely section r h w =
      let (name, e) = line_text j may r w in
      rw e (
        sink_to r (report p (missing_bracket name) r.sink) w
          (report-Safely p (missing_bracket name) r.sink w.sound))
  end_line-Safely comment r h w =
      let (k, e) = line_text j may r w in
      let entry : Entry = record { key = k; value = [] } in
      rw e
        (sink_to r (file_entry entry r.sink) w (file_entry-Safely (exits p) entry r.sink w.sound))
  end_line-Safely key r h w =
      let (k, e) = line_text j may r w in
      Safely-if (exits p) (LineEnded r) (r.position == 0) (done r) _
        (λ _. record { length_is = long_buf j may r w; same_comment = refl; sound = w.sound })
        (λ _. rw e (
          sink_to r (report p (missing_equals k) r.sink) w
            (report-Safely p (missing_equals k) r.sink w.sound)))
  end_line-Safely value r h w =
      let (k, e) = line_text j may r w in
      let (v, e') =
        text_at-last w.front r.value_at (subst (λ n. HasValue n value r.value_at) (sym w.long) h) in
      let entry : Entry = record { key = k; value = v } in
      rw (e, ap (λ b. text_at b r.value_at) w.buf_is ∙ e')
        (Safely-bind (exits p) (LineEnded r) (file_entry entry r.sink) _
          (file_entry-Safely (exits p) entry r.sink w.sound)
          (λ sink sound. record {
            length_is = long_buf j may r w;
            same_comment = refl;
            sound = sound;
          }))

pub on_newline-Safely :
    (p : Policy) (j : ℕ) (may : Bool) (r : Reader)
    → r.in_comment ≡ false
    → Within j may r
    → Safely (exits p) (Within 0 false) (on_newline p r)
unfolding on_newline
on_newline-Safely p j may r outside w =
    let r1 = record r { line = r.line + 1 } in
    Safely-bind (exits p) (Within 0 false) (end_line p r.mode r1) _
      (end_line-Safely p j may r.mode r1 w.valued (record {
        front = w.front;
        buf_is = w.buf_is;
        long = w.long;
        used = w.used;
        few = w.few;
        inside = w.inside;
        valued = w.valued;
        sound = w.sound;
      }))
      (λ to h. fresh_line-Within r1 to h outside)

pub on_close-Safely :
    (stops : Bool) (j : ℕ) (may : Bool) (r : Reader)
    → r.in_comment ≡ false
    → Within j may r
    → Safely stops (Within 0 false) (on_close r)
unfolding on_close
on_close-Safely stops j may r outside w =
    let (name, e) = line_text j may r w in
    rw e (
      Safely-bind stops (Within 0 false) (open_section name r.sink) _
        (open_section-Safely stops name r.sink w.sound)
        (λ sink sound.
          fresh_line-Within r (record r { sink = sink })
            (record { length_is = long_buf j may r w; same_comment = refl; sound = sound.0 })
            outside))
