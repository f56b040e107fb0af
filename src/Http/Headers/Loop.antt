-- ===== src/Http/Headers/Loop.antt =====
-- The loop over the headers on the text of a list of headers.
use wrensong_http_server.Prelude.{
  ℕ, zero, suc, ◌+◌, ◌≡◌, refl, ap, ◌∙◌, List, [], ◌∷◌, ◌++◌, length, take, Option, some, arith,
  append_assoc, length-append, All,
}
use mathlib.Core.Path.{subst}
use wrensong_http_server.Cstring.{Chars, text_from, byte_at-end}
use wrensong_http_server.Exec.{Exec, done, quit, fault, ◌>>=◌}
use wrensong_http_server.Http.Message.{Pointer}
use wrensong_http_server.Http.Spec.{Header, Meaning, heed_header, heed_all, headers_text, behind}
use wrensong_http_server.Http.Parse.{header_kind, Parser, headers}
use wrensong_http_server.Http.Parse.Pieces.{Free-NonZero, strsep-Free, text_from-piece}
use wrensong_http_server.Http.Headers.{
  Shows, Shows-append, Agrees, Agrees-append, heeded, heed-header_kind,
}
use wrensong_http_server.Http.Headers.Round.{IsPlain, up_to_value, behind_line, header_round}

-- What the loop leaves, started at the end of `pre`: the texts in `pre` stay, the body is
-- behind the cursor, and the headers are heeded.
pub record Loop (pre : List ℕ) (n : ℕ) (from : Parser) (body : Chars) (s' : Meaning) : Type 0 where
  pub to : Parser
  pub front : List ℕ
  pub ran : headers n from ≡ done to
  pub agrees : Agrees front to.request to.closing s'
  pub buf_is : to.buf ≡ front ++ body
  pub at_body : to.cursor ≡ some (length front)
  pub keeps : (at : Pointer) (o : Option Chars) → Shows pre at o → Shows front at o
  pub same_path : to.request.path ≡ from.request.path
  pub same_method : to.request.method ≡ from.request.method

bind-done :
    {A B : Type 0} (m : Exec A) (f : A → Exec B) {b : B}
    → (m >>= f) ≡ done b
    → (a : A) × (m ≡ done a) × (f a ≡ done b)
bind-done (done a) f h = (a, refl, h)
bind-done quit f h = cc
bind-done fault f h = cc

-- The empty line ends the loop.
empty_line :
    (pre body : List ℕ) (n : ℕ) (p : Parser) (s : Meaning)
    → Agrees pre p.request p.closing s
    → Loop pre
        (suc n)
        (record p { buf = pre ++ headers_text [] body; cursor = some (length pre) })
        body
        s
unfolding headers
empty_line pre body n p s a = record {
  to = record p { buf = (pre ++ added) ++ body; cursor = some (length (pre ++ added)) };
  front = pre ++ added;
  ran = rw (strsep-Free b'\r' pre [] (b'\n' ∷ body) (omega arith) tt) (
      rw (byte_at-end pre (b'\n' ∷ body) 0, append_assoc pre added body, length-append pre added)
        (ap (λ k. done (record p { buf = pre ++ (0 ∷ b'\n' ∷ body); cursor = some k }))
          {y = length pre + 2} (omega arith)));
  keeps = λ at o. Shows-append pre added at o;
  agrees = Agrees-append added a;
  buf_is = refl;
  at_body = refl;
  same_path = refl;
  same_method = refl;
}
  where
    added : List ℕ
    added = 0 ∷ b'\n' ∷ []

value_here :
    (pre : List ℕ) (name val : Chars)
    → IsPlain (name, val)
    → (post : List ℕ)
    → text_from (behind_line pre name val ++ post) (length (up_to_value pre name)) ≡ done val
value_here pre name val h post =
    rw
      (
        append_assoc (up_to_value pre name) (val ++ (0 ∷ b'\n' ∷ [])) post,
        append_assoc val (0 ∷ b'\n' ∷ []) post,
      )
      (text_from-piece (up_to_value pre name) val (b'\n' ∷ post)
        (Free-NonZero b'\r' val h.value_in_line))

restored :
    (t q : Parser)
    → t.buf ≡ q.buf
    → t.cursor ≡ q.cursor
    → t ≡ record t { buf = q.buf; cursor = q.cursor }
restored t q e f = ground arith

pub headers-Loop :
    (hs : List Header) (pre body : List ℕ) (n : ℕ) (p : Parser) (s s' : Meaning)
    → All IsPlain (take n hs)
    → Agrees pre p.request p.closing s
    → heed_all (take n hs) s ≡ done s'
    → Loop pre n
        (record p { buf = pre ++ headers_text hs body; cursor = some (length pre) })
        (behind n hs body)
        s'
unfolding heed_all headers
headers-Loop hs pre body zero p s s' plain a h = record {
  to = record p { buf = pre ++ headers_text hs body; cursor = some (length pre) };
  front = pre;
  ran = refl;
  agrees = subst (λ z. Agrees pre p.request p.closing z) {x = s} (cc) a;
  buf_is = refl;
  at_body = refl;
  keeps = λ at o k. k;
  same_path = refl;
  same_method = refl;
}
headers-Loop [] pre body (suc n) p s s' plain a h =
    empty_line pre body n p s' (subst (λ z. Agrees pre p.request p.closing z) {x = s} (cc) a)
headers-Loop ((name, val) ∷ hs) pre body (suc n) p s s' plain a h =
    let (s1, first, others) = bind-done (heed_header name val s) (λ z. heed_all (take n hs) z) h in
    let pre' = behind_line pre name val in
    let q = record p { buf = pre' ++ headers_text hs body; cursor = some (length pre') } in
    let here = value_here pre name val plain.0 in
    let one =
      heeded pre' val (length (up_to_value pre name)) q s here (here (headers_text hs body))
        (Agrees-append _ (Agrees-append _ a)) (header_kind name)
        (heed-header_kind name val s ∙ first) in
    let later = headers-Loop hs pre' body n one.to s1 s' plain.1 one.agrees others in
    record {
      to = later.to;
      front = later.front;
      ran =
          header_round pre name val (headers_text hs body) n p plain.0
          ∙ rw one.sets
              (ap (headers n) (restored one.to q one.same_buf one.same_cursor) ∙ later.ran);
      agrees = later.agrees;
      buf_is = later.buf_is;
      at_body = later.at_body;
      keeps = λ at o k.
          later.keeps at o (Shows-append (up_to_value pre name) _ at o (Shows-append pre _ at o k));
      same_path = later.same_path ∙ one.same_path;
      same_method = later.same_method ∙ one.same_method;
    }
