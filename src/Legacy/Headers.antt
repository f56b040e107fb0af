-- ===== src/Legacy/Headers.antt =====
-- The loop of src/old.c over the headers, on the text of a list of headers.
use wrensong_http_server.Prelude.{
  ℕ, zero, suc, ◌+◌, ◌≡◌, ◌<◌, refl, ap, ◌∙◌, List, [], ◌∷◌, ◌++◌, length, Option, some, arith,
  append_assoc, append-nil, length-append, All,
}
use wrensong_http_server.Cstring.{Chars, byte_at-end}
use wrensong_http_server.Exec.{done, ◌>>=◌}
use wrensong_http_server.Http.Message.{Pointer}
use wrensong_http_server.Http.Spec.{headers_text}
use wrensong_http_server.Http.Parse.Pieces.{
  Free-NonZero, Free-zero, strsep-Free, strsep-end, text_from-piece,
}
use wrensong_http_server.Http.Headers.{Shows, Shows-append}
use wrensong_http_server.Http.Headers.Round.{
  IsPlain, up_to_value, behind_line, end_of_line_lem, line_split,
}
use wrensong_http_server.Legacy.World.{Header}
use wrensong_http_server.Legacy.Receive.{Lines, header_line, store_header, read_headers}

-- Each header points to its name and its value.
abbrev pub Named : List ℕ → List Header → List (Chars × Chars) → Type 0
Named front [] [] = Unit {0}
Named front (h ∷ hs) (t ∷ ts) =
    Shows front h.key (some t.0) × Shows front h.value (some t.1) × Named front hs ts
Named front _ _ = ⊥

-- The header of a line that starts at the end of `pre`
abbrev header_at : List ℕ → Chars → Header
header_at pre name = record {
  key = some (length pre);
  value = some (length (up_to_value pre name));
}

header_line_lem :
    (pre : List ℕ) (name val : Chars) (post : List ℕ)
    → IsPlain (name, val)
    → header_line (some (length pre)) (pre ++ (name ++ (b':' ∷ b' ' ∷ (val ++ (0 ∷ post)))))
      ≡ done (header_at pre name, up_to_value pre name ++ (val ++ (0 ∷ post)))
unfolding header_line
header_line_lem pre name val post h =
    rw
      (
        strsep-Free b':' pre name (b' ' ∷ (val ++ (0 ∷ post))) (omega arith) h.no_colon,
        same_place,
        whole,
        strsep-end 0 (up_to_value pre name) val post (Free-zero b'\r' val h.value_in_line),
      )
      refl
  where
    whole :
        pre ++ (name ++ (0 ∷ b' ' ∷ (val ++ (0 ∷ post))))
        ≡ up_to_value pre name ++ (val ++ (0 ∷ post))
    whole = simp append_assoc

    same_place : suc (suc (length pre + length name)) ≡ length (up_to_value pre name)
    same_place =
        omega
          (arith, length-append pre (name ++ (0 ∷ b' ' ∷ [])), length-append name (0 ∷ b' ' ∷ []))

read_cut :
    (pre : List ℕ) (name val rest : Chars) (n : ℕ) (found : List Header)
    → IsPlain (name, val)
    → read_headers (suc n) (record {
      buf = pre ++ (name ++ (b':' ∷ b' ' ∷ (val ++ (b'\r' ∷ b'\n' ∷ rest))));
      cursor = some (length pre);
      headers = some found;
    })
      ≡ (do
        h ←
            header_line
              (some (length pre))
              (pre ++ (name ++ (b':' ∷ b' ' ∷ (val ++ (0 ∷ b'\n' ∷ rest)))))
        read_headers n (record {
          buf = h.1;
          cursor = some (length (behind_line pre name val));
          headers = some (found ++ (h.0 ∷ []));
        }))
unfolding read_headers store_header
read_cut pre [] val rest n found h = absurd (h.nonempty refl)
read_cut pre (zero ∷ name) val rest n found h = absurd (omega (arith, h.no_colon))
read_cut pre (suc c ∷ name) val rest n found h = rw (line_split pre (suc c ∷ name) val rest h) (
    rw (← end_of_line_lem pre (suc c ∷ name) val) (
      rw (byte_at-end pre (name ++ (b':' ∷ b' ' ∷ (val ++ (0 ∷ b'\n' ∷ rest)))) (suc c))
        (ground arith)))

-- A round stores the header of its line, and goes on behind the line.
read_round :
    (pre : List ℕ) (name val rest : Chars) (n : ℕ) (found : List Header)
    → IsPlain (name, val)
    → read_headers (suc n) (record {
      buf = pre ++ (name ++ (b':' ∷ b' ' ∷ (val ++ (b'\r' ∷ b'\n' ∷ rest))));
      cursor = some (length pre);
      headers = some found;
    })
      ≡ read_headers n (record {
        buf = behind_line pre name val ++ rest;
        cursor = some (length (behind_line pre name val));
        headers = some (found ++ (header_at pre name ∷ []));
      })
read_round pre name val rest n found h =
    read_cut pre name val rest n found h
    ∙ rw (header_line_lem pre name val (b'\n' ∷ rest) h, regroup)
  where
    regroup : up_to_value pre name ++ (val ++ (0 ∷ b'\n' ∷ rest)) ≡ behind_line pre name val ++ rest
    regroup = simp append_assoc

-- What the loop leaves, started at the end of `pre` with the headers `before`: the texts in `pre` stay,
-- the body is behind the cursor, and the headers found are those of the text, in its order.
pub record Listed (pre : List ℕ) (n : ℕ) (from : Lines) (before : List Header)
    (hs : List (Chars × Chars)) (body : Chars) : Type 0 where
  pub front : List ℕ
  pub found : List Header
  pub ran :
      read_headers n from
      ≡ done (record {
        buf = front ++ body;
        cursor = some (length front);
        headers = some (before ++ found);
      })
  pub named : Named front found hs
  pub keeps : (at : Pointer) (o : Option Chars) → Shows pre at o → Shows front at o

name_shown :
    (pre : List ℕ) (name val : Chars)
    → IsPlain (name, val)
    → Shows (behind_line pre name val) (some (length pre)) (some name)
name_shown pre name val h post =
    rw
      (
        append_assoc (up_to_value pre name) (val ++ (0 ∷ b'\n' ∷ [])) post,
        append_assoc pre (name ++ (0 ∷ b' ' ∷ [])) ((val ++ (0 ∷ b'\n' ∷ [])) ++ post),
        append_assoc name (0 ∷ b' ' ∷ []) ((val ++ (0 ∷ b'\n' ∷ [])) ++ post),
      )
      (text_from-piece pre name (b' ' ∷ ((val ++ (0 ∷ b'\n' ∷ [])) ++ post))
        (Free-NonZero b':' name h.no_colon))

value_shown :
    (pre : List ℕ) (name val : Chars)
    → IsPlain (name, val)
    → Shows (behind_line pre name val) (some (length (up_to_value pre name))) (some val)
value_shown pre name val h post =
    rw
      (
        append_assoc (up_to_value pre name) (val ++ (0 ∷ b'\n' ∷ [])) post,
        append_assoc val (0 ∷ b'\n' ∷ []) post,
      )
      (text_from-piece (up_to_value pre name) val (b'\n' ∷ post)
        (Free-NonZero b'\r' val h.value_in_line))

-- The empty line ends the loop.
empty_line :
    (pre body : List ℕ) (n : ℕ) (before : List Header)
    → Listed pre
        (suc n)
        (record {
          buf = pre ++ headers_text [] body;
          cursor = some (length pre);
          headers = some before;
        })
        before
        []
        body
unfolding read_headers
empty_line pre body n before = record {
  front = pre ++ added;
  found = [];
  ran = rw (strsep-Free b'\r' pre [] (b'\n' ∷ body) (omega arith) tt) (
      rw
        (
          byte_at-end pre (b'\n' ∷ body) 0,
          append_assoc pre added body,
          length-append pre added,
          append-nil before,
        )
        (ap
          (λ k.
            done
              (record { buf = pre ++ (0 ∷ b'\n' ∷ body); cursor = some k; headers = some before }))
          {y = length pre + 2} (omega arith)));
  named = tt;
  keeps = λ at o. Shows-append pre added at o;
}
  where
    added : List ℕ
    added = 0 ∷ b'\n' ∷ []

pub read_headers-Listed :
    (hs : List (Chars × Chars)) (pre body : List ℕ) (n : ℕ) (before : List Header)
    → length hs < n
    → All IsPlain hs
    → Listed pre n
        (record {
          buf = pre ++ headers_text hs body;
          cursor = some (length pre);
          headers = some before;
        })
        before
        hs
        body
read_headers-Listed hs pre body zero before few plain = absurd (omega arith)
read_headers-Listed [] pre body (suc n) before few plain = empty_line pre body n before
read_headers-Listed ((name, val) ∷ hs) pre body (suc n) before few plain =
    let pre' = behind_line pre name val in
    let later =
      read_headers-Listed hs pre' body n (before ++ (header_at pre name ∷ [])) (omega arith)
        plain.1 in
    record {
      front = later.front;
      found = header_at pre name ∷ later.found;
      ran =
          read_round pre name val (headers_text hs body) n before plain.0
          ∙ later.ran
          ∙ ap
              (λ z. done (record {
                buf = later.front ++ body;
                cursor = some (length later.front);
                headers = some z;
              }))
              (append_assoc before (header_at pre name ∷ []) later.found);
      named = (
        later.keeps (some (length pre)) (some name) (name_shown pre name val plain.0),
        later.keeps (some (length (up_to_value pre name))) (some val)
            (value_shown pre name val plain.0),
        later.named,
      );
      keeps = λ at o k.
          later.keeps at o (Shows-append (up_to_value pre name) _ at o (Shows-append pre _ at o k));
    }
