-- ===== src/Http/Headers/Round.antt =====
-- One round of the loop over the headers, on the text of a header.
use wrensong_http_server.Prelude.{
  ℕ, zero, suc, ◌+◌, ◌≡◌, ◌≢◌, refl, ◌∙◌, List, [], ◌∷◌, ◌++◌, length, some, arith, append_assoc,
  length-append,
}
use wrensong_http_server.Cstring.{Chars, text_from, byte_at-end}
use wrensong_http_server.Exec.{done, ◌>>=◌}
use wrensong_http_server.Http.Spec.{Header}
use wrensong_http_server.Http.Parse.{header_kind, strsep, Parser, set_header, header_line, headers}
use wrensong_http_server.Http.Parse.Pieces.{
  Free, Free-NonZero, Free-append, Free-zero, strsep-Free, strsep-end, text_from-piece,
}

-- The name has no colon and is not empty, and neither part leaves the line.
pub record IsPlain (h : Header) : Type 0 where
  pub nonempty : h.0 ≢ []
  pub no_colon : Free b':' h.0
  pub name_in_line : Free b'\r' h.0
  pub value_in_line : Free b'\r' h.1

-- The buffer up to a value, and behind its line, once the pieces are cut
abbrev pub up_to_value : List ℕ → Chars → List ℕ
up_to_value pre name = pre ++ (name ++ (0 ∷ b' ' ∷ []))

abbrev pub behind_line : List ℕ → Chars → Chars → List ℕ
behind_line pre name val = up_to_value pre name ++ (val ++ (0 ∷ b'\n' ∷ []))

header_line_lem :
    (pre : List ℕ) (name val : Chars) (post : List ℕ) (p : Parser)
    → IsPlain (name, val)
    → header_line
        (some (length pre))
        (record p { buf = pre ++ (name ++ (b':' ∷ b' ' ∷ (val ++ (0 ∷ post)))) })
      ≡ set_header
          (header_kind name)
          (some (length (up_to_value pre name)))
          (record p { buf = up_to_value pre name ++ (val ++ (0 ∷ post)) })
unfolding header_line
header_line_lem pre name val post p h =
    rw
      (
        strsep-Free b':' pre name (b' ' ∷ (val ++ (0 ∷ post))) (omega arith) h.no_colon,
        same_place,
        whole,
        strsep-end 0 (up_to_value pre name) val post (Free-zero b'\r' val h.value_in_line),
        key_read,
      )
      refl
  where
    whole :
        pre ++ (name ++ (0 ∷ b' ' ∷ (val ++ (0 ∷ post))))
        ≡ up_to_value pre name ++ (val ++ (0 ∷ post))
    whole = simp append_assoc

    same_place : suc (suc (length pre + length name)) ≡ length (up_to_value pre name)
    same_place =
        omega
          (arith, length-append pre (name ++ (0 ∷ b' ' ∷ [])), length-append name (0 ∷ b' ' ∷ []))

    key_read : text_from (up_to_value pre name ++ (val ++ (0 ∷ post))) (length pre) ≡ done name
    key_read =
        rw (← whole) (
          text_from-piece pre name (b' ' ∷ (val ++ (0 ∷ post))) (Free-NonZero b':' name h.no_colon))

unfoldable pub end_of_line : List ℕ → Chars → Chars → ℕ
end_of_line pre name val = suc (length pre + length (name ++ (b':' ∷ b' ' ∷ val)))

pub end_of_line_lem :
    (pre : List ℕ) (name val : Chars)
    → suc (end_of_line pre name val) ≡ length (behind_line pre name val)
unfolding end_of_line
end_of_line_lem pre name val = omega (
  arith,
  length-append (up_to_value pre name) (val ++ (0 ∷ b'\n' ∷ [])),
  length-append pre (name ++ (0 ∷ b' ' ∷ [])),
  length-append name (0 ∷ b' ' ∷ []),
  length-append val (0 ∷ b'\n' ∷ []),
  length-append name (b':' ∷ b' ' ∷ val),
)

pub line_split :
    (pre : List ℕ) (name val rest : Chars)
    → IsPlain (name, val)
    → strsep b'\r'
        (pre ++ (name ++ (b':' ∷ b' ' ∷ (val ++ (b'\r' ∷ b'\n' ∷ rest)))))
        (some (length pre))
      ≡ done (record {
        token = some (length pre);
        cursor = some (end_of_line pre name val);
        buf = pre ++ (name ++ (b':' ∷ b' ' ∷ (val ++ (0 ∷ b'\n' ∷ rest))));
      })
unfolding end_of_line
line_split pre name val rest h =
    rw (← regroup b'\r', ← regroup 0)
      (strsep-Free b'\r' pre (name ++ (b':' ∷ b' ' ∷ val)) (b'\n' ∷ rest) (omega arith) (
        Free-append b'\r' name (b':' ∷ b' ' ∷ val) h.name_in_line
          (omega arith, omega arith, (omega arith, omega arith, h.value_in_line))))
  where
    regroup :
        (c : ℕ)
        → (name ++ (b':' ∷ b' ' ∷ val)) ++ (c ∷ b'\n' ∷ rest)
          ≡ name ++ (b':' ∷ b' ' ∷ (val ++ (c ∷ b'\n' ∷ rest)))
    regroup c = simp append_assoc

line_cut :
    (pre : List ℕ) (name val rest : Chars) (n : ℕ) (p : Parser)
    → IsPlain (name, val)
    → headers (suc n) (record p {
      buf = pre ++ (name ++ (b':' ∷ b' ' ∷ (val ++ (b'\r' ∷ b'\n' ∷ rest))));
      cursor = some (length pre);
    })
      ≡ (do
        q ← header_line (some (length pre)) (record p {
          buf = pre ++ (name ++ (b':' ∷ b' ' ∷ (val ++ (0 ∷ b'\n' ∷ rest))));
          cursor = some (length (behind_line pre name val));
        })
        headers n q)
unfolding headers
line_cut pre [] val rest n p h = absurd (h.nonempty refl)
line_cut pre (zero ∷ name) val rest n p h = absurd (omega (arith, h.no_colon))
line_cut pre (suc c ∷ name) val rest n p h = rw (line_split pre (suc c ∷ name) val rest h) (
    rw (← end_of_line_lem pre (suc c ∷ name) val) (
      rw (byte_at-end pre (name ++ (b':' ∷ b' ' ∷ (val ++ (0 ∷ b'\n' ∷ rest)))) (suc c))
        (ground arith)))

-- A round sets what its header sets, and goes on behind the line.
pub header_round :
    (pre : List ℕ) (name val rest : Chars) (n : ℕ) (p : Parser)
    → IsPlain (name, val)
    → headers (suc n) (record p {
      buf = pre ++ (name ++ (b':' ∷ b' ' ∷ (val ++ (b'\r' ∷ b'\n' ∷ rest))));
      cursor = some (length pre);
    })
      ≡ (do
        q ← set_header (header_kind name) (some (length (up_to_value pre name))) (record p {
          buf = behind_line pre name val ++ rest;
          cursor = some (length (behind_line pre name val));
        })
        headers n q)
header_round pre name val rest n p h =
    line_cut pre name val rest n p h
    ∙ rw (
      header_line_lem pre name val (b'\n' ∷ rest)
          (record p { cursor = some (length (behind_line pre name val)) }) h,
      regroup,
    )
  where
    regroup : up_to_value pre name ++ (val ++ (0 ∷ b'\n' ∷ rest)) ≡ behind_line pre name val ++ rest
    regroup = simp append_assoc
