-- ===== src/Config/Reader/Comment.antt =====
-- A comment that fits the buffer, and the line behind it.
use wrensong_http_server.Prelude.{
  ℕ, zero, suc, ◌+◌, ◌-◌, ◌<◌, ◌≤◌, ◌≡◌, refl, ap, ◌∙◌, true, false, [], ◌∷◌, ◌++◌, length, some,
  arith, append_assoc, append-nil, length-append,
}
use wrensong_http_server.Cstring.{Chars, NonZero, NonZero-append}
use wrensong_http_server.Exec.{done, write_at, write_at-append}
use wrensong_http_server.Config.Problem.{Policy}
use wrensong_http_server.Config.Table.{empty_table, add_section, add_entry, at}
use wrensong_http_server.Config.Sink.{Sink, file_entry, store_entry, open_section}
use wrensong_http_server.Config.Reader.{
  key, comment, Reader, put, take_char, comment_byte, run, on_comment, switch, grow, start, read,
  table_read, into_table,
}
use wrensong_http_server.Config.Reader.Overflow.{InLine, comment_round}
use wrensong_http_server.Config.Reader.Buffer.{
  zeros, line_so_far, After, IsPlain, run_word, length-line, IsPlain-NonZero,
}
use wrensong_http_server.Config.Reader.Rounds.{step_After, text_of-line}

-- Inside of the loop over a comment
abbrev in_loop : Chars → ℕ → Reader → Reader
in_loop xs n r = record (line_so_far comment xs n r) { in_comment = true }

put-in_loop :
    (xs : Chars) (n c : ℕ) (r : Reader)
    → put c (in_loop xs (suc n) r) ≡ done (in_loop (xs ++ (c ∷ [])) n r)
unfolding put
put-in_loop xs n c r = rw (
  write_at-append xs 0 c (zeros n),
  append_assoc xs (c ∷ []) (zeros n),
  length-append xs (c ∷ []),
)

comment_kept :
    (p : Policy) (ws xs : Chars) (n : ℕ) (r : Reader) (rest : Chars)
    → InLine ws
    → length ws ≤ n
    → run p (in_loop xs n r) (ws ++ rest) ≡ run p (in_loop (xs ++ ws) (n - length ws) r) rest
unfolding run
comment_kept p [] xs n r rest h few =
    rw append-nil (ap (λ k. run p (in_loop xs k r) rest) (omega arith))
comment_kept p (c ∷ ws) xs zero r rest h few = absurd (omega arith)
comment_kept p (c ∷ ws) xs (suc n) r rest h few =
    rw (comment_round p c (in_loop xs (suc n) r) refl h.0) (
      rw (put-in_loop xs n c r) (
        comment_kept p ws (xs ++ (c ∷ [])) n r rest h.1 (omega arith)
        ∙ rw (append_assoc xs (c ∷ []) ws)
            (ap (λ k. run p (in_loop (xs ++ (c ∷ ws)) k r) rest) (omega arith))))

-- The end of a line in the state of a comment
end_comment :
    (p : Policy) (xs : Chars) (n : ℕ) (r : Reader) (s : Sink)
    → NonZero xs
    → 2 ≤ length xs + n
    → file_entry (record { key = xs; value = [] }) r.sink ≡ done s
    → After p key []
        (record r { line = r.line + 1; sink = s })
        (line_so_far comment xs n r)
        (b'\n' ∷ [])
unfolding switch
end_comment p xs n r s nonzero two filed =
    step_After p comment key xs [] n r (record r { line = r.line + 1; sink = s }) b'\n' two
      (λ j. (
        length xs + suc (suc j),
        rw (text_of-line xs (suc j) nonzero, filed, length-line xs (suc (suc j))),
        omega arith,
      ))

-- From the start of the file to the end of the second line
two_lines :
    (p : Policy) (xs ys : Chars) (k s : Sink)
    → InLine xs
    → NonZero xs
    → length xs < 128
    → IsPlain comment ys
    → file_entry (record { key = (b';' ∷ xs) ++ ys; value = [] }) k ≡ done s
    → (r : Reader) × (run p (start k) (b';' ∷ (xs ++ (b'\n' ∷ (ys ++ (b'\n' ∷ []))))) ≡ done r)
      × (r.sink ≡ s)
unfolding run take_char switch on_comment grow put write_at comment_byte
two_lines p xs ys k s in_line nonzero few plain filed =
    let first = b';' ∷ xs in
    let word = run_word p comment ys first (127 - length xs) (start k) plain (omega arith) in
    let last =
      end_comment p (first ++ ys) word.left (start k) s
        (NonZero-append first ys (omega arith, nonzero) (IsPlain-NonZero comment ys plain))
        word.enough filed in
    (
      line_so_far key [] last.left (record (start k) { line = 1; sink = s }),
      comment_kept p xs (b';' ∷ []) 127 (start k) (b'\n' ∷ (ys ++ (b'\n' ∷ []))) in_line
            (omega arith)
          ∙ (word.runs (b'\n' ∷ []) ∙ last.runs []),
      refl,
    )

-- The line behind a comment is lost as an entry: where a file begins with a comment that fits the buffer, and a
-- line follows with no space, bracket, carriage return, `;`, `#` or zero byte, whatever it sets, the reader makes one entry of the
-- two, in a section without a name, whose key is the comment with the line behind it and whose value is empty.
pub comment_joins :
    (p : Policy) (xs ys : Chars)
    → InLine xs
    → NonZero xs
    → length xs < 128
    → IsPlain comment ys
    → table_read p (b';' ∷ (xs ++ (b'\n' ∷ (ys ++ (b'\n' ∷ []))))) false empty_table
      ≡ done (
        true,
        record (into_table (record {
          sections =
              record {
                name = [];
                entries = record { key = (b';' ∷ xs) ++ ys; value = [] } ∷ [];
                room = 10;
              }
              ∷ [];
          room = 10;
        })) { current = some 0 },
      )
unfolding table_read read file_entry open_section store_entry add_section add_entry at
comment_joins p xs ys in_line nonzero few plain =
    let (r, ran, sunk) =
      two_lines p xs ys (into_table empty_table) _ in_line nonzero few plain refl in
    rw ran (rw sunk refl)
