-- ===== src/Config/Reader/Line.antt =====
-- The rounds of a line `key = value`.
use wrensong_http_server.Prelude.{
  ℕ, suc, ◌+◌, ◌≤◌, ◌≡◌, refl, ◌∙◌, [], ◌∷◌, ◌++◌, length, ◌==◌, none, some, arith, length-append,
  append_assoc, Bool-cases, inl, inr,
}
use wrensong_http_server.Cstring.{
  Chars, NonZero, text_of, text_from, byte_at-end, text_from-end, text_of-terminated,
}
use wrensong_http_server.Exec.{done, write_at-append}
use wrensong_http_server.Config.Problem.{Policy}
use wrensong_http_server.Config.Sink.{Sink, file_entry}
use wrensong_http_server.Config.Reader.{
  Mode, key, value, Reader, grow, on_space, switch, take_char, run,
}
use wrensong_http_server.Config.Reader.Buffer.{zeros, line_so_far, grow_lem, After, length-line}
use wrensong_http_server.Config.Reader.Rounds.{step_After, text_of-line}

grow_room :
    (m : Mode) (xs : Chars) (k s : ℕ) (r : Reader)
    → grow (record (line_so_far m xs (suc (suc k)) r) { spaces = s })
      ≡ record (line_so_far m xs (suc (suc k)) r) { spaces = s }
unfolding grow
grow_room m xs k s r = ground (arith, length-line xs (suc (suc k)))

-- The reader behind the `=` of a key.
abbrev pub with_value : Chars → Reader → Reader
with_value k r = record r { value_at = some (length (k ++ (0 ∷ []))) }

-- A space behind a key is held back, or not counted.
space_behind :
    (k : Chars) (j : ℕ) (r : Reader)
    → (s : ℕ) × (on_space (line_so_far key k (suc (suc j)) r)
        ≡ done (record (line_so_far key k (suc (suc j)) r) { spaces = s }))
unfolding on_space
space_behind [] j r = (0, refl)
space_behind (c ∷ k) j r = elim (Bool-cases (c == 0)) [ inl e ↦ (0, rw e) | inr e ↦ (1, rw e) ]

take_equals :
    (e : Policy) (k : Chars) (j s : ℕ) (r : Reader)
    → take_char e b'=' (record (line_so_far key k (suc (suc j)) r) { spaces = s })
      ≡ done (line_so_far value (k ++ (0 ∷ [])) (suc j) (with_value k r))
unfolding take_char switch
take_equals e k j s r = rw (
  grow_room key k j s r,
  write_at-append k 0 0 (zeros (suc j)),
  append_assoc k (0 ∷ []) (zeros (suc j)),
  length-append k (0 ∷ []),
)

-- A space and `=` behind a key
pub equals_sign :
    (e : Policy) (k : Chars) (n : ℕ) (r : Reader)
    → 2 ≤ length k + n
    → After e value (k ++ (0 ∷ [])) (with_value k r) (line_so_far key k n r) (b' ' ∷ b'=' ∷ [])
unfolding run
equals_sign e k n r two =
    let (j, grown) = grow_lem key k n r two in
    let (s, held) = space_behind k j r in
    let taken : take_char e b' ' (line_so_far key k n r)
        ≡ done (record (line_so_far key k (suc (suc j)) r) { spaces = s }) =
      unfold take_char switch in rw grown held in
    record {
      left = suc j;
      enough = omega (arith, length-append k (0 ∷ []));
      runs = λ rest. rw (taken, take_equals e k j s r);
    }

-- The space behind the `=`
pub space_before :
    (e : Policy) (k : Chars) (n : ℕ) (r : Reader)
    → 2 ≤ length (k ++ (0 ∷ [])) + n
    → After e value
        (k ++ (0 ∷ []))
        (with_value k r)
        (line_so_far value (k ++ (0 ∷ [])) n (with_value k r))
        (b' ' ∷ [])
unfolding switch
space_before e k n r two =
    step_After e value value (k ++ (0 ∷ [])) (k ++ (0 ∷ [])) n (with_value k r) (with_value k r)
      b' ' two (λ j. (suc (suc j), rw (byte_at-end (k ++ (0 ∷ [])) (0 ∷ zeros j) 0), omega arith))

-- The end of the line
pub end_value :
    (e : Policy) (k v : Chars) (n : ℕ) (r : Reader) (s : Sink)
    → NonZero k
    → NonZero v
    → 2 ≤ length ((k ++ (0 ∷ [])) ++ v) + n
    → file_entry (record { key = k; value = v }) r.sink ≡ done s
    → After e key []
        (record r { value_at = none; line = r.line + 1; sink = s })
        (line_so_far value ((k ++ (0 ∷ [])) ++ v) n (with_value k r))
        (b'\n' ∷ [])
unfolding switch
end_value e k v n r s nk nv two filed =
    step_After e value key ((k ++ (0 ∷ [])) ++ v) [] n (with_value k r)
      (record r { value_at = none; line = r.line + 1; sink = s }) b'\n' two
      (λ j. (
        length ((k ++ (0 ∷ [])) ++ v) + suc (suc j),
        rw (key_text j, value_text j, filed, length-line ((k ++ (0 ∷ [])) ++ v) (suc (suc j))),
        omega arith,
      ))
  where
    key_text : (j : ℕ) → text_of (((k ++ (0 ∷ [])) ++ v) ++ zeros (suc (suc j))) ≡ done k
    key_text j =
        rw
          (
            append_assoc (k ++ (0 ∷ [])) v (zeros (suc (suc j))),
            append_assoc k (0 ∷ []) (v ++ zeros (suc (suc j))),
          )
          (text_of-terminated k (v ++ zeros (suc (suc j))) nk)

    value_text :
        (j : ℕ)
        → text_from (((k ++ (0 ∷ [])) ++ v) ++ zeros (suc (suc j))) (length (k ++ (0 ∷ [])))
          ≡ done v
    value_text j =
        rw (append_assoc (k ++ (0 ∷ [])) v (zeros (suc (suc j))))
          (text_from-end (k ++ (0 ∷ [])) (v ++ zeros (suc (suc j))) ∙ text_of-line v (suc j) nv)
