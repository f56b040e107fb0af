-- ===== src/Legacy/Decimal.antt =====
-- The decimal numbers that the handler prints.
use wrensong_http_server.Prelude.{
  ℕ, zero, suc, ◌+◌, ◌*◌, ◌/◌, ◌%◌, ◌^◌, ◌≤◌, ◌<◌, ◌≡◌, refl, sym, ap, ◌∙◌, false, Bool-cases, inl,
  inr, [], ◌∷◌, ◌++◌, length, append_assoc, ltb, ltb→lt, some, arith, length-append, append-nil,
}
use native.Mathlib.Nat.{pow-succ'}
use wrensong_http_server.Cstring.{
  Chars, digits_onto, skip_spaces, fit_unsigned, unsigned_digits, strtoul, fit_int, signed_digits,
  atoi,
}
use wrensong_http_server.Prelude.Int.{pos}
use wrensong_http_server.Exec.{done}
use wrensong_http_server.Legacy.Respond.{digits}

digit_step :
    (acc d : ℕ) (rest : Chars)
    → d < 10
    → digits_onto acc ((b'0' + d) ∷ rest) ≡ digits_onto (acc * 10 + d) rest
unfolding digits_onto
digit_step acc d rest h = ground arith

digits_onto-digits :
    (fuel n : ℕ) (rest : Chars)
    → n < 10 ^ fuel
    → digits_onto 0 (digits fuel n ++ rest) ≡ digits_onto n rest
unfolding digits
digits_onto-digits zero n rest h = ap (λ k. digits_onto k rest) (omega arith)
digits_onto-digits (suc fuel) n rest h = elim (Bool-cases (ltb n 10)) [
  | inl one ↦
      rw one
        (digit_step 0 (n % 10) rest (omega arith) ∙ ap (λ k. digits_onto k rest) (ground arith))
  | inr more ↦
      rw (more, append_assoc)
        (digits_onto-digits fuel (n / 10) ((b'0' + n % 10) ∷ rest)
            (omega (arith, h, pow-succ' 10 fuel))
          ∙ digit_step (n / 10) (n % 10) rest (omega arith)
          ∙ ap (λ k. digits_onto k rest) (omega arith))
]

-- The first digit
digits-first :
    (fuel n : ℕ) → (d : ℕ) × (ds : Chars) × (digits (suc fuel) n ≡ (b'0' + d) ∷ ds) × (d < 10)
unfolding digits
digits-first zero n = (n % 10, [], ground arith, omega arith)
digits-first (suc fuel) n = elim (Bool-cases (ltb n 10)) [
  | inl one ↦ (n % 10, [], rw one, omega arith)
  | inr more ↦
      let (d, ds, e, small) = digits-first fuel (n / 10) in
      (d, ds ++ ((b'0' + n % 10) ∷ []), rw more (ap (λ x. x ++ ((b'0' + n % 10) ∷ [])) e), small)
]

strtoul_lem :
    (d : ℕ) (ds : Chars) (n : ℕ)
    → d < 10
    → n < 2 ^ 64
    → digits_onto 0 ((b'0' + d) ∷ ds) ≡ n
    → strtoul ((b'0' + d) ∷ ds) ≡ some n
unfolding strtoul skip_spaces unsigned_digits fit_unsigned
strtoul_lem d ds n small h e = ground (arith, e)

-- A decimal number below 2^64 that the handler prints, such as the length it announces, is read back
-- by `strtoul` as that number.
pub strtoul-digits : (n : ℕ) → n < 2 ^ 64 → strtoul (digits 20 n) ≡ some n
unfolding digits_onto
strtoul-digits n h =
    let (d, ds, e, small) = digits-first 19 n in
    let read : digits_onto 0 (digits 20 n) ≡ n =
      ap (digits_onto 0) (sym (append-nil (digits 20 n)))
      ∙ digits_onto-digits 20 n [] (omega arith)
      ∙ refl in
    rw e (strtoul_lem d ds n small h (rw e at read))

atoi_lem :
    (d : ℕ) (ds : Chars) (n : ℕ)
    → d < 10
    → n < 2 ^ 31
    → digits_onto 0 ((b'0' + d) ∷ ds) ≡ n
    → atoi ((b'0' + d) ∷ ds) ≡ done (pos n)
unfolding atoi skip_spaces signed_digits fit_int
atoi_lem d ds n small h e = ground (arith, e)

-- A decimal number below 2^31 is read back by `atoi` as that number.
pub atoi-digits : (n : ℕ) → n < 2 ^ 31 → atoi (digits 20 n) ≡ done (pos n)
unfolding digits_onto
atoi-digits n h =
    let (d, ds, e, small) = digits-first 19 n in
    let read : digits_onto 0 (digits 20 n) ≡ n =
      ap (digits_onto 0) (sym (append-nil (digits 20 n)))
      ∙ digits_onto-digits 20 n [] (omega arith)
      ∙ refl in
    rw e (atoi_lem d ds n small h (rw e at read))

length-digits_one : (fuel n : ℕ) → n < 10 → length (digits (suc fuel) n) ≡ 1
unfolding digits
length-digits_one fuel n h = ground arith

length-digits_more :
    (fuel n : ℕ) → 10 ≤ n → length (digits (suc fuel) n) ≡ length (digits fuel (n / 10)) + 1
unfolding digits
length-digits_more fuel n h =
    rw (ground_false n h) (length-append (digits fuel (n / 10)) ((b'0' + n % 10) ∷ []))
  where
    ground_false : (n : ℕ) → 10 ≤ n → ltb n 10 ≡ false
    ground_false n h = ground arith

pub length-digits_three : (n : ℕ) → 100 ≤ n → n < 1000 → length (digits 20 n) ≡ 3
length-digits_three n h k = omega (
  arith,
  length-digits_more 19 n (omega arith),
  length-digits_more 18 (n / 10) (omega arith),
  length-digits_one 17 (n / 10 / 10) (omega arith),
)

pub length-digits_bound : (n : ℕ) → n < 1000 → length (digits 20 n) ≤ 3
length-digits_bound n k = elim (Bool-cases (ltb n 10)) [
  | inl one ↦ omega (arith, length-digits_one 19 n (ltb→lt n 10 one))
  | inr more ↦ elim (Bool-cases (ltb n 100)) [
    | inl two ↦ omega (
      arith,
      length-digits_more 19 n (ground arith),
      length-digits_one 18 (n / 10) (ground arith),
    )
    | inr three ↦ omega (arith, length-digits_three n (ground arith) k)
  ]
]
