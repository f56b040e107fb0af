-- ===== src/Legacy/BodyLength.antt =====
-- The length of the body that a request announces.
use wrensong_http_server.Prelude.{
  ℕ, zero, suc, ◌/◌, ◌^◌, ◌<◌, ◌≡◌, refl, ap, ◌∙◌, Bool-cases, inl, inr, ◌∷◌, ◌++◌, length, ltb,
  some, arith, All-append,
}
use wrensong_http_server.Cstring.{
  Chars, NonZero, codes, text_from, text_from-end, text_of-terminated,
}
use wrensong_http_server.Exec.{done}
use wrensong_http_server.Legacy.World.{GetHeader}
use wrensong_http_server.Legacy.Receive.{Lines, lookup, length_of, content_length}
use wrensong_http_server.Legacy.Respond.{digits}
use wrensong_http_server.Legacy.Decimal.{strtoul-digits}

digits-NonZero : (fuel n : ℕ) → NonZero (digits fuel n)
unfolding digits
digits-NonZero zero n = tt
digits-NonZero (suc fuel) n = elim (Bool-cases (ltb n 10)) [
  | inl one ↦ rw one (omega arith, tt)
  | inr more ↦
      rw more
        (All-append _ (digits fuel (n / 10)) _ (digits-NonZero fuel (n / 10)) (omega arith, tt))
]

-- What `http_get_header` points at, read as a number
pub content_length_lem :
    (get : GetHeader) (l : Lines) (n i : ℕ)
    → n < 2 ^ 64
    → lookup get l (codes "content-length") ≡ some i
    → text_from l.buf i ≡ done (digits 20 n)
    → content_length get l ≡ done n
unfolding content_length length_of
content_length_lem get l n i small found text =
    rw (content_length, found, text, strtoul-digits n small) refl

-- Where `http_get_header` points at a decimal number below 2^64, as a client prints it, anywhere in the
-- buffer, that number is taken as the length of the body.
pub content_length-digits :
    (get : GetHeader) (l : Lines) (before after : Chars) (n : ℕ)
    → n < 2 ^ 64
    → l.buf ≡ before ++ (digits 20 n ++ (0 ∷ after))
    → lookup get l (codes "content-length") ≡ some (length before)
    → content_length get l ≡ done n
content_length-digits get l before after n small there found =
    content_length_lem get l n (length before) small found (
      ap (λ b. text_from b (length before)) there
      ∙ text_from-end before (digits 20 n ++ (0 ∷ after))
      ∙ text_of-terminated (digits 20 n) after (digits-NonZero 20 n))
