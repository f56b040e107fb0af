-- ===== src/Legacy/Lengths.antt =====
-- The parser of src/old.c keeps the length of the buffer, and no text in it is longer.
use wrensong_http_server.Prelude.{
  ℕ, zero, suc, ◌≤◌, ◌≡◌, refl, ◌∙◌, Bool, true, false, List, [], ◌∷◌, length, ◌==◌, if◌then◌else◌,
  Option, none, some, arith,
}
use wrensong_http_server.Cstring.{Chars, text_of, text_from}
use wrensong_http_server.Exec.{Exec, done, quit, fault, ◌>>=◌, Ends, Ends-bind, Ends-any}
use wrensong_http_server.Bstring.{Allocator, malloc}
use wrensong_http_server.Http.Message.{Method, Pointer, unknown, known_http_methods, max_headers}
use wrensong_http_server.Http.Parse.{
  Split, strsep, advance, string_at, first_at, find_method, is_unknown,
}
use wrensong_http_server.Http.Parse.Pieces.{strsep-Ends}
use mathlib.Core.Path.{subst}
use wrensong_http_server.Legacy.World.{Header}
use wrensong_http_server.Legacy.Receive.{
  Lines, Request, header_line, store_header, read_headers, parse_lines, with_name, parse,
}

text_of-Ends : (b : List ℕ) → Ends (λ s. length s ≤ length b) (text_of b)
unfolding text_of
text_of-Ends [] = tt
text_of-Ends (zero ∷ b) = omega arith
text_of-Ends (suc c ∷ b) =
    Ends-bind (λ s. length s ≤ suc (length b)) (text_of b) _ (text_of-Ends b)
      (λ s h. omega (arith, h))

pub text_from-Ends : (b : List ℕ) (i : ℕ) → Ends (λ s. length s ≤ length b) (text_from b i)
unfolding text_from
text_from-Ends b zero = text_of-Ends b
text_from-Ends [] (suc i) = tt
text_from-Ends (c ∷ b) (suc i) = weaken (text_from b i) (text_from-Ends b i)
  where
    weaken :
        (m : Exec Chars)
        → Ends (λ s. length s ≤ length b) m
        → Ends (λ s. length s ≤ suc (length b)) m
    weaken (done s) h = omega (arith, h)
    weaken quit h = tt
    weaken fault h = tt

pub string_at-Ends : (b : List ℕ) (p : Pointer) → Ends (λ s. length s ≤ length b) (string_at b p)
string_at-Ends b none = tt
string_at-Ends b (some i) = text_from-Ends b i

-- The buffer has a length of `n`.
abbrev LinesKeep : ℕ → Lines → Type 0
LinesKeep n l = length l.buf ≡ n

header_line-Ends :
    (line : Pointer) (buf : List ℕ)
    → Ends (λ (h : Header × List ℕ). length h.1 ≡ length buf) (header_line line buf)
unfolding header_line
header_line-Ends line buf =
    Ends-bind (λ (h : Header × List ℕ). length h.1 ≡ length buf) (strsep b':' buf line) _
      (strsep-Ends b':' buf line)
      (λ k e.
        Ends-any (λ (h : Header × List ℕ). length h.1 ≡ length buf) (advance k.cursor) _
          (λ behind.
            Ends-bind (λ (h : Header × List ℕ). length h.1 ≡ length buf) (strsep 0 k.buf behind) _
              (strsep-Ends 0 k.buf behind) (λ v e'. e' ∙ e)))

read_headers-Ends : (n : ℕ) (l : Lines) → Ends (LinesKeep (length l.buf)) (read_headers n l)
unfolding read_headers
read_headers-Ends zero l = refl
read_headers-Ends (suc n) l =
    Ends-bind (LinesKeep (length l.buf)) (strsep b'\r' l.buf l.cursor) _
      (strsep-Ends b'\r' l.buf l.cursor)
      (λ s e. Ends-any (LinesKeep (length l.buf)) (advance s.cursor) _ (λ behind.
        Ends-any (LinesKeep (length l.buf)) (first_at s.buf s.token) _ (λ c.
          elim (c == 0)
            as (λ (b : Bool). Ends (LinesKeep (length l.buf)) (elim b [
              | true ↦ done (record l { buf = s.buf; cursor = behind })
              | false ↦ header_line s.token s.buf >>= λ h. store_header l.headers h.0 >>= λ hs.
                  read_headers n (record { buf = h.1; cursor = behind; headers = hs })
            ])) [
              | true ↦ e
              | false ↦
                  Ends-bind (LinesKeep (length l.buf)) (header_line s.token s.buf) _
                    (header_line-Ends s.token s.buf)
                    (λ h e'.
                      Ends-any (LinesKeep (length l.buf)) (store_header l.headers h.0) _ (λ hs.
                        subst
                          (λ k.
                            Ends (LinesKeep k) (
                              read_headers n (record { buf = h.1; cursor = behind; headers = hs })))
                          (e' ∙ e)
                          (read_headers-Ends n
                            (record { buf = h.1; cursor = behind; headers = hs }))))
            ])))

-- The buffer of a request, if there is one
abbrev pub RequestKeeps : ℕ → Request → Type 0
RequestKeeps n r = length r.lines.buf ≡ n

abbrev pub MaybeKeeps : ℕ → Option Request → Type 0
MaybeKeeps n none = Unit
MaybeKeeps n (some r) = RequestKeeps n r

parse_lines-Ends :
    (n : ℕ) (m : Split) (method : Method) (a : Allocator)
    → length m.buf ≡ n
    → Ends (RequestKeeps n) (parse_lines m method a)
unfolding parse_lines
parse_lines-Ends n m method a h =
    Ends-bind (RequestKeeps n) (strsep b' ' m.buf m.cursor) _ (strsep-Ends b' ' m.buf m.cursor)
      (λ path e.
        Ends-bind (RequestKeeps n) (strsep b'\r' path.buf path.cursor) _
          (strsep-Ends b'\r' path.buf path.cursor)
          (λ version e1. Ends-any (RequestKeeps n) (advance version.cursor) _ (λ behind.
            let l0 : Lines = record {
              buf = version.buf;
              cursor = behind;
              headers = if (malloc a).0 then some [] else none;
            } in
            Ends-bind (RequestKeeps n) (read_headers max_headers l0) _
              (read_headers-Ends max_headers l0) (λ l e2. e2 ∙ e1 ∙ e ∙ h))))

pub parse-Ends : (buf : List ℕ) (a : Allocator) → Ends (MaybeKeeps (length buf)) (parse buf a)
unfolding parse with_name
parse-Ends buf a =
    Ends-bind (MaybeKeeps (length buf)) (strsep b' ' buf (some 0)) _ (strsep-Ends b' ' buf (some 0))
      (λ m e.
        Ends-any (MaybeKeeps (length buf)) (string_at m.buf m.token) _
          (λ name. with_name-Ends m name e))
  where
    with_name-Ends :
        (m : Split) (name : Chars)
        → length m.buf ≡ length buf
        → Ends (MaybeKeeps (length buf)) (with_name m name a)
    with_name-Ends m name e =
        elim (is_unknown (find_method known_http_methods name unknown))
          as (λ (b : Bool). Ends (MaybeKeeps (length buf)) (elim b [
            | true ↦ done none
            | false ↦
                parse_lines m (find_method known_http_methods name unknown) a >>= λ r. done (some r)
          ])) [
            | true ↦ tt
            | false ↦
                Ends-bind (MaybeKeeps (length buf))
                  (parse_lines m (find_method known_http_methods name unknown) a) _
                  (parse_lines-Ends (length buf) m _ a e) (λ r h. h)
          ]
