-- ===== src/Legacy/Body.antt =====
-- The body of a request, as src/old.c keeps it.
use wrensong_http_server.Prelude.{
  ℕ, suc, ◌+◌, ◌^◌, ◌<◌, ◌≡◌, refl, ap, ◌∙◌, List, [], ◌∷◌, ◌++◌, length, none, some, arith,
}
use wrensong_http_server.Cstring.{Chars, NonZero, text_from, text_from-end, text_of-terminated}
use wrensong_http_server.Exec.{done}
use wrensong_http_server.Bstring.{Bstring, Allocator, later, uint, size, init, init_capacity}
use wrensong_http_server.Bstring.Contents.{Holds}
use wrensong_http_server.Bstring.Init.{init_capacity_bounds, init_fill-Holds}
use wrensong_http_server.Legacy.Receive.{Lines, read_body}
use wrensong_http_server.Legacy.Memory.{Gives, granted-Gives, later-Gives, append-Grown, after_two}

-- A new string without a text, where memory is granted
init_empty :
    (m : Allocator) (c k : ℕ)
    → c < 2 ^ 32
    → Gives (suc (suc k)) m.answers
    → (b : Bstring) × (init m c none ≡ done (some b, after_two m)) × Holds b []
unfolding init
init_empty m c k small g =
    let (room, large, fits) = init_capacity_bounds c 0 small (ground arith) in
    let (b, made, held, _) = init_fill-Holds (init_capacity c 0) [] room fits in
    (
      b,
      rw
          (
            granted-Gives (suc k) m.answers g,
            granted-Gives k (later m.answers) (later-Gives (suc k) m.answers g),
            made,
          )
          refl,
      held,
    )

-- What the handler keeps of a body
pub record BodyRead (k : ℕ) (l : Lines) (m : Allocator) (n : ℕ) (body : Chars) : Type 0 where
  pub to : Bstring
  pub memory : Allocator
  pub ran : read_body l m n ≡ done (some to, memory)
  pub holds : Holds to body
  pub live : memory.live ≡ m.live + 2
  pub gives : Gives k memory.answers

-- Everything behind the headers is the body, whatever length is announced.
pub read_body-BodyRead :
    (k : ℕ) (l : Lines) (m : Allocator) (n : ℕ) (front : List ℕ) (body : Chars)
    → l.buf ≡ front ++ (body ++ (0 ∷ []))
    → l.cursor ≡ some (length front)
    → NonZero body
    → length body + 1 < 2 ^ 32
    → Gives (suc (suc (suc k))) m.answers
    → BodyRead k l m (suc n) body
unfolding read_body
read_body-BodyRead k l m n front body there at nonzero small g =
    let (b, made, held) = init_empty m (uint (size (suc n + 1))) (suc k) (omega arith) g in
    let a =
      append-Grown k (after_two m) b [] body held (omega arith)
        (later-Gives (suc k) (later m.answers) (later-Gives (suc (suc k)) m.answers g)) in
    let read : text_from l.buf (length front) ≡ done body =
      ap (λ z. text_from z (length front)) there
      ∙ text_from-end front (body ++ (0 ∷ []))
      ∙ text_of-terminated body [] nonzero in
    record {
      to = a.to;
      memory = a.memory;
      ran = rw made (rw (at, read) (rw a.ran refl));
      holds = a.holds;
      live = omega (arith, a.same_live);
      gives = a.gives;
    }
