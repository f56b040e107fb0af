-- ===== src/Legacy/Texts.antt =====
-- The text answers: what is sent, and the buffer that they are printed into.
use wrensong_http_server.Prelude.{
  ℕ, ◌+◌, ◌≤◌, ◌<◌, ◌≡◌, Bool, true, false, ◌++◌, length, ltb, lt→ltb, if◌then◌else◌, Option, arith,
  length-append,
}
use wrensong_http_server.Cstring.{Chars, codes}
use wrensong_http_server.Exec.{done, fault}
use wrensong_http_server.Bstring.{Bstring, Allocator, answer as granted, later, malloc, free_block}
use wrensong_http_server.Legacy.World.{buffer_size, World, send}
use wrensong_http_server.Legacy.Receive.{Request}
use wrensong_http_server.Legacy.Respond.{Local, reply, digits, plain_text, reply_text, echo, answer}
use wrensong_http_server.Legacy.Decimal.{length-digits_three, length-digits_bound}

ge→ltb : (a b : ℕ) → b ≤ a → ltb a b ≡ false
ge→ltb a b h = ground arith

length-plain_text :
    (s : Chars) → length (plain_text s) ≡ 62 + length (digits 20 (length s)) + length s
length-plain_text s = omega (arith, length-append (digits 20 (length s)) (codes "\r\n\r\n" ++ s))

granted_lem :
    (m : Allocator)
    → granted m.answers ≡ true
    → malloc m ≡ (true, record { answers = later m.answers; live = m.live + 1 })
granted_lem m g = rw g

printed :
    (s : Chars) (l : Local) (fits : Bool)
    → ltb (length (plain_text s)) buffer_size ≡ fits
    → granted l.memory.answers ≡ true
    → reply_text s l ≡ (
        if fits
        then done (
            reply (plain_text s) (record l {
              memory =
                  free_block
                    (record { answers = later l.memory.answers; live = l.memory.live + 1 });
            }))
        else fault)
unfolding reply_text
printed s l fits e g = rw (granted_lem l.memory g, e)

-- Up to 958 bytes behind `/echo/` are sent back, with their length before them, where there is memory;
-- the block that they are printed into is freed, and nothing else changes.
pub answer_echo :
    (w : World) (r : Request) (body : Option Bstring) (s : Chars) (l : Local)
    → length s ≤ 958
    → granted l.memory.answers ≡ true
    → (m : Allocator) × (answer w r body (echo s) l
        ≡ done (record l { memory = m; out = send (plain_text s) l.out }))
      × (m.live ≡ l.memory.live)
unfolding answer
answer_echo w r body s l h g = (
  free_block (record { answers = later l.memory.answers; live = l.memory.live + 1 }),
  printed s l true
      (lt→ltb (length (plain_text s)) 1024
        (omega (arith, length-plain_text s, length-digits_bound (length s) (omega arith))))
      g,
  omega arith,
)

-- From 959 bytes on, up to 999, which a request of 1023 bytes has room for, the answer does not fit
-- the block that it is printed into.
pub answer_echo_overflows :
    (w : World) (r : Request) (body : Option Bstring) (s : Chars) (l : Local)
    → 959 ≤ length s
    → length s < 1000
    → answer w r body (echo s) l ≡ fault
unfolding answer reply_text
answer_echo_overflows w r body s l h k = rw (reply_text, does_not_fit) (ground arith)
  where
    does_not_fit : ltb (length (plain_text s)) buffer_size ≡ false
    does_not_fit =
        ge→ltb (length (plain_text s)) 1024
          (omega (arith, length-plain_text s, length-digits_three (length s) (omega arith) k))
