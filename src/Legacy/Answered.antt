-- ===== src/Legacy/Answered.antt =====
-- `_handle_connection` of src/old.c from the first byte to the last, for the answers that need no file.
use wrensong_http_server.Prelude.{ℕ, ◌≡◌, ◌≤◌, [], ◌∷◌, length, some}
use wrensong_http_server.Cstring.{Chars, codes}
use wrensong_http_server.Exec.{done}
use wrensong_http_server.Bstring.{Bstring, Allocator, answer as granted}
use wrensong_http_server.Legacy.World.{World, sent, connection_freed, descriptor_closed}
use wrensong_http_server.Legacy.Respond.{Route, root, echo, no_route, plain_text, answer}
use wrensong_http_server.Legacy.Handler.{handle}

-- The answer to a route that needs no file and no header, with what fits the block of the answer
pub data Answer : Route → Chars → Type 0 where
  for_root : Answer root (codes "HTTP/1.1 200 OK\r\n\r\n")
  for_echo : (s : Chars) → length s ≤ 958 → Answer (echo s) (plain_text s)
  for_no_route : Answer no_route (codes "HTTP/1.1 404 Not Found\r\n\r\n")

-- One request, answered
pub record Answered (w : World) (m : Allocator) (filename : Bstring) (fd : ℕ) (text : Chars)
    : Type 0 where
  pub memory : Allocator
  pub ran :
      handle w m filename (some fd)
      ≡ done (record {
        memory = memory;
        filename = filename;
        actions = sent text ∷ connection_freed ∷ descriptor_closed fd ∷ [];
      })
  pub balanced : memory.live ≡ m.live
