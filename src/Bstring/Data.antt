-- ===== src/Bstring/Data.antt =====
-- The bytes that `data` and `length` give to a caller.
use wrensong_http_server.Prelude.{◌≡◌, refl, [], ◌∷◌, ◌++◌, length, take, none, some}
use wrensong_http_server.Cstring.{Chars}
use wrensong_http_server.Exec.{Exec, done, fault, ◌>>=◌}
use wrensong_http_server.Bstring.{Block, Bstring}
use wrensong_http_server.Bstring.Contents.{Holds, filled}

-- Bytes that have all been written
unfoldable pub written : Block → Exec Chars
written [] = done []
written (none ∷ b) = fault
written (some c ∷ b) = do s ← written b; done (c ∷ s)

unfoldable pub data_of : Bstring → Exec Chars
unfolding written
data_of b = written (take b.length b.block)

pub written-filled : (s : Chars) → written (filled s) ≡ done s
unfolding written
written-filled [] = refl
written-filled (c ∷ s) = rw (written-filled s)

take-filled : (s : Chars) (b : Block) → take (length s) (filled s ++ b) ≡ filled s
take-filled [] b = refl
take-filled (c ∷ s) b = rw (take-filled s b)

pub data_of-Holds : (b : Bstring) (s : Chars) → Holds b s → data_of b ≡ done s
unfolding data_of
data_of-Holds b s h = rw (h.counted, h.layout, take-filled s (some 0 ∷ h.spare)) (written-filled s)
