-- ===== src/Bstring/Tests.antt =====
-- Strings made, appended to and freed.
use wrensong_http_server.Prelude.{◌^◌, ◌<◌, ◌≤◌, ◌≡◌, refl, true, [], ◌∷◌, none, some, arith}
use wrensong_http_server.Cstring.{codes}
use wrensong_http_server.Exec.{done, memcpy, write_at}
use wrensong_http_server.Bstring.{
  Bstring, Allocator, grown_capacity, append, init, init_fill, init_capacity, free,
}
use wrensong_http_server.Bstring.Contents.{Holds}
use wrensong_http_server.Bstring.Append.{grown_capacity_bounds, Appended, append-Appended}
use wrensong_http_server.Bstring.Init.{Initialized, init-Initialized, init-free}

abbrev memory : Allocator
memory = record { answers = true ∷ true ∷ []; live = 0 }

-- `hi` in a block of four bytes
abbrev hi : Bstring
hi = record { block = some 104 ∷ some 105 ∷ some 0 ∷ none ∷ []; length = 2; capacity = 4 }

hi-Holds : Holds hi (codes "hi")
hi-Holds = record {
  spare = none ∷ [];
  layout = refl;
  counted = refl;
  allocated = refl;
  small = ground arith;
}

append-Appended_example :
    Appended memory hi
      (codes "hi")
      (codes " there")
      (append memory (some hi) (some (codes " there")))
append-Appended_example =
    append-Appended memory hi (codes "hi") (codes " there") hi-Holds (ground arith)

grown_capacity_bounds_example :
    (20 < grown_capacity 16 20)
    × (16 ≤ grown_capacity 16 20)
    × (grown_capacity 16 20 < 2 ^ 32)
    × (grown_capacity 16 20 ≡ 32)
grown_capacity_bounds_example = grown_capacity_bounds 16 20 (ground arith) (ground arith)

init-Initialized_example : Initialized memory 2 (codes "hi") (init memory 2 (some (codes "hi")))
init-Initialized_example =
    init-Initialized memory 2 (some (codes "hi")) (ground arith) (ground arith)

abbrev made : Bstring
made = record { block = some 104 ∷ some 105 ∷ some 0 ∷ []; length = 2; capacity = 3 }

init-free_example :
    (m'' : Allocator) × (free (record { answers = []; live = 2 }) (some made) ≡ done m'')
    × (m''.live ≡ 0)
unfolding init init_fill init_capacity memcpy write_at
init-free_example =
    init-free memory 2 (some (codes "hi")) {b = made} {m' = record { answers = []; live = 2 }}
      (ground arith) (ground arith) refl
