-- ===== src/Pool/Interface/Tests.antt =====
-- A task handed to a pool of one thread.
use wrensong_http_server.Prelude.{◌≡◌, refl, none, false, [], ◌∷◌, arith}
use wrensong_http_server.Exec.{done}
use wrensong_http_server.Pool.Queue.{Task, Heap, enqueue, waits}
use wrensong_http_server.Pool.Threads.{started}
use wrensong_http_server.Pool.Signals.{Shared, Turn, Turns, Comes, begins}
use wrensong_http_server.Pool.Interface.Handed.{pool_enqueue-pool_wait}

abbrev nothing : Heap
nothing a = none

abbrev connection : Task
connection = record { arg = 7; owned = false }

abbrev begun : Shared
begun = record { system = started 1 nothing; asleep = 0; awake = 0 }

pool_enqueue-pool_wait_example :
    (q d : Shared) × Turn begun q
    × (enqueue 1 connection begun.system.pool ≡ done (q.system.pool))
    × Turns q d
    × Comes 1 nothing d
    × (waits d.system.pool ≡ false)
    × (d.asleep ≡ 0)
    × (d.system.pool.cancelled ≡ false)
    × (d.system.submitted ≡ connection ∷ [])
    × (d.system.taken ≡ connection ∷ [])
    × (d.system.completed ≡ 1)
pool_enqueue-pool_wait_example =
    pool_enqueue-pool_wait {n = 1} {h = nothing} {s = begun} 1 connection begins (ground arith) refl
      (ground arith) refl
