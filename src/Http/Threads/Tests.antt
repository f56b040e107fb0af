-- ===== src/Http/Threads/Tests.antt =====
-- A server with one thread in its pool, which has been handed a connection.
use wrensong_http_server.Prelude.{refl, false, [], ◌∷◌, none, some, arith}
use wrensong_http_server.Pool.Queue.{Task, Heap, store, Pool, enqueue}
use wrensong_http_server.Pool.Threads.{submit, testing, enter}
use wrensong_http_server.Pool.Start.{Layout}
use wrensong_http_server.Pool.Signals.{Shared, Turns, stay, onward, quietly, to_nobody}
use wrensong_http_server.Http.Threads.Lifetime.{begun, Ended, http_start-http_end}

abbrev nothing : Heap
nothing a = none

-- `struct pool` as it is with the GNU C library on 64 bits
abbrev linux : Layout
linux = record { size = 136; word = 8; offset = 128 }

-- The connection at the address 7, which the pool does not free
abbrev connection : Task
connection = record { arg = 7; owned = false }

abbrev handed : Pool
handed = record {
  cancelled = false;
  remaining = 1;
  q = some 1;
  end = some 1;
  heap = store nothing 1 (some (record { task = connection; next = none }));
}

abbrev waiting_connection : Shared
waiting_connection = record {
  system = record {
    pool = handed;
    threads = testing ∷ [];
    submitted = connection ∷ [];
    taken = [];
    ran = [];
    completed = 0;
  };
  asleep = 0;
  awake = 0;
}

hand_over : Turns (begun 1 nothing) waiting_connection
unfolding enqueue
hand_over =
    onward (to_nobody (submit 1 connection handed refl refl) refl ((λ e. cc), tt) refl)
      (onward (quietly (enter 0 refl refl) refl) stay)

http_start-http_end_example : Ended linux 1 nothing waiting_connection
http_start-http_end_example =
    http_start-http_end linux nothing 1 {s = waiting_connection} (ground arith) hand_over
