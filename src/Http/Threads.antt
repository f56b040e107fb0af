-- ===== src/Http/Threads.antt =====
-- The threads of src/http.c: the event loop that `http_start` begins and `http_end` ends, around the
-- pool of lib/pthread_pool.c. The calls of libevent and of pthread are recorded in their order.
pub mod Lifetime
mod Tests
use wrensong_http_server.Prelude.{
  ℕ, ◌+◌, ◌-◌, ◌%◌, ◌^◌, Bool, true, false, List, [], ◌∷◌, Option, none, some,
}
use wrensong_http_server.Prelude.Int.{ℤ, pos, negsuc}
use wrensong_http_server.Exec.{Exec, done, fault, ◌>>=◌}
use wrensong_http_server.Pool.Queue.{Heap, Pool, drain}
use wrensong_http_server.Pool.Threads.{System, pool_end_rest}
use wrensong_http_server.Pool.Start.{Layout, pool_start}

pub data Call : Type 0 where
  base_made base_dispatched loop_broken thread_joined base_freed : Call
  pool_started : ℕ → Call
  thread_created : Bool → Call
  -- `pool_end`, with the arguments that it frees
  pool_ended : List ℕ → Call

-- `http` and `thread_pool`: whether there is a base, and the pool with its threads
pub record Globals : Type 0 where
  pub has_base : Bool
  pub thread_pool : Option System

abbrev pub no_globals : Globals
no_globals = record { has_base = false; thread_pool = none }

-- An `int` given as an `unsigned int`
abbrev pub to_unsigned : ℤ → ℕ
to_unsigned (pos n) = n % 2 ^ 32
to_unsigned (negsuc n) = (2 ^ 32 - 1 - n % 2 ^ 32) % 2 ^ 32

-- `http_thread_func`, told whether its argument is a base; `event_base_dispatch` reads through it.
unfoldable pub http_thread_func : Bool → Exec (List Call)
http_thread_func true = done (base_dispatched ∷ [])
http_thread_func false = fault

-- `http_start`, with the answers of `event_base_new` and of the `malloc` of `pool_start`, and the memory that the
-- pool's nodes come from
unfoldable pub http_start : Bool → Bool → Layout → Heap → ℤ → Exec (Globals × List Call)
unfolding pool_start
http_start base granted l h thread_count = do
  let threads = to_unsigned thread_count
  s ← pool_start granted l h threads
  done (
    record { has_base = base; thread_pool = some s },
    base_made ∷ pool_started threads ∷ thread_created base ∷ [],
  )

-- `pool_end` of the pool whose threads are where its joins find them; the pool is freed.
end_pool : ℕ → Option System → Option (Exec (List Call))
unfolding pool_end_rest
end_pool fuel none = some fault
end_pool fuel (some s) = elim (pool_end_rest fuel s) [
  | none ↦ none
  | some r ↦ some (r >>= λ r. done (pool_ended r.0 ∷ []))
]

-- `http_end`, with fuel for the loop of `pool_end`: it does not come to its end while a thread of the
-- pool runs.
unfoldable pub http_end : ℕ → Globals → Option (Exec (List Call))
unfolding end_pool
http_end fuel g = elim g.has_base [
  | false ↦ some fault
  | true ↦ elim (end_pool fuel g.thread_pool) [
    | none ↦ none
    | some r ↦ some (r >>= λ cs. done (loop_broken ∷ thread_joined ∷ base_freed ∷ cs))
  ]
]
