-- ===== src/Http/Threads/Lifetime.antt =====
-- From `http_start` to `http_end`.
use wrensong_http_server.Prelude.{
  ℕ, ◌+◌, ◌^◌, ◌<◌, ◌≡◌, refl, true, List, [], ◌∷◌, ◌++◌, length, some, arith,
}
use wrensong_http_server.Prelude.Int.{pos}
use wrensong_http_server.Exec.{done}
use wrensong_http_server.Pool.Queue.{Heap, Pool}
use wrensong_http_server.Pool.Chain.{Nodes, Holds}
use wrensong_http_server.Pool.Drain.{owned_args}
use wrensong_http_server.Pool.Threads.{System, started, pool_end_rest}
use wrensong_http_server.Pool.Start.{Layout, pool_start_lem}
use wrensong_http_server.Pool.Awake.{Reach-length}
use wrensong_http_server.Pool.Invariant.{tasks}
use wrensong_http_server.Pool.Signals.{Shared, Turns, Comes, begins, Comes-Turns, Comes-Reach}
use wrensong_http_server.Pool.Signals.Ends.{Comes-ends}
use wrensong_http_server.Http.Threads.{
  base_made, pool_started, thread_created, base_freed, loop_broken, thread_joined, pool_ended,
  to_unsigned, http_start, http_end,
}

-- The pool as `pool_start` leaves it, with no caller
abbrev pub begun : ℕ → Heap → Shared
begun n h = record { system = started n h; asleep = 0; awake = 0 }

-- The start of the server with `n` threads, and its end from the state `s` of its pool
pub record Ended (l : Layout) (n : ℕ) (h : Heap) (s : Shared) : Type 0 where
  pub starts :
      http_start true true l h (pos n)
      ≡ done (
        record { has_base = true; thread_pool = some (started n h) },
        base_made ∷ pool_started n ∷ thread_created true ∷ [],
      )
  pub threads_there : length s.system.threads ≡ n
  pub to : Shared
  pub turns :
      Turns
        (record s {
          system = record (s.system) { pool = record (s.system.pool) { cancelled = true } };
        })
        to
  pub left : Nodes
  pub holds : Holds to.system.pool left
  pub all_there : to.system.taken ++ tasks left ≡ s.system.submitted
  pub ends :
      http_end (length left + 1) (record { has_base = true; thread_pool = some (to.system) })
      ≡ some (done (loop_broken ∷ thread_joined ∷ base_freed ∷ pool_ended (owned_args left) ∷ []))

http_end_lem :
    (fuel : ℕ) (s : System) {args : List ℕ} {p : Pool}
    → pool_end_rest fuel s ≡ some (done (args, p))
    → http_end fuel (record { has_base = true; thread_pool = some s })
      ≡ some (done (loop_broken ∷ thread_joined ∷ base_freed ∷ pool_ended args ∷ []))
unfolding http_end
http_end_lem fuel s e = rw (http_end, e)

-- With a base and memory for the pool, `http_start` of fewer than 2³¹ threads makes the base, starts the pool
-- with that many threads, and gives the base to the thread of the event loop. From every state that the pool
-- then comes to, where only signals and broadcasts wake anyone, it still has that many threads, and `http_end`
-- can come to its end: once the pool is cancelled its broadcast is enough for the threads to come to their ends,
-- the tasks that they have not taken are still on the queue, in order, and `http_end`, having freed the base,
-- frees the arguments of those that own theirs.
pub http_start-http_end :
    (l : Layout) (h : Heap) (n : ℕ) {s : Shared} → n < 2 ^ 31 → Turns (begun n h) s → Ended l n h s
unfolding http_start
http_start-http_end l h n {s = s} few turns =
    let c : Comes n h s = Comes-Turns begins turns in
    let (to, ns, p, turns, holds, there, ends, empty, freed) = Comes-ends c in
    record {
      starts = rw (same_count n few, pool_start_lem l h n few) refl;
      threads_there = Reach-length (Comes-Reach c);
      to = to;
      turns = turns;
      left = ns;
      holds = holds;
      all_there = there;
      ends = http_end_lem _ to.system ends;
    }
  where
    same_count : (n : ℕ) → n < 2 ^ 31 → to_unsigned (pos n) ≡ n
    same_count n few = omega arith
