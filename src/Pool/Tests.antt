-- ===== src/Pool/Tests.antt =====
-- Runs of the pool.
use wrensong_http_server.Exec.{done}
use wrensong_http_server.Pool.End.{Reach-waits}
use wrensong_http_server.Pool.Signals.{
  Shared, Turns, Comes, begins, goes_on, calls, falls_asleep, to_nobody, to_caller,
}
use wrensong_http_server.Pool.Signals.Drains.{Comes-drains}
use wrensong_http_server.Pool.Signals.Ends.{Comes-ends}
use wrensong_http_server.Pool.Invariant.{tasks}
use wrensong_http_server.Prelude.{
  ℕ, List, refl, true, false, [], ◌∷◌, none, some, arith, ◌↔◌, ◌+◌, length, ◌≡◌, ◌++◌, All, ◌≤◌,
  ◌*◌, ◌-◌, ◌^◌,
}
use wrensong_http_server.Pool.Queue.{Task, Heap, store, Pool, enqueue, dequeue, waits}
use wrensong_http_server.Pool.Chain.{
  Nodes, Holds, Enqueued, enqueue-Enqueued, Dequeued, dequeue-Dequeued,
}
use wrensong_http_server.Pool.Threads.{
  System, submit, enter, take, top, running, Reach, start, next, pool_end_rest,
}
use wrensong_http_server.Pool.Start.{Layout, block_size, slots, slots-fits}
use wrensong_http_server.Pool.Drain.{Drained, drain-Drained, owned_args}
use wrensong_http_server.Pool.Safety.{
  FirstInFirstOut, Reach-FirstInFirstOut, Defined, Reach-Defined,
}

abbrev nothing : Heap
nothing a = none

abbrev task_a : Task
task_a = record { arg = 7; owned = true }

abbrev task_b : Task
task_b = record { arg = 9; owned = false }

-- Tasks at the addresses 1 and 2
abbrev two : Pool
two = record {
  cancelled = false;
  remaining = 2;
  q = some 1;
  end = some 2;
  heap =
      store (store nothing 1 (some (record { task = task_a; next = some 2 }))) 2
        (some (record { task = task_b; next = none }));
}

abbrev two_nodes : Nodes
two_nodes = (1, task_a) ∷ (2, task_b) ∷ []

two-Holds : Holds two two_nodes
two-Holds = record {
  chain = (refl, (some 2, refl, (refl, (none, refl, refl))));
  at_end = refl;
  distinct = (((λ e. ground arith), tt), (tt, tt));
}

enqueue-Enqueued_example : Enqueued two two_nodes 3 task_a
enqueue-Enqueued_example =
    enqueue-Enqueued two two_nodes 3 task_a two-Holds
      ((λ e. ground arith), ((λ e. ground arith), tt))

dequeue-Dequeued_example : Dequeued two 1 task_a ((2, task_b) ∷ [])
dequeue-Dequeued_example = dequeue-Dequeued two 1 task_a ((2, task_b) ∷ []) two-Holds

drain-Drained_example : Drained 3 two two_nodes
drain-Drained_example = drain-Drained 3 two two_nodes two-Holds (ground arith)

-- One thread; two tasks are submitted, and the thread has taken the first.
abbrev one : Pool
one = record {
  cancelled = false;
  remaining = 1;
  q = some 1;
  end = some 1;
  heap = store nothing 1 (some (record { task = task_a; next = none }));
}

abbrev linked : Pool
linked = record {
  cancelled = false;
  remaining = 2;
  q = some 1;
  end = some 2;
  heap =
      store (store one.heap 2 (some (record { task = task_b; next = none }))) 1
        (some (record { task = task_a; next = some 2 }));
}

abbrev reached : System
reached = record {
  pool = record linked { q = some 2 };
  threads = running 1 ∷ [];
  submitted = task_a ∷ task_b ∷ [];
  taken = task_a ∷ [];
  ran = [];
  completed = 0;
}

reached_lem : Reach 1 nothing reached
unfolding enqueue dequeue
reached_lem =
    next
      (next (next (next start (submit 1 task_a one refl refl)) (submit 2 task_b linked refl refl))
        (enter 0 refl refl))
      (take 0 1 (record { task = task_a; next = some 2 }) (record linked { q = some 2 }) refl refl
        refl refl)

Reach-FirstInFirstOut_example : FirstInFirstOut reached
Reach-FirstInFirstOut_example =
    Reach-FirstInFirstOut {n = 1} {h = nothing} {s = reached} reached_lem

Reach-Defined_example : Defined reached
Reach-Defined_example = Reach-Defined {n = 1} {h = nothing} {s = reached} reached_lem

Reach-waits_example : (waits reached.pool ≡ false) ↔ (reached.completed ≡ length reached.submitted)
Reach-waits_example =
    Reach-waits {n = 1} {h = nothing} {s = reached} reached_lem refl (ground arith)

-- `struct pool` as it is with the GNU C library on 64 bits
abbrev linux : Layout
linux = record { size = 136; word = 8; offset = 128 }

slots-fits_example :
    (at : List ℕ) × (slots linux 16 ≡ done at)
    × (length at ≡ 16)
    × All (λ a. a + 8 ≤ block_size linux 16) at
slots-fits_example = slots-fits linux 16 (ground arith) (ground arith) (ground arith) (ground arith)

-- With no threads the block has room for 2³² - 1 of them.
block_size_none : block_size linux 0 ≡ 136 + (2 ^ 32 - 1) * 8
unfolding block_size
block_size_none = refl

-- One thread that has not begun, two tasks on the queue, and a caller of `pool_wait` that has got the signal of
-- the second one, and sleeps again
abbrev shared : Shared
shared = record {
  system = record {
    pool = linked;
    threads = top ∷ [];
    submitted = task_a ∷ task_b ∷ [];
    taken = [];
    ran = [];
    completed = 0;
  };
  asleep = 1;
  awake = 0;
}

shared_lem : Comes 1 nothing shared
unfolding enqueue waits
shared_lem =
    goes_on
      (goes_on
        (goes_on
          (goes_on
            (goes_on begins (to_nobody (submit 1 task_a one refl refl) refl ((λ e. cc), tt) refl))
            calls)
          (falls_asleep 0 refl refl))
        (to_caller (submit 2 task_b linked refl refl) 0 refl refl))
      (falls_asleep 0 refl refl)

Comes-drains_example :
    (t : Shared) × Turns shared t
    × (t.system.submitted ≡ task_a ∷ task_b ∷ [])
    × (t.system.completed ≡ 2)
    × (t.system.pool.cancelled ≡ false)
    × (t.asleep ≡ 0)
Comes-drains_example =
    Comes-drains {n = 1} {h = nothing} {s = shared} shared_lem (ground arith) refl

Comes-ends_example :
    (t : Shared) × (ns : Nodes) × (p : Pool) × Turns
      (record shared {
        system = record (shared.system) { pool = record linked { cancelled = true } };
      })
      t
    × Holds t.system.pool ns
    × (t.system.taken ++ tasks ns ≡ task_a ∷ task_b ∷ [])
    × (pool_end_rest (length ns + 1) t.system ≡ some (done (owned_args ns, p)))
    × (p.q ≡ none)
    × All (λ x. p.heap x.0 ≡ none) ns
Comes-ends_example = Comes-ends {n = 1} {h = nothing} {s = shared} shared_lem
