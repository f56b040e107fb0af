-- ===== src/Pool/Interface/Handed.antt =====
-- The client of the pool, over lib/pthread_pool.c.
use wrensong_http_server.Prelude.{ℕ, ◌+◌, ◌^◌, ◌<◌, ◌≡◌, false, [], ◌∷◌, ◌++◌, length, none}
use wrensong_http_server.Exec.{done}
use wrensong_http_server.Pool.Queue.{Task, Heap, enqueue, waits}
use wrensong_http_server.Pool.Signals.{Shared, Turn, Turns, Comes}
use wrensong_http_server.Pool.Interface.Filled.{pool}
use wrensong_http_server.Pool.Interface.Client.{HandedOver, enqueue-wait}

-- A pool that is not cancelled and has a thread, and fewer than 2³² - 1 tasks so far, in any state that
-- it comes to where only signals and broadcasts wake anyone: `pool_enqueue` with memory for the node succeeds,
-- whoever gets its signal, and there are turns behind it, which wake nobody but by a signal or a broadcast,
-- with no other task submitted and the pool not cancelled, up to a state in which `pool_wait` lets its caller
-- go and no caller of it sleeps: there exactly the tasks queued before and this one have been taken to be run,
-- once each and in their order, and all of them are completed.
pub pool_enqueue-pool_wait :
    {n : ℕ} {h : Heap} {s : Shared} (a : ℕ) (t : Task)
    → Comes n h s
    → 0 < n
    → s.system.pool.cancelled ≡ false
    → length s.system.submitted + 1 < 2 ^ 32
    → s.system.pool.heap a ≡ none
    → (q d : Shared) × Turn s q
      × (enqueue a t s.system.pool ≡ done (q.system.pool))
      × Turns q d
      × Comes n h d
      × (waits d.system.pool ≡ false)
      × (d.asleep ≡ 0)
      × (d.system.pool.cancelled ≡ false)
      × (d.system.submitted ≡ s.system.submitted ++ (t ∷ []))
      × (d.system.taken ≡ s.system.submitted ++ (t ∷ []))
      × (d.system.completed ≡ length s.system.submitted + 1)
pool_enqueue-pool_wait {n} {h} {s} a t c some_thread open_pool few free =
    let o : HandedOver (pool h) n s a t =
      enqueue-wait (pool h) a t c some_thread open_pool few free in
    (
      o.queued, o.done, o.enqueues.0, o.enqueues.1, o.works, o.reached, o.released, o.nobody_asleep,
      o.still_open, o.same_queued, o.calls, o.all_completed,
    )
