-- ===== src/Pool/Interface/Client.antt =====
-- A client that hands a task to a pool and waits, over any filling of lib/pthread_pool.h.
use wrensong_http_server.Prelude.{
  ℕ, ◌+◌, ◌^◌, ◌<◌, ◌≡◌, ap, ◌∙◌, false, [], ◌∷◌, ◌++◌, length, length-append, arith,
}
use wrensong_http_server.Pool.Queue.{Task}
use wrensong_http_server.Pool.Interface.{Interface}

module _ (i : Interface) where
  -- A task that was handed over, and has been worked on
  pub record HandedOver (n : ℕ) (s : i.S) (a : ℕ) (t : Task) : Type 0 where
    pub queued : i.S
    pub done : i.S
    pub enqueues : i.Enqueued a t s queued
    pub works : i.Work queued done
    pub reached : i.Reached n done
    pub released : i.keeps_waiting done ≡ false
    pub still_open : i.cancelled done ≡ false
    pub same_queued : i.queued done ≡ i.queued s ++ (t ∷ [])
    pub calls : i.called done ≡ i.queued s ++ (t ∷ [])
    pub all_completed : i.completed done ≡ length (i.queued s) + 1
    pub nobody_asleep : i.asleep done ≡ 0

  -- Whatever implements the header, a client of an open pool with a thread can enqueue a task, and the threads
  -- can then work, with nothing else queued and the pool open, until its `pool_wait` returns, when `thread_func`
  -- has been called for the tasks queued before and for this one, once each and in their order.
  pub enqueue-wait :
      {n : ℕ} {s : i.S} (a : ℕ) (t : Task)
      → i.Reached n s
      → 0 < n
      → i.cancelled s ≡ false
      → length (i.queued s) + 1 < 2 ^ 32
      → i.Free s a
      → HandedOver n s a t
  enqueue-wait {n} {s} a t r some_thread open_pool few free =
      let (q, enqueues, r', queues, same, still) = i.enqueued a t r free in
      let (d, works, kept, calls, completed, nobody, open_still, released) =
        i.waited r' some_thread (still ∙ open_pool)
          (omega (arith, few, ap length queues, length-append (i.queued s) (t ∷ []))) in
      record {
        queued = q;
        done = d;
        enqueues = enqueues;
        works = works;
        reached = i.worked r' works;
        released = released;
        still_open = open_still;
        same_queued = kept ∙ queues;
        calls = calls ∙ queues;
        all_completed =
            omega (arith, completed, ap length queues, length-append (i.queued s) (t ∷ []));
        nobody_asleep = nobody;
      }
