-- ===== src/Pool/Safety.antt =====
-- What holds in every state of the pool that can be reached.
use wrensong_http_server.Prelude.{
  ℕ, zero, suc, ◌+◌, ◌%◌, ◌^◌, ◌≡◌, ◌≢◌, refl, sym, ap, ◌∙◌, [], ◌∷◌, ◌++◌, length, none, some,
  arith, get_elem?, replicate,
}
use wrensong_http_server.Exec.{done}
use wrensong_http_server.Pool.Queue.{Task, Node, Heap, Pool, enqueue, dequeue, finish}
use wrensong_http_server.Pool.Chain.{
  Nodes, Holds, Chain-Avoids, finish_lem, enqueue-Enqueued, dequeue-Dequeued,
}
use wrensong_http_server.Pool.Threads.{
  top, testing, waiting, exited, running, System, Step, submit, enter, leave, sleep, wake, give_up,
  take, run, complete, cancel, started, Reach, start, next,
}
use wrensong_http_server.Pool.Invariant.{
  tasks, busy, InvOf, Inv-move, Inv-submit, Inv-run, Inv-take, Inv-complete, Inv-cancel,
}

pub Step-Inv : {s t : System} → Step s t → InvOf s → InvOf t
Step-Inv (submit a t p free e) v = Inv-submit v a t free e
Step-Inv (enter i at c) v = Inv-move v i top testing at refl refl (λ a q. cc)
Step-Inv (leave i at c) v = Inv-move v i top exited at refl refl (λ a q. cc)
Step-Inv (sleep i at c e) v = Inv-move v i testing waiting at refl refl (λ a q. cc)
Step-Inv (wake i at) v = Inv-move v i waiting testing at refl refl (λ a q. cc)
Step-Inv (give_up i at c) v = Inv-move v i testing exited at refl refl (λ a q. cc)
Step-Inv (take i a n p at c e here) v = Inv-take v i a n v.nodes refl at e here
Step-Inv (run i a t p at e) v = Inv-run v i a at e
Step-Inv (complete i at) v = Inv-complete v i at
Step-Inv cancel v = Inv-cancel v

busy-replicate : (n : ℕ) → busy (replicate n top) ≡ 0
busy-replicate zero = refl
busy-replicate (suc n) = omega (arith, busy-replicate n)

none_runs : (n i a : ℕ) → get_elem? (replicate n top) i ≢ some (running a)
none_runs zero i a e = cc
none_runs (suc n) zero a e = cc
none_runs (suc n) (suc i) a e = none_runs n i a e

started-Inv : (n : ℕ) (h : Heap) → InvOf (started n h)
started-Inv n h = record {
  nodes = [];
  holds = record { chain = refl; at_end = refl; distinct = tt };
  owned = record {
    there = λ i a e. absurd (none_runs n i a e);
    alone = λ i j a e f. absurd (none_runs n i a e);
  };
  in_order = refl;
  accounted = omega (arith, busy-replicate n);
  counted = omega (arith, busy-replicate n);
}

pub Reach-Inv : {n : ℕ} {h : Heap} {s : System} → Reach n h s → InvOf s
Reach-Inv start = started-Inv _ _
Reach-Inv (next r t) = Step-Inv t (Reach-Inv r)

-- No task is lost, duplicated or overtaken
abbrev pub FirstInFirstOut : System → Type 0
FirstInFirstOut s =
    (ns : Nodes) × Holds s.pool ns
    × (s.submitted ≡ s.taken ++ tasks ns)
    × (length ns + busy s.threads + s.completed ≡ length s.submitted)
    × (s.pool.remaining ≡ (length ns + busy s.threads) % 2 ^ 32)

-- In every state that `n` threads reach, the linked queue holds exactly the tasks that were submitted
-- and not taken, in the order of their submission, after those that were taken. Every task is waiting,
-- with a thread, or counted as completed, and `remaining` is the number of the first two modulo 2³².
pub Reach-FirstInFirstOut : {n : ℕ} {h : Heap} {s : System} → Reach n h s → FirstInFirstOut s
Reach-FirstInFirstOut r =
    let v = Reach-Inv r in (v.nodes, v.holds, v.in_order, v.accounted, v.counted)

-- What follows no dangling pointer in a state
pub record Defined (s : System) : Type 0 where
  pub enqueues :
      (a : ℕ) (t : Task) → s.pool.heap a ≡ none → (p : Pool) × (enqueue a t s.pool ≡ done p)
  pub dequeues :
      s.pool.q ≢ none
      → (a : ℕ) × (p : Pool) × (n : Node) × (dequeue s.pool ≡ done (a, p))
        × (s.pool.heap a ≡ some n)
  pub finishes :
      (i a : ℕ)
      → get_elem? s.threads i ≡ some (running a)
      → (t : Task) × (p : Pool) × (finish a s.pool ≡ done (t, p))
  pub alone :
      (i j a : ℕ)
      → get_elem? s.threads i ≡ some (running a)
      → get_elem? s.threads j ≡ some (running a)
      → i ≡ j

pub dequeues_of :
    (p : Pool) (ns : Nodes)
    → Holds p ns
    → p.q ≢ none
    → (a : ℕ) × (p' : Pool) × (n : Node) × (dequeue p ≡ done (a, p')) × (p.heap a ≡ some n)
dequeues_of p [] h some_node = absurd (some_node h.chain)
dequeues_of p ((a, t) ∷ ns) h some_node =
    let D = dequeue-Dequeued p a t ns h in
    let (nx, at) = D.task_there in
    (a, D.to, record { task = t; next = nx }, D.dequeues, ap (λ g. g a) (sym D.same_heap) ∙ at)

-- In every state that `n` threads reach, each critical section is defined: `pool_enqueue` with memory
-- that is free, taking a node off a queue that is not empty, and running the task that a thread has
-- taken. No two threads have the same node.
pub Reach-Defined : {n : ℕ} {h : Heap} {s : System} → Reach n h s → Defined s
Reach-Defined {s = s} r =
    let v = Reach-Inv r in
    record {
      enqueues = λ a t free.
          let E =
            enqueue-Enqueued s.pool v.nodes a t v.holds
              (Chain-Avoids s.pool.heap s.pool.q v.nodes a free v.holds.chain) in
          (E.to, E.enqueues);
      dequeues = dequeues_of s.pool v.nodes v.holds;
      finishes = λ i a at.
          let (n, he, av) = v.owned.there i a at in
          (n.task, record (s.pool) { heap = _ }, (finish_lem s.pool v.nodes a n v.holds av he).0);
      alone = v.owned.alone;
    }
