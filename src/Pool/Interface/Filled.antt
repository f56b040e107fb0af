-- ===== src/Pool/Interface/Filled.antt =====
-- The pool keeps what its header promises, though only signals and broadcasts wake anyone.
use wrensong_http_server.Prelude.{
  ℕ, zero, suc, ◌+◌, ◌^◌, ◌<◌, ◌≡◌, ◌≢◌, ◌⊎◌, inl, inr, refl, sym, ap, ◌∙◌, true, false, List, [],
  ◌∷◌, ◌++◌, length, append-nil, none, some, get_elem?, All, arith,
}
use wrensong_http_server.Exec.{done}
use wrensong_http_server.Pool.Queue.{Task, Heap, Pool, enqueue, waits}
use wrensong_http_server.Pool.Chain.{Nodes}
use wrensong_http_server.Pool.Drain.{owned_args}
use wrensong_http_server.Pool.Threads.{
  Pc, top, testing, waiting, finishing, exited, running, System, Step, submit, started,
  pool_end_rest,
}
use wrensong_http_server.Pool.Invariant.{tasks}
use wrensong_http_server.Pool.Safety.{FirstInFirstOut, Reach-FirstInFirstOut, Reach-Defined}
use wrensong_http_server.Pool.Awake.{enqueue-cancelled}
use wrensong_http_server.Pool.End.{Reach-waits}
use wrensong_http_server.Pool.Signals.{
  Shared, signals, noise, Turn, Turns, to_thread, to_caller, to_nobody, Comes, begins, goes_on,
  Comes-Turns, Comes-Reach,
}
use wrensong_http_server.Pool.Signals.Drains.{Comes-drains}
use wrensong_http_server.Pool.Signals.Ends.{Comes-ends}
use wrensong_http_server.Pool.Interface.{Interface, args_of}

-- `pool_end` from a state: it cancels the pool, the threads come to their ends, and the rest is freed.
abbrev pub Ends : Shared → List Task → List ℕ → Type 0
Ends s calls args =
    (t : Shared) × (fuel : ℕ) × (p : Pool) × Turns
      (record s {
        system = record (s.system) { pool = record (s.system.pool) { cancelled = true } };
      })
      t
    × (pool_end_rest fuel t.system ≡ some (done (args, p)))
    × (p.q ≡ none)
    × (t.system.taken ≡ calls)

args_of-tasks : (ns : Nodes) → owned_args ns ≡ args_of (tasks ns)
args_of-tasks [] = refl
args_of-tasks ((a, t) ∷ ns) = rw (args_of-tasks ns)

pub ends_lem :
    {n : ℕ} {h : Heap} {s : Shared}
    → Comes n h s
    → (rest : List Task) × (calls : List Task) × Ends s calls (args_of rest)
      × (calls ++ rest ≡ s.system.submitted)
ends_lem c =
    let (t, ns, p, turns, holds, there, ends, empty, freed) = Comes-ends c in
    (
      tasks ns,
      t.system.taken,
      (
        t,
        length ns + 1,
        p,
        turns,
        ends ∙ ap (λ args. some (done (args, p))) (args_of-tasks ns),
        empty,
        refl,
      ),
      there,
    )

no_nodes : (ns : Nodes) → length ns ≡ 0 → tasks ns ≡ []
no_nodes [] e = refl
no_nodes (n ∷ ns) e = absurd (omega arith)

all_taken :
    (s : System) → FirstInFirstOut s → s.completed ≡ length s.submitted → s.taken ≡ s.submitted
all_taken s (ns, holds, in_order, accounted, counted) e = sym (
    in_order
    ∙ ap (λ ts. s.taken ++ ts) (no_nodes ns (omega (arith, accounted, e)))
    ∙ append-nil s.taken)

pub waited_lem :
    {n : ℕ} {h : Heap} {s : Shared}
    → Comes n h s
    → 0 < n
    → s.system.pool.cancelled ≡ false
    → length s.system.submitted < 2 ^ 32
    → (t : Shared) × Turns s t
      × (t.system.submitted ≡ s.system.submitted)
      × (t.system.taken ≡ s.system.submitted)
      × (t.system.completed ≡ length s.system.submitted)
      × (t.asleep ≡ 0)
      × (t.system.pool.cancelled ≡ false)
      × (waits t.system.pool ≡ false)
waited_lem c some_thread open_pool few =
    let (t, turns, same, completed, still_open, nobody) = Comes-drains c some_thread open_pool in
    let r = Comes-Reach (Comes-Turns c turns) in
    let finished = completed ∙ ap length (sym same) in
    (
      t,
      turns,
      same,
      all_taken t.system (Reach-FirstInFirstOut r) finished ∙ same,
      completed,
      nobody,
      still_open,
      (Reach-waits r still_open (omega (arith, few, ap length same))).1 finished,
    )

-- Whether a thread waits, and where
waiter : (cs : List Pc) → All (λ c. c ≢ waiting) cs ⊎ ((i : ℕ) × (get_elem? cs i ≡ some waiting))
waiter [] = inl tt
waiter (waiting ∷ cs) = inr (0, refl)
waiter (top ∷ cs) = elim (waiter cs) [ inl h ↦ inl ((λ e. cc), h) | inr (i, e) ↦ inr (suc i, e) ]
waiter (testing ∷ cs) = elim (waiter cs) [
  | inl h ↦ inl ((λ e. cc), h)
  | inr (i, e) ↦ inr (suc i, e)
]
waiter (finishing ∷ cs) = elim (waiter cs) [
  | inl h ↦ inl ((λ e. cc), h)
  | inr (i, e) ↦ inr (suc i, e)
]
waiter (exited ∷ cs) = elim (waiter cs) [ inl h ↦ inl ((λ e. cc), h) | inr (i, e) ↦ inr (suc i, e) ]
waiter (running a ∷ cs) = elim (waiter cs) [
  | inl h ↦ inl ((λ e. cc), h)
  | inr (i, e) ↦ inr (suc i, e)
]

-- A state behind a step that signals, whoever gets the signal
record Signalled (s : Shared) (t : System) : Type 0 where
  to : Shared
  turn : Turn s to
  same_pool : to.system.pool ≡ t.pool
  same_submitted : to.system.submitted ≡ t.submitted
  same_taken : to.system.taken ≡ t.taken

signalled :
    (s : Shared) {t : System} (st : Step s.system t) (k : ℕ)
    → noise st ≡ signals
    → s.asleep ≡ k
    → Signalled s t
signalled s {t} st k q e = elim (waiter t.threads) [
  | inr (i, at) ↦ record {
    to = _;
    turn = to_thread st i q at;
    same_pool = refl;
    same_submitted = refl;
    same_taken = refl;
  }
  | inl none_waits ↦ by_callers k e none_waits
]
  where
    by_callers : (k : ℕ) → s.asleep ≡ k → All (λ c. c ≢ waiting) t.threads → Signalled s t
    by_callers zero e none_waits = record {
      to = _;
      turn = to_nobody st q none_waits e;
      same_pool = refl;
      same_submitted = refl;
      same_taken = refl;
    }
    by_callers (suc k) e none_waits = record {
      to = _;
      turn = to_caller st k q e;
      same_pool = refl;
      same_submitted = refl;
      same_taken = refl;
    }

pub enqueued_lem :
    {n : ℕ} {h : Heap} {s : Shared} (a : ℕ) (t : Task)
    → Comes n h s
    → s.system.pool.heap a ≡ none
    → (s' : Shared) × (Turn s s' × (enqueue a t s.system.pool ≡ done s'.system.pool))
      × Comes n h s'
      × (s'.system.submitted ≡ s.system.submitted ++ (t ∷ []))
      × (s'.system.taken ≡ s.system.taken)
      × (s'.system.pool.cancelled ≡ s.system.pool.cancelled)
enqueued_lem {s = s} a t c free =
    let (p, e) = (Reach-Defined (Comes-Reach c)).enqueues a t free in
    let g = signalled s (submit a t p free e) s.asleep refl refl in
    (
      g.to,
      (g.turn, e ∙ ap done (sym g.same_pool)),
      goes_on c g.turn,
      g.same_submitted,
      g.same_taken,
      ap (λ q. q.cancelled) g.same_pool ∙ enqueue-cancelled a t s.system.pool e,
    )

-- The pool of lib/pthread_pool.c, over the memory that its nodes come from
abbrev pub pool : Heap → Interface
pool h = record {
  S = Shared;
  Reached = λ n s. Comes n h s;
  Work = Turns;
  Free = λ s a. s.system.pool.heap a ≡ none;
  start = λ n. record { system = started n h; asleep = 0; awake = 0 };
  Enqueued = λ a t s s'. Turn s s' × (enqueue a t s.system.pool ≡ done s'.system.pool);
  keeps_waiting = λ s. waits s.system.pool;
  End = Ends;
  cancelled = λ s. s.system.pool.cancelled;
  queued = λ s. s.system.submitted;
  called = λ s. s.system.taken;
  completed = λ s. s.system.completed;
  asleep = λ s. s.asleep;
  start_reached = λ n. begins;
  start_open = λ n. refl;
  start_empty = λ n. refl;
  enqueued = λ {n} {s} a t c free. enqueued_lem a t c free;
  worked = λ {n} {s} {t} c turns. Comes-Turns c turns;
  once_each = λ {n} {s} c.
      let (ns, holds, in_order, accounted, counted) = Reach-FirstInFirstOut (Comes-Reach c) in
      (tasks ns, in_order);
  waited = λ {n} {s} c. waited_lem c;
  ended = λ {n} {s} c. ends_lem c;
}
