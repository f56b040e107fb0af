-- ===== src/Pool/Signals/Drains.antt =====
-- The threads get all their work done, though only signals wake them.
use wrensong_http_server.Prelude.{
  ℕ, zero, suc, ◌+◌, ◌-◌, ◌*◌, ◌<◌, ◌≡◌, ◌≢◌, inl, inr, refl, sym, ◌∙◌, ap, Bool-cases, ltb, false,
  List, [], ◌∷◌, map, length, none, some, get_elem?, set, All-get, arith, length-append,
}
use wrensong_http_server.Pool.Queue.{Heap, finished}
use wrensong_http_server.Pool.Chain.{Nodes, Holds, finish_lem}
use wrensong_http_server.Pool.Threads.{
  Pc, top, testing, waiting, finishing, exited, running, enter, take, run, complete,
}
use wrensong_http_server.Pool.Safety.{Reach-Inv, dequeues_of}
use wrensong_http_server.Pool.Awake.{dequeue-cancelled, finish-cancelled, Reach-Awake}
use wrensong_http_server.Pool.Progress.{
  load, load-set, load-get, busy-le-load, Working, runs, finishes, working, nodes_left,
}
use wrensong_http_server.Pool.Signals.{
  Shared, roused, Turn, Turns, stay, onward, quietly, completes, Comes, goes_on, Comes-Turns,
  Comes-Reach,
}
use wrensong_http_server.Pool.Signals.Kept.{IsUp, up, some_task, Comes-Kept}

load-roused : (cs : List Pc) → load (map roused cs) ≡ load cs
load-roused [] = refl
load-roused (waiting ∷ cs) = omega (arith, load-roused cs)
load-roused (top ∷ cs) = omega (arith, load-roused cs)
load-roused (testing ∷ cs) = omega (arith, load-roused cs)
load-roused (exited ∷ cs) = omega (arith, load-roused cs)
load-roused (finishing ∷ cs) = omega (arith, load-roused cs)
load-roused (running a ∷ cs) = omega (arith, load-roused cs)

set_here :
    (cs : List Pc) (i : ℕ) {c : Pc} (d : Pc)
    → get_elem? cs i ≡ some c
    → get_elem? (set cs i d) i ≡ some d
set_here [] i d e = cc
set_here (x ∷ cs) zero d e = refl
set_here (x ∷ cs) (suc i) d e = set_here cs i d e

-- From here on, the tasks submitted are the same, and in the end all of them are completed.
record Drained (s : Shared) : Type 0 where
  to : Shared
  turns : Turns s to
  same_submitted : to.system.submitted ≡ s.system.submitted
  all_completed : to.system.completed ≡ length s.system.submitted
  still_open : to.system.pool.cancelled ≡ false

after : {s t : Shared} → Turn s t → t.system.submitted ≡ s.system.submitted → Drained t → Drained s
after x e d = record {
  to = d.to;
  turns = onward x d.turns;
  same_submitted = d.same_submitted ∙ e;
  all_completed = d.all_completed ∙ ap length e;
  still_open = d.still_open;
}

-- What is left to do: three turns for each task on the queue, and what the threads have to go
record Going (n : ℕ) (h : Heap) (k : ℕ) (s : Shared) : Type 0 where
  comes : Comes n h s
  open_pool : s.system.pool.cancelled ≡ false
  queued : ℕ
  work : 3 * queued + load s.system.threads ≡ k
  left : queued + length s.system.taken ≡ length s.system.submitted

module _ {n : ℕ} {h : Heap} (some_thread : 0 < n) where
  module _ {k : ℕ} (others : (t : Shared) → Going n h k t → Drained t) where
    work_on : (s : Shared) → Going n h (suc k) s → Working s.system.threads → Drained s
    unfolding finished
    work_on s g (runs i a at) =
        let v = Reach-Inv (Comes-Reach g.comes) in
        let (m, here, avoids) = v.owned.there i a at in
        let ran = (finish_lem s.system.pool v.nodes a m v.holds avoids here).0 in
        let x : Turn s _ = quietly (run i a m.task _ at ran) refl in
        after x refl (
          others _ (record {
            comes = goes_on g.comes x;
            open_pool = finish-cancelled a s.system.pool ran ∙ g.open_pool;
            queued = g.queued;
            work = omega (arith, g.work, load-set s.system.threads i (running a) finishing at);
            left = g.left;
          }))
    work_on s g (finishes i at) =
        let x : Turn s _ = completes (complete i at) refl in
        after x refl (
          others _ (record {
            comes = goes_on g.comes x;
            open_pool = g.open_pool;
            queued = g.queued;
            work = omega (
              arith,
              g.work,
              load-roused (set s.system.threads i top),
              load-set s.system.threads i finishing top at,
            );
            left = g.left;
          }))

    -- A thread at the test of the inner loop takes a task.
    take_one :
        (s : Shared) (i : ℕ)
        → Going n h (suc k) s
        → load s.system.threads ≡ 0
        → get_elem? s.system.threads i ≡ some testing
        → Drained s
    take_one s i g idle at =
        let v = Reach-Inv (Comes-Reach g.comes) in
        let (a, p, m, taking, here) = dequeues_of s.system.pool v.nodes v.holds (
          not_empty v.nodes v.holds (omega (arith, g.work, g.left, idle, nodes_left s.system v))) in
        let x : Turn s _ = quietly (take i a m p at g.open_pool taking here) refl in
        after x refl (
          others _ (record {
            comes = goes_on g.comes x;
            open_pool = dequeue-cancelled s.system.pool taking ∙ g.open_pool;
            queued = g.queued - 1;
            work = omega (arith, g.work, idle, load-set s.system.threads i testing (running a) at);
            left = omega (arith, g.work, g.left, idle, length-append s.system.taken (m.task ∷ []));
          }))
      where
        not_empty : (ns : Nodes) → Holds s.system.pool ns → 0 < length ns → s.system.pool.q ≢ none
        not_empty [] h l e = absurd (omega arith)
        not_empty ((a, t) ∷ ns) h l e = ground (arith, h.chain.0)

    -- With no thread at work and a task on the queue, a thread that is up comes to take it.
    come :
        (s : Shared) (i : ℕ) (c : Pc)
        → Going n h (suc k) s
        → load s.system.threads ≡ 0
        → get_elem? s.system.threads i ≡ some c
        → c ≢ waiting
        → Drained s
    come s i testing g idle at ne = take_one s i g idle at
    come s i top g idle at ne =
        let x : Turn s _ = quietly (enter i at g.open_pool) refl in
        after x refl (
          take_one _ i
            (record {
              comes = goes_on g.comes x;
              open_pool = g.open_pool;
              queued = g.queued;
              work = omega (arith, g.work, load-set s.system.threads i top testing at);
              left = g.left;
            })
            (omega (arith, idle, load-set s.system.threads i top testing at))
            (set_here s.system.threads i testing at))
    come s i waiting g idle at ne = absurd (ne refl)
    come s i (running a) g idle at ne = absurd (omega (arith, idle, load-get s.system.threads i at))
    come s i finishing g idle at ne = absurd (omega (arith, idle, load-get s.system.threads i at))
    come s i exited g idle at ne = absurd (
        All-get (λ c. c ≢ exited) s.system.threads i (Reach-Awake (Comes-Reach g.comes) g.open_pool)
          at refl)

    come_up :
        (s : Shared)
        → Going n h (suc k) s
        → load s.system.threads ≡ 0
        → IsUp s.system.threads
        → Drained s
    come_up s g idle (up i c at ne) = come s i c g idle at ne

  -- Where no thread has a task and one is left, a thread is up.
  someone-IsUp :
      (k : ℕ) (s : Shared) → Going n h (suc k) s → load s.system.threads ≡ 0 → IsUp s.system.threads
  someone-IsUp k s g idle =
      let v = Reach-Inv (Comes-Reach g.comes) in
      some_task s.system v ((Comes-Kept g.comes some_thread).watched g.open_pool)
        (omega (arith, g.work, g.left, idle, v.accounted, nodes_left s.system v))

  drains : (k : ℕ) (s : Shared) → Going n h k s → Drained s
  drains zero s g =
      let v = Reach-Inv (Comes-Reach g.comes) in
      record {
        to = s;
        turns = stay;
        same_submitted = refl;
        all_completed = omega (
          arith,
          g.work,
          g.left,
          v.accounted,
          busy-le-load s.system.threads,
          nodes_left s.system v,
        );
        still_open = g.open_pool;
      }
  drains (suc k) s g = elim (Bool-cases (ltb 0 (load s.system.threads))) [
    | inl at_work ↦ work_on (drains k) s g (working s.system.threads (ground arith))
    | inr idle ↦ come_up (drains k) s g (ground arith) (someone-IsUp k s g (ground arith))
  ]

-- No wake-up is lost: with at least one thread, and with any number of callers of `pool_wait` that sleep on the
-- same condition and may get the signal of `pool_enqueue` in place of a thread, in every state that is reached
-- before the pool is cancelled, and though only signals and broadcasts wake anyone, the threads can go on,
-- with no task added and the pool open, to a state in which every task submitted has been completed; and there
-- no caller of `pool_wait` sleeps any more.
pub Comes-drains :
    {n : ℕ} {h : Heap} {s : Shared}
    → Comes n h s
    → 0 < n
    → s.system.pool.cancelled ≡ false
    → (t : Shared) × Turns s t
      × (t.system.submitted ≡ s.system.submitted)
      × (t.system.completed ≡ length s.system.submitted)
      × (t.system.pool.cancelled ≡ false)
      × (t.asleep ≡ 0)
Comes-drains {n = n} {s = s} c some_thread open_pool =
    let v = Reach-Inv (Comes-Reach c) in
    let d = drains some_thread (3 * length v.nodes + load s.system.threads) s (record {
      comes = c;
      open_pool = open_pool;
      queued = length v.nodes;
      work = refl;
      left = omega (arith, nodes_left s.system v);
    }) in
    (
      d.to,
      d.turns,
      d.same_submitted,
      d.all_completed,
      d.still_open,
      nobody d.to.asleep ((Comes-Kept (Comes-Turns c d.turns) some_thread).expected d.still_open)
          (d.all_completed ∙ ap length (sym d.same_submitted)),
    )
  where
    nobody :
        {done_now all : ℕ} (asleep : ℕ)
        → (0 < asleep → done_now < all)
        → done_now ≡ all
        → asleep ≡ 0
    nobody zero h e = refl
    nobody (suc k) h e = absurd (omega (arith, h (omega arith), e))
