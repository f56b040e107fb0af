-- ===== src/Pool/Signals/Kept.antt =====
-- No wake-up is lost: what holds while signals are the only way to wake.
use wrensong_http_server.Prelude.{
  ℕ, zero, suc, ◌+◌, ◌<◌, ◌≡◌, ◌≢◌, ◌⊎◌, inl, inr, refl, sym, ◌∙◌, ap, true, false, List, [], ◌∷◌,
  map, length, none, some, get_elem?, set, All, arith, length-append,
}
use mathlib.Core.Path.{subst}
use wrensong_http_server.Pool.Queue.{Heap, finished, waits}
use wrensong_http_server.Pool.Chain.{Nodes, Holds}
use wrensong_http_server.Pool.Threads.{
  Pc, top, testing, waiting, finishing, exited, running, System, Step, submit, enter, leave, sleep,
  wake, give_up, take, run, complete, cancel,
}
use wrensong_http_server.Pool.Invariant.{busy, InvOf}
use wrensong_http_server.Pool.Safety.{Reach-Inv}
use wrensong_http_server.Pool.Awake.{enqueue-cancelled, finish-cancelled, Reach-length, Step-length}
use wrensong_http_server.Pool.Signals.{
  Shared, quiet, signals, noise, roused, Turn, quietly, to_thread, to_caller, to_nobody, completes,
  calls, falls_asleep, returns, ends, Comes, begins, goes_on, Comes-Reach,
}

-- A thread that does not wait on the condition
pub data IsUp (cs : List Pc) : Type 0 where
  up : (i : ℕ) (c : Pc) → get_elem? cs i ≡ some c → c ≢ waiting → IsUp cs

later-IsUp : {c : Pc} {cs : List Pc} → IsUp cs → IsUp (c ∷ cs)
later-IsUp (up i c e ne) = up (suc i) c e ne

set-IsUp :
    (cs : List Pc) (i : ℕ) (c d : Pc) → get_elem? cs i ≡ some c → d ≢ waiting → IsUp (set cs i d)
set-IsUp [] i c d e ne = cc
set-IsUp (x ∷ cs) zero c d e ne = up 0 d refl ne
set-IsUp (x ∷ cs) (suc i) c d e ne = later-IsUp (set-IsUp cs i c d e ne)

roused-waiting : (c : Pc) → roused c ≢ waiting
roused-waiting waiting e = cc
roused-waiting top e = cc
roused-waiting testing e = cc
roused-waiting finishing e = cc
roused-waiting exited e = cc
roused-waiting (running a) e = cc

roused-IsUp : (cs : List Pc) → 0 < length cs → IsUp (map roused cs)
roused-IsUp [] h = absurd (omega arith)
roused-IsUp (c ∷ cs) h = up 0 (roused c) refl (roused-waiting c)

none_waits-IsUp : (cs : List Pc) → 0 < length cs → All (λ c. c ≢ waiting) cs → IsUp cs
none_waits-IsUp [] h a = absurd (omega arith)
none_waits-IsUp (c ∷ cs) h a = up 0 c refl a.0

busy-IsUp : (cs : List Pc) → 0 < busy cs → IsUp cs
busy-IsUp [] h = absurd (omega arith)
busy-IsUp (running a ∷ cs) h = up 0 (running a) refl (λ e. cc)
busy-IsUp (finishing ∷ cs) h = up 0 finishing refl (λ e. cc)
busy-IsUp (top ∷ cs) h = up 0 top refl (λ e. cc)
busy-IsUp (testing ∷ cs) h = up 0 testing refl (λ e. cc)
busy-IsUp (waiting ∷ cs) h = later-IsUp (busy-IsUp cs (omega arith))
busy-IsUp (exited ∷ cs) h = up 0 exited refl (λ e. cc)

-- Before the pool is cancelled: where a task is on the queue, a thread is up, and where a caller of `pool_wait`
-- sleeps, a task is not completed.
pub record Kept (s : Shared) : Type 0 where
  pub watched : s.system.pool.cancelled ≡ false → (s.system.pool.q ≡ none) ⊎ IsUp s.system.threads
  pub expected :
      s.system.pool.cancelled ≡ false
      → 0 < s.asleep
      → s.system.completed < length s.system.submitted

-- A quiet step leaves a thread up, unless the queue is empty.
quiet-IsUp :
    {s t : System} (st : Step s t)
    → noise st ≡ quiet
    → t.pool.cancelled ≡ false
    → (t.pool.q ≡ none) ⊎ IsUp t.threads
quiet-IsUp (submit a t p free e) q o = cc
quiet-IsUp {s = s} (enter i at c) q o = inr (set-IsUp s.threads i top testing at (λ e. cc))
quiet-IsUp (leave i at c) q o = cc
quiet-IsUp (sleep i at c e) q o = inl e
quiet-IsUp (wake i at) q o = cc
quiet-IsUp (give_up i at c) q o = cc
quiet-IsUp {s = s} (take i a n p at c e here) q o =
    inr (set-IsUp s.threads i testing (running a) at (λ e. cc))
quiet-IsUp {s = s} (run i a t p at e) q o =
    inr (set-IsUp s.threads i (running a) finishing at (λ e. cc))
quiet-IsUp (complete i at) q o = cc
quiet-IsUp cancel q o = cc

-- What a quiet step, and a task submitted, keep
quiet_same :
    {s t : System} (st : Step s t)
    → noise st ≡ quiet
    → (t.completed ≡ s.completed) × (t.submitted ≡ s.submitted)
quiet_same (submit a t p free e) q = cc
quiet_same (enter i at c) q = (refl, refl)
quiet_same (leave i at c) q = (refl, refl)
quiet_same (sleep i at c e) q = (refl, refl)
quiet_same (wake i at) q = cc
quiet_same (give_up i at c) q = (refl, refl)
quiet_same (take i a n p at c e here) q = (refl, refl)
quiet_same (run i a t p at e) q = (refl, refl)
quiet_same (complete i at) q = cc
quiet_same cancel q = (refl, refl)

signal_same :
    {s t : System} (st : Step s t)
    → noise st ≡ signals
    → (t.threads ≡ s.threads)
      × (t.completed ≡ s.completed)
      × (length t.submitted ≡ length s.submitted + 1)
      × (t.pool.cancelled ≡ s.pool.cancelled)
signal_same {s = s} (submit a t p free e) q =
    (refl, refl, length-append s.submitted (t ∷ []), enqueue-cancelled a t s.pool e)
signal_same (enter i at c) q = cc
signal_same (leave i at c) q = cc
signal_same (sleep i at c e) q = cc
signal_same (wake i at) q = cc
signal_same (give_up i at c) q = cc
signal_same (take i a n p at c e here) q = cc
signal_same (run i a t p at e) q = cc
signal_same (complete i at) q = cc
signal_same cancel q = cc

-- No step takes the flag back.
stays_open : {s t : System} → Step s t → t.pool.cancelled ≡ false → s.pool.cancelled ≡ false
unfolding finished
stays_open {s = s} (submit a t p free e) o = sym (enqueue-cancelled a t s.pool e) ∙ o
stays_open (enter i at c) o = o
stays_open (leave i at c) o = o
stays_open (sleep i at c e) o = o
stays_open (wake i at) o = o
stays_open (give_up i at c) o = o
stays_open {s = s} (take i a n p at c e here) o = c
stays_open {s = s} (run i a t p at e) o = sym (finish-cancelled a s.pool e) ∙ o
stays_open (complete i at) o = o
stays_open cancel o = cc

-- A caller of `pool_wait` sleeps only where a task is on the queue, or a thread has one.
pub some_task :
    (s : System)
    → InvOf s
    → (s.pool.q ≡ none) ⊎ IsUp s.threads
    → s.completed < length s.submitted
    → IsUp s.threads
some_task s v (inr u) more = u
some_task s v (inl empty) more = busy-IsUp s.threads (no_nodes v.nodes v.holds v.accounted)
  where
    no_nodes :
        (ns : Nodes)
        → Holds s.pool ns
        → length ns + busy s.threads + s.completed ≡ length s.submitted
        → 0 < busy s.threads
    no_nodes [] h e = omega (arith, e, more)
    no_nodes ((a, t) ∷ ns) h e = absurd (cc (h.chain.0, empty))

-- Where a caller of `pool_wait` goes to sleep
waits_for :
    (s : System)
    → InvOf s
    → s.pool.cancelled ≡ false
    → waits s.pool ≡ true
    → s.completed < length s.submitted
unfolding waits
waits_for s v o w = ground (arith, v.accounted, v.counted)

Turn-Kept :
    {s t : Shared} → Turn s t → InvOf s.system → 0 < length s.system.threads → Kept s → Kept t
Turn-Kept {s = s} (quietly {t = t} st q) v some_thread k = record {
  watched = quiet-IsUp st q;
  expected = λ o asleep.
      let (same, same') = quiet_same st q in
      omega (arith, same, ap length same', k.expected (stays_open st o) asleep);
}
Turn-Kept {s = s} (to_thread {t = t} st i q at) v some_thread k = record {
  watched = λ o. inr (set-IsUp t.threads i waiting testing at (λ e. cc));
  expected = λ o asleep.
      let (_, same, more, _) = signal_same st q in
      omega (arith, same, more, k.expected (stays_open st o) asleep);
}
Turn-Kept {s = s} (to_caller {t = t} st j q e) v some_thread k =
    let (same_threads, same, more, _) = signal_same st q in
    record {
      watched = λ o.
          let was = stays_open st o in
          inr (
            subst IsUp (sym same_threads)
              (some_task s.system v (k.watched was) (k.expected was (omega (arith, e)))));
      expected =
          λ o asleep. omega (arith, same, more, k.expected (stays_open st o) (omega (arith, e)));
    }
Turn-Kept {s = s} (to_nobody {t = t} st q none_waits e) v some_thread k = record {
  watched =
      λ o. inr (none_waits-IsUp t.threads (omega (arith, Step-length st, some_thread)) none_waits);
  expected = λ o asleep. absurd (omega (arith, e, asleep));
}
Turn-Kept (completes {t = t} st q) v some_thread k = record {
  watched = λ o. inr (roused-IsUp t.threads (omega (arith, Step-length st, some_thread)));
  expected = λ o asleep. absurd (omega (arith, asleep));
}
Turn-Kept calls v some_thread k = record { watched = k.watched; expected = k.expected }
Turn-Kept {s = s} (falls_asleep j e w) v some_thread k = record {
  watched = k.watched;
  expected = λ o asleep. waits_for s.system v o w;
}
Turn-Kept (returns j e w) v some_thread k = record { watched = k.watched; expected = k.expected }
Turn-Kept {s = s} (ends c) v some_thread k = record { watched = λ o. cc; expected = λ o asleep. cc }

pub Comes-Kept : {n : ℕ} {h : Heap} {s : Shared} → Comes n h s → 0 < n → Kept s
Comes-Kept begins some_thread = record {
  watched = λ o. inl refl;
  expected = λ o asleep. absurd (omega (arith, asleep));
}
Comes-Kept (goes_on c x) some_thread =
    let r = Comes-Reach c in
    Turn-Kept x (Reach-Inv r) (omega (arith, Reach-length r, some_thread))
      (Comes-Kept c some_thread)
