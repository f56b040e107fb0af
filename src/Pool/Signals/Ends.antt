-- ===== src/Pool/Signals/Ends.antt =====
-- The threads come to their ends behind the broadcast of `pool_end`.
use wrensong_http_server.Prelude.{
  ℕ, zero, suc, ◌+◌, ◌≡◌, ◌≢◌, refl, sym, ◌∙◌, ap, ap₂, true, List, [], ◌∷◌, ◌++◌, map, length,
  none, some, get_elem?, set, All, All-get, All-set, arith,
}
use wrensong_http_server.Exec.{done}
use wrensong_http_server.Pool.Queue.{Heap, Pool, finished}
use wrensong_http_server.Pool.Chain.{Nodes, Holds, finish_lem}
use wrensong_http_server.Pool.Drain.{drain-Drained, owned_args}
use wrensong_http_server.Pool.Threads.{
  Pc, top, testing, waiting, finishing, exited, running, leave, give_up, run, complete, cancel,
  all_exited, pool_end_rest,
}
use wrensong_http_server.Pool.Invariant.{tasks}
use wrensong_http_server.Pool.Safety.{Reach-Inv}
use wrensong_http_server.Pool.Awake.{finish-cancelled}
use wrensong_http_server.Pool.End.{
  way, way-set, OnItsWay, on_its_way, find-OnItsWay, all_exited_lem,
}
use wrensong_http_server.Pool.Signals.{
  Shared, roused, broadcast, Turn, Turns, stay, onward, quietly, completes, ends, Comes, goes_on,
  Comes-Turns, Comes-Reach,
}

abbrev NoneWaits : List Pc → Type 0
NoneWaits cs = All (λ c. c ≢ waiting) cs

roused-NoneWaits : (cs : List Pc) → NoneWaits (map roused cs)
roused-NoneWaits [] = tt
roused-NoneWaits (waiting ∷ cs) = ((λ e. cc), roused-NoneWaits cs)
roused-NoneWaits (top ∷ cs) = ((λ e. cc), roused-NoneWaits cs)
roused-NoneWaits (testing ∷ cs) = ((λ e. cc), roused-NoneWaits cs)
roused-NoneWaits (finishing ∷ cs) = ((λ e. cc), roused-NoneWaits cs)
roused-NoneWaits (exited ∷ cs) = ((λ e. cc), roused-NoneWaits cs)
roused-NoneWaits (running a ∷ cs) = ((λ e. cc), roused-NoneWaits cs)

roused_one : (c : Pc) → c ≢ waiting → roused c ≡ c
roused_one waiting h = absurd (h refl)
roused_one top h = refl
roused_one testing h = refl
roused_one finishing h = refl
roused_one exited h = refl
roused_one (running a) h = refl

roused_same : (cs : List Pc) → NoneWaits cs → map roused cs ≡ cs
roused_same [] h = refl
roused_same (c ∷ cs) h = ap₂ (λ x xs. x ∷ xs) (roused_one c h.0) (roused_same cs h.1)

-- A state from which the threads come to their ends
record Joined (s : Shared) : Type 0 where
  to : Shared
  turns : Turns s to
  joined : all_exited to.system.threads ≡ true
  same_submitted : to.system.submitted ≡ s.system.submitted

record Closing (n : ℕ) (h : Heap) (k : ℕ) (s : Shared) : Type 0 where
  comes : Comes n h s
  closed : s.system.pool.cancelled ≡ true
  none_waits : NoneWaits s.system.threads
  left : way s.system.threads ≡ k

module _ {n : ℕ} {h : Heap} {k : ℕ} (others : (t : Shared) → Closing n h k t → Joined t) where
  after :
      {s t : Shared}
      → Turn s t
      → Closing n h (suc k) s
      → t.system.pool.cancelled ≡ true
      → NoneWaits t.system.threads
      → way t.system.threads ≡ k
      → t.system.submitted ≡ s.system.submitted
      → Joined s
  after {t = t} x g closed none_waits left same =
      let j = others t (record {
        comes = goes_on g.comes x;
        closed = closed;
        none_waits = none_waits;
        left = left;
      }) in
      record {
        to = j.to;
        turns = onward x j.turns;
        joined = j.joined;
        same_submitted = j.same_submitted ∙ same;
      }

  close_one :
      (s : Shared)
      → Closing n h (suc k) s
      → (i : ℕ) (c : Pc) → get_elem? s.system.threads i ≡ some c
      → c ≢ exited
      → Joined s
  unfolding finished
  close_one s g i top at ne =
      after (quietly (leave i at g.closed) refl) g g.closed
        (All-set _ _ i exited g.none_waits (λ q. cc))
        (omega (arith, g.left, way-set s.system.threads i top exited at)) refl
  close_one s g i testing at ne =
      after (quietly (give_up i at g.closed) refl) g g.closed
        (All-set _ _ i exited g.none_waits (λ q. cc))
        (omega (arith, g.left, way-set s.system.threads i testing exited at)) refl
  close_one s g i waiting at ne =
      absurd (All-get (λ c. c ≢ waiting) s.system.threads i g.none_waits at refl)
  close_one s g i finishing at ne =
      let still =
        roused_same (set s.system.threads i top)
          (All-set (λ c. c ≢ waiting) s.system.threads i top g.none_waits (λ q. cc)) in
      after (completes (complete i at) refl) g g.closed
        (roused-NoneWaits (set s.system.threads i top))
        (ap way still ∙ omega (arith, g.left, way-set s.system.threads i finishing top at)) refl
  close_one s g i (running a) at ne =
      let v = Reach-Inv (Comes-Reach g.comes) in
      let (m, here, avoids) = v.owned.there i a at in
      let ran = (finish_lem s.system.pool v.nodes a m v.holds avoids here).0 in
      after (quietly (run i a m.task _ at ran) refl) g
        (finish-cancelled a s.system.pool ran ∙ g.closed)
        (All-set _ _ i finishing g.none_waits (λ q. cc))
        (omega (arith, g.left, way-set s.system.threads i (running a) finishing at)) refl
  close_one s g i exited at ne = absurd (ne refl)

  close_any : (s : Shared) → Closing n h (suc k) s → OnItsWay s.system.threads → Joined s
  close_any s g (on_its_way i c at ne) = close_one s g i c at ne

closes : {n : ℕ} {h : Heap} (k : ℕ) (s : Shared) → Closing n h k s → Joined s
closes zero s g = record {
  to = s;
  turns = stay;
  joined = all_exited_lem s.system.threads g.left;
  same_submitted = refl;
}
closes (suc k) s g =
    close_any (closes k) s g (find-OnItsWay s.system.threads (omega (arith, g.left)))

-- From every state that is reached where only signals and broadcasts wake anyone, once `pool_end` has
-- cancelled the pool, its broadcast is enough for the threads to come to their ends, so that its joins return;
-- the tasks that they have not taken are then on the queue, in the order of their submission, and the loop of
-- `pool_end` ends, within one round more than the queue has nodes, with every node freed and the arguments of
-- the tasks that own theirs.
pub Comes-ends :
    {n : ℕ} {h : Heap} {s : Shared}
    → Comes n h s
    → (t : Shared) × (ns : Nodes) × (p : Pool) × Turns
        (record s {
          system = record (s.system) { pool = record (s.system.pool) { cancelled = true } };
        })
        t
      × Holds t.system.pool ns
      × (t.system.taken ++ tasks ns ≡ s.system.submitted)
      × (pool_end_rest (length ns + 1) t.system ≡ some (done (owned_args ns, p)))
      × (p.q ≡ none)
      × All (λ x. p.heap x.0 ≡ none) ns
unfolding pool_end_rest
Comes-ends {s = s} c =
    let s1 : Shared = record s {
      system = record (s.system) { pool = record (s.system.pool) { cancelled = true } };
    } in
    let c1 = goes_on c (quietly {t = s1.system} cancel refl) in
    let x : Turn s1 (broadcast s1) = ends refl in
    let j = closes (way (map roused s.system.threads)) (broadcast s1) (record {
      comes = goes_on c1 x;
      closed = refl;
      none_waits = roused-NoneWaits s.system.threads;
      left = refl;
    }) in
    let v = Reach-Inv (Comes-Reach (Comes-Turns (goes_on c1 x) j.turns)) in
    let d = drain-Drained (length v.nodes + 1) j.to.system.pool v.nodes v.holds (omega arith) in
    (
      j.to,
      v.nodes,
      d.to,
      onward x j.turns,
      v.holds,
      sym v.in_order ∙ j.same_submitted,
      rw (j.joined, d.ran),
      d.emptied,
      d.freed,
    )
