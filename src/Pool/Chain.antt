-- ===== src/Pool/Chain.antt =====
-- The linked queue holds a list of tasks, first in first out.
use wrensong_http_server.Prelude.{
  ℕ, ◌+◌, ◌%◌, ◌^◌, ◌≡◌, ◌≢◌, refl, sym, false, List, [], ◌∷◌, ◌++◌, Option, none, some, ◌==◌,
  arith, ==_iff,
}
use wrensong_http_server.Exec.{done, fault}
use wrensong_http_server.Pool.Queue.{
  Task, Pointer, Node, Heap, store, Pool, enqueue, dequeue, finish,
}

-- The nodes from a pointer on, with their addresses
abbrev pub Nodes : Type 0
Nodes = List (ℕ × Task)

abbrev pub Chain : Heap → Pointer → Nodes → Type 0
Chain h p [] = p ≡ none
Chain h p ((a, t) ∷ ns) =
    (p ≡ some a) × ((nx : Pointer) × (h a ≡ some (record { task = t; next = nx })) × Chain h nx ns)

abbrev pub Avoids : ℕ → Nodes → Type 0
Avoids a [] = Unit {0}
Avoids a ((b, t) ∷ ns) = (a ≢ b) × Avoids a ns

abbrev pub Distinct : Nodes → Type 0
Distinct [] = Unit {0}
Distinct ((a, t) ∷ ns) = Avoids a ns × Distinct ns

abbrev pub last_of : Pointer → Nodes → Pointer
last_of p [] = p
last_of p ((a, t) ∷ ns) = last_of (some a) ns

-- `q` starts the chain, and `end` points to its last node.
pub record Holds (p : Pool) (ns : Nodes) : Type 0 where
  pub chain : Chain p.heap p.q ns
  pub at_end : p.end ≡ last_of none ns
  pub distinct : Distinct ns

-- A write to an address that the chain avoids
pub Chain-store :
    (h : Heap) (p : Pointer) (ns : Nodes) (a : ℕ) (n : Option Node)
    → Avoids a ns
    → Chain h p ns
    → Chain (store h a n) p ns
Chain-store h p [] a n v c = c
Chain-store h p ((b, t) ∷ ns) a n v (e, (nx, at, c)) =
    (e, (nx, ground (arith, ==_iff a b), Chain-store h nx ns a n v.1 c))

Avoids-last :
    (a b : ℕ) (t : Task) (ns : Nodes) {e : ℕ}
    → Avoids a ((b, t) ∷ ns)
    → last_of (some b) ns ≡ some e
    → a ≢ e
Avoids-last a b t [] v l = ground arith
Avoids-last a b t ((c, u) ∷ ns) v l = Avoids-last a c u ns v.1 l

-- An address with nothing at it is on no chain.
pub Chain-Avoids :
    (h : Heap) (p : Pointer) (ns : Nodes) (a : ℕ) → h a ≡ none → Chain h p ns → Avoids a ns
Chain-Avoids h p [] a e c = tt
Chain-Avoids h p ((b, t) ∷ ns) a e (q, (nx, at, c)) =
    ((λ ab. ground arith), Chain-Avoids h nx ns a e c)

-- Linking a new node behind the last one
Chain-append :
    (h : Heap) (p : Pointer) (b : ℕ) (t0 : Task) (ns : Nodes) (a : ℕ) (t : Task) (e : ℕ)
    → Avoids a ((b, t0) ∷ ns)
    → Distinct ((b, t0) ∷ ns)
    → h a ≡ some (record { task = t; next = none })
    → last_of (some b) ns ≡ some e
    → Chain h p ((b, t0) ∷ ns)
    → (n : Node) × (h e ≡ some n)
      × Chain (store h e (some (record n { next = some a }))) p ((b, t0) ∷ (ns ++ ((a, t) ∷ [])))
Chain-append h p b t0 [] a t e v d new l (q, (nx, at, c)) = (
  record { task = t0; next = nx },
  ground arith,
  (q, (some a, ground (arith, ==_iff e b), (refl, (none, ground (arith, ==_iff e a), refl)))),
)
Chain-append h p b t0 ((b1, t1) ∷ ns) a t e v d new l (q, (nx, at, c)) =
    let (n, he, chained) = Chain-append h nx b1 t1 ns a t e v.1 d.1 new l c in
    (n, he, (q, (nx, ground (arith, ==_iff e b, Avoids-last b b1 t1 ns d.0 l), chained)))

last_of-append :
    (p : Pointer) (ns : Nodes) (a : ℕ) (t : Task) → last_of p (ns ++ ((a, t) ∷ [])) ≡ some a
last_of-append p [] a t = refl
last_of-append p ((b, u) ∷ ns) a t = last_of-append (some b) ns a t

last_of-some : (b : ℕ) (ns : Nodes) → (e : ℕ) × (last_of (some b) ns ≡ some e)
last_of-some b [] = (b, refl)
last_of-some b ((c, u) ∷ ns) = last_of-some c ns

pub Avoids-append :
    (b : ℕ) (ns : Nodes) (a : ℕ) (t : Task) → Avoids b ns → b ≢ a → Avoids b (ns ++ ((a, t) ∷ []))
Avoids-append b [] a t v ne = (ne, tt)
Avoids-append b ((c, u) ∷ ns) a t v ne = (v.0, Avoids-append b ns a t v.1 ne)

Distinct-append :
    (ns : Nodes) (a : ℕ) (t : Task) → Avoids a ns → Distinct ns → Distinct (ns ++ ((a, t) ∷ []))
Distinct-append [] a t v d = (tt, tt)
Distinct-append ((b, u) ∷ ns) a t v d =
    (Avoids-append b ns a t d.0 (λ e. v.0 (sym e)), Distinct-append ns a t v.1 d.1)

-- What a queue is after `pool_enqueue`
pub record Enqueued (p : Pool) (ns : Nodes) (a : ℕ) (t : Task) : Type 0 where
  pub to : Pool
  pub enqueues : enqueue a t p ≡ done to
  pub holds : Holds to (ns ++ ((a, t) ∷ []))
  pub counted : to.remaining ≡ (p.remaining + 1) % 2 ^ 32
  pub same_cancelled : to.cancelled ≡ p.cancelled
  pub others : (b : ℕ) → b ≢ a → Avoids b ns → to.heap b ≡ p.heap b

-- `pool_enqueue` with a new node puts its task behind the others, and follows no dangling pointer.
pub enqueue-Enqueued :
    (p : Pool) (ns : Nodes) (a : ℕ) (t : Task) → Holds p ns → Avoids a ns → Enqueued p ns a t
unfolding enqueue
enqueue-Enqueued p [] a t h v = record {
  to = record p {
    remaining = (p.remaining + 1) % 2 ^ 32;
    q = some a;
    end = some a;
    heap = store p.heap a (some (record { task = t; next = none }));
  };
  enqueues = simp (h.at_end, h.chain);
  holds = record {
    chain = (refl, (none, ground (arith, ==_iff a a), refl));
    at_end = refl;
    distinct = (tt, tt);
  };
  counted = refl;
  same_cancelled = refl;
  others = λ c ne w. ground (arith, ==_iff a c);
}
enqueue-Enqueued p ((b, u) ∷ ns) a t h v =
    let (e, l) = last_of-some b ns in
    let fresh = store p.heap a (some (record { task = t; next = none })) in
    let (n, he, chained) =
      Chain-append fresh p.q b u ns a t e v h.distinct (ground (arith, ==_iff a a)) l
        (Chain-store p.heap p.q ((b, u) ∷ ns) a _ v h.chain) in
    record {
      to = record p {
        remaining = (p.remaining + 1) % 2 ^ 32;
        end = some a;
        heap = store fresh e (some (record n { next = some a }));
      };
      enqueues = ground (arith, h.at_end, h.chain.0, he, l);
      holds = record {
        chain = chained;
        at_end = sym (last_of-append none ((b, u) ∷ ns) a t);
        distinct = Distinct-append ((b, u) ∷ ns) a t v h.distinct;
      };
      counted = refl;
      same_cancelled = refl;
      others = λ c ne w. ground (arith, ==_iff a c, ==_iff e c, Avoids-last c b u ns w l);
    }

last_apart :
    (a b : ℕ) (u : Task) (ns : Nodes)
    → Avoids a ((b, u) ∷ ns)
    → (e : ℕ) × (last_of (some b) ns ≡ some e) × ((a == e) ≡ false)
last_apart a b u ns v =
    let (e, l) = last_of-some b ns in (e, l, ground (arith, ==_iff a e, Avoids-last a b u ns v l))

-- What a queue is after a thread has taken a node
pub record Dequeued (p : Pool) (a : ℕ) (t : Task) (ns : Nodes) : Type 0 where
  pub to : Pool
  pub dequeues : dequeue p ≡ done (a, to)
  pub holds : Holds to ns
  pub same_heap : to.heap ≡ p.heap
  pub task_there : (nx : Pointer) × (to.heap a ≡ some (record { task = t; next = nx }))
  pub counted : to.remaining ≡ p.remaining
  pub same_cancelled : to.cancelled ≡ p.cancelled

-- A thread takes the task that has waited longest, and follows no dangling pointer.
pub dequeue-Dequeued :
    (p : Pool) (a : ℕ) (t : Task) (ns : Nodes) → Holds p ((a, t) ∷ ns) → Dequeued p a t ns
unfolding dequeue
dequeue-Dequeued p a t [] h =
    let (e, (nx, at, c)) = h.chain in
    record {
      to = record p { q = nx; end = none };
      dequeues = ground (arith, h.at_end, ==_iff a a);
      holds = record { chain = c; at_end = refl; distinct = tt };
      same_heap = refl;
      task_there = (nx, at);
      counted = refl;
      same_cancelled = refl;
    }
dequeue-Dequeued p a t ((b, u) ∷ ns) h =
    let (e, (nx, at, c)) = h.chain in
    record {
      to = record p { q = nx };
      dequeues = ground (arith, h.at_end, last_apart a b u ns h.distinct.0);
      holds = record { chain = c; at_end = h.at_end; distinct = h.distinct.1 };
      same_heap = refl;
      task_there = (nx, at);
      counted = refl;
      same_cancelled = refl;
    }

pub dequeue_empty : (p : Pool) → Holds p [] → dequeue p ≡ fault
unfolding dequeue
dequeue_empty p h = rw (dequeue, h.chain)

-- Running a task frees its node, and leaves the queue as it is.
pub finish_lem :
    (p : Pool) (ns : Nodes) (a : ℕ) (n : Node)
    → Holds p ns
    → Avoids a ns
    → p.heap a ≡ some n
    → (finish a p ≡ done (n.task, record p { heap = store p.heap a none }))
      × Holds (record p { heap = store p.heap a none }) ns
unfolding finish
finish_lem p ns a n h v e = (
  rw (finish, e),
  record {
    chain = Chain-store p.heap p.q ns a none v h.chain;
    at_end = h.at_end;
    distinct = h.distinct;
  },
)
