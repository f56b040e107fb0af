-- ===== src/Pool/Queue.antt =====
-- The linked queue of lib/pthread_pool.c on an explicit heap: an address holds a node or nothing, and
-- following a pointer to nothing is undefined. Each function is one critical section.
use wrensong_http_server.Prelude.{
  ℕ, zero, suc, ◌+◌, ◌-◌, ◌%◌, ◌^◌, Bool, false, List, [], ◌∷◌, Option, none, some, ◌==◌,
  if◌then◌else◌, not, ◌&&◌,
}
use wrensong_http_server.Exec.{Exec, done, fault, ◌>>=◌}

-- The argument of a task, and whether it is to be freed
pub record Task : Type 0 where
  pub arg : ℕ
  pub owned : Bool

abbrev pub Pointer : Type 0
Pointer = Option ℕ

-- `struct pool_queue`
pub record Node : Type 0 where
  pub task : Task
  pub next : Pointer

abbrev pub Heap : Type 0
Heap = ℕ → Option Node

abbrev pub store : Heap → ℕ → Option Node → Heap
store h a n b = if a == b then n else h b

-- `struct pool`, without the locks and the threads
pub record Pool : Type 0 where
  pub cancelled : Bool
  pub remaining : ℕ
  pub q : Pointer
  pub end : Pointer
  pub heap : Heap

-- What `pool_start` sets
abbrev pub fresh_pool : Heap → Pool
fresh_pool h = record { cancelled = false; remaining = 0; q = none; end = none; heap = h }

-- `p->end->next = q`
unfoldable pub link_after : Heap → Pointer → ℕ → Exec Heap
link_after h none a = done h
link_after h (some e) a = elim (h e) [
  | none ↦ fault
  | some n ↦ done (store h e (some (record n { next = some a })))
]

or_else : Pointer → ℕ → Pointer
or_else none a = some a
or_else (some b) a = some b

-- `pool_enqueue`, where `malloc` gives the address `a`
unfoldable pub enqueue : ℕ → Task → Pool → Exec Pool
unfolding link_after or_else
enqueue a t p = do
  h ← link_after (store p.heap a (some (record { task = t; next = none }))) p.end a
  done (record p {
    remaining = (p.remaining + 1) % 2 ^ 32;
    q = or_else p.q a;
    end = some a;
    heap = h;
  })

same_pointer : Pointer → ℕ → Bool
same_pointer none a = false
same_pointer (some b) a = a == b

-- The part of `thread` that takes a node off a queue that is not empty
unfoldable pub dequeue : Pool → Exec (ℕ × Pool)
unfolding same_pointer
dequeue p = elim p.q [
  | none ↦ fault
  | some a ↦ elim (p.heap a) [
    | none ↦ fault
    | some n ↦ done (a, record p { q = n.next; end = if same_pointer p.end a then none else p.end })
  ]
]

-- `p->fn(q->arg)` reads the task, and the node is freed.
unfoldable pub finish : ℕ → Pool → Exec (Task × Pool)
finish a p = elim (p.heap a) [
  | none ↦ fault
  | some n ↦ done (n.task, record p { heap = store p.heap a none })
]

-- `p->remaining--` wraps.
unfoldable pub finished : Pool → Pool
finished p = record p { remaining = (p.remaining + 2 ^ 32 - 1) % 2 ^ 32 }

-- The test of the loop in `pool_wait`: whether the caller goes on waiting
unfoldable pub waits : Pool → Bool
waits p = not p.cancelled && not (p.remaining == 0)

-- The loop of `pool_end` over what is left of the queue, with fuel: the arguments that it frees
unfoldable pub drain : ℕ → Pool → Exec (List ℕ × Pool)
drain zero p = fault
drain (suc fuel) p = elim p.q [
  | none ↦ done ([], p)
  | some a ↦ elim (p.heap a) [
    | none ↦ fault
    | some n ↦ do
      rest ← drain fuel (record p { q = n.next; heap = store p.heap a none })
      done (if n.task.owned then n.task.arg ∷ rest.0 else rest.0, rest.1)
  ]
]
