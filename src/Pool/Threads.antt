-- ===== src/Pool/Threads.antt =====
-- The threads of lib/pthread_pool.c. What a thread does under the mutex is one step; between two steps
-- any other thread, a caller of `pool_enqueue` or the caller of `pool_end` may move, and a thread that
-- waits on the condition may wake at any time.
use wrensong_http_server.Prelude.{
  ℕ, ◌+◌, ◌≡◌, true, false, List, [], ◌∷◌, ◌++◌, none, some, get_elem?, set, replicate,
  if◌then◌else◌, Bool, Option,
}
use wrensong_http_server.Exec.{Exec, done}
use wrensong_http_server.Pool.Queue.{
  Task, Node, Heap, Pool, fresh_pool, enqueue, dequeue, finish, finished, drain,
}

-- Where a thread stands in `thread`: at the test of the outer loop, at the test of the inner one,
-- waiting on the condition, with a node taken, with its task done, or at its end.
pub data Pc : Type 0 where
  top testing waiting finishing exited : Pc
  running : ℕ → Pc

pub record System : Type 0 where
  pub pool : Pool
  pub threads : List Pc
  -- The tasks given to `pool_enqueue`, taken off the queue, and run, and the rounds completed
  pub submitted : List Task
  pub taken : List Task
  pub ran : List Task
  pub completed : ℕ

abbrev pub move : System → ℕ → Pc → System
move s i c = record s { threads = set s.threads i c }

pub data Step (s : System) : System → Type 0 where
  submit :
      (a : ℕ) (t : Task) (p : Pool)
      → s.pool.heap a ≡ none
      → enqueue a t s.pool ≡ done p
      → Step s (record s { pool = p; submitted = s.submitted ++ (t ∷ []) })
  enter :
      (i : ℕ)
      → get_elem? s.threads i ≡ some top
      → s.pool.cancelled ≡ false
      → Step s (move s i testing)
  leave :
      (i : ℕ)
      → get_elem? s.threads i ≡ some top
      → s.pool.cancelled ≡ true
      → Step s (move s i exited)
  sleep :
      (i : ℕ)
      → get_elem? s.threads i ≡ some testing
      → s.pool.cancelled ≡ false
      → s.pool.q ≡ none
      → Step s (move s i waiting)
  wake : (i : ℕ) → get_elem? s.threads i ≡ some waiting → Step s (move s i testing)
  give_up :
      (i : ℕ)
      → get_elem? s.threads i ≡ some testing
      → s.pool.cancelled ≡ true
      → Step s (move s i exited)
  take :
      (i a : ℕ) (n : Node) (p : Pool)
      → get_elem? s.threads i ≡ some testing
      → s.pool.cancelled ≡ false
      → dequeue s.pool ≡ done (a, p)
      → s.pool.heap a ≡ some n
      → Step s (record (move s i (running a)) { pool = p; taken = s.taken ++ (n.task ∷ []) })
  run :
      (i a : ℕ) (t : Task) (p : Pool)
      → get_elem? s.threads i ≡ some (running a)
      → finish a s.pool ≡ done (t, p)
      → Step s (record (move s i finishing) { pool = p; ran = s.ran ++ (t ∷ []) })
  complete :
      (i : ℕ)
      → get_elem? s.threads i ≡ some finishing
      → Step s (record (move s i top) { pool = finished s.pool; completed = s.completed + 1 })
  cancel : Step s (record s { pool = record (s.pool) { cancelled = true } })

-- What the joins in `pool_end` wait for
abbrev pub all_exited : List Pc → Bool
all_exited [] = true
all_exited (exited ∷ cs) = all_exited cs
all_exited (_ ∷ cs) = false

-- `pool_end` behind its joins, and before it frees the pool: what is left of the queue is freed. While
-- a thread runs it does not come here.
unfoldable pub pool_end_rest : ℕ → System → Option (Exec (List ℕ × Pool))
unfolding drain
pool_end_rest fuel s = if all_exited s.threads then some (drain fuel s.pool) else none

-- `pool_start` with `n` threads
abbrev pub started : ℕ → Heap → System
started n h = record {
  pool = fresh_pool h;
  threads = replicate n top;
  submitted = [];
  taken = [];
  ran = [];
  completed = 0;
}

pub data Reach (n : ℕ) (h : Heap) : System → Type 0 where
  start : Reach n h (started n h)
  next : {s t : System} → Reach n h s → Step s t → Reach n h t
