-- ===== src/Pool/Interface.antt =====
-- lib/pthread_pool.h: the operations that the pool declares, and what their comments promise. A client
-- takes them as a section parameter; the theorems about lib/pthread_pool.c fill them.
pub mod Filled
pub mod Client
pub mod Handed
mod Tests
use wrensong_http_server.Prelude.{
  ℕ, ◌^◌, ◌<◌, ◌≡◌, Bool, true, false, List, [], ◌∷◌, ◌++◌, length, if◌then◌else◌,
}
use wrensong_http_server.Pool.Queue.{Task}

-- The arguments that are to be freed
abbrev pub args_of : List Task → List ℕ
args_of [] = []
args_of (t ∷ ts) = if t.owned then t.arg ∷ args_of ts else args_of ts

pub record Interface : Type 1 where
  pub S : Type 0
  -- The states of a pool that was started with so many threads
  pub Reached : ℕ → S → Type 0
  -- What the threads and the callers can do, one after the other
  pub Work : S → S → Type 0
  -- The addresses that `malloc` may give
  pub Free : S → ℕ → Type 0
  pub start : ℕ → S
  pub Enqueued : ℕ → Task → S → S → Type 0
  pub keeps_waiting : S → Bool
  -- `pool_end`, with the tasks that `thread_func` has been called for in the end, and the arguments that
  -- are freed
  pub End : S → List Task → List ℕ → Type 0
  pub cancelled : S → Bool
  -- The tasks queued, and those that `thread_func` has been called for
  pub queued : S → List Task
  pub called : S → List Task
  -- How many of them are completed, and how many callers of `pool_wait` sleep
  pub completed : S → ℕ
  pub asleep : S → ℕ
  -- "Create a new thread pool."
  pub start_reached : (n : ℕ) → Reached n (start n)
  pub start_open : (n : ℕ) → cancelled (start n) ≡ false
  pub start_empty : (n : ℕ) → queued (start n) ≡ []
  -- "Enqueue a new task for the thread pool."
  pub enqueued :
      {n : ℕ} {s : S} (a : ℕ) (t : Task)
      → Reached n s
      → Free s a
      → (s' : S) × Enqueued a t s s'
        × Reached n s'
        × (queued s' ≡ queued s ++ (t ∷ []))
        × (called s' ≡ called s)
        × (cancelled s' ≡ cancelled s)
  pub worked : {n : ℕ} {s t : S} → Reached n s → Work s t → Reached n t
  -- "New tasks should be enqueued with pool_enqueue. thread_func will be called once per queued task"
  pub once_each : {n : ℕ} {s : S} → Reached n s → (rest : List Task) × (queued s ≡ called s ++ rest)
  -- "Wait for all queued tasks to be completed."
  pub waited :
      {n : ℕ} {s : S}
      → Reached n s
      → 0 < n
      → cancelled s ≡ false
      → length (queued s) < 2 ^ 32
      → (t : S) × Work s t
        × (queued t ≡ queued s)
        × (called t ≡ queued s)
        × (completed t ≡ length (queued s))
        × (asleep t ≡ 0)
        × (cancelled t ≡ false)
        × (keeps_waiting t ≡ false)
  -- "All queued items will also be freed, along with the pool itself. Remaining work item arguments will
  -- be freed depending on the free argument to pool_enqueue."
  pub ended :
      {n : ℕ} {s : S}
      → Reached n s
      → (rest : List Task) × (calls : List Task) × End s calls (args_of rest)
        × (calls ++ rest ≡ queued s)
