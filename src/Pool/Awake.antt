-- ===== src/Pool/Awake.antt =====
-- Before the pool is cancelled no thread is at its end, and no step changes the number of threads.
use wrensong_http_server.Prelude.{
  ℕ, zero, suc, ◌≡◌, ◌≢◌, refl, sym, ap, ◌∙◌, false, length, none, some, arith, replicate,
  length-set, All, All-set,
}
use wrensong_http_server.Exec.{done, Ends-any, Ends-done}
use wrensong_http_server.Pool.Queue.{
  Task, Heap, Pool, store, link_after, enqueue, dequeue, finish, finished,
}
use wrensong_http_server.Pool.Threads.{
  top, testing, waiting, finishing, exited, running, System, Step, submit, enter, leave, sleep,
  wake, give_up, take, run, complete, cancel, Reach, start, next,
}

-- What keeps `pool_enqueue`, a thread and a task from cancelling the pool
pub enqueue-cancelled :
    (a : ℕ) (t : Task) (p : Pool) {p' : Pool} → enqueue a t p ≡ done p' → p'.cancelled ≡ p.cancelled
unfolding enqueue
enqueue-cancelled a t p e =
    Ends-done (λ (q : Pool). q.cancelled ≡ p.cancelled) (enqueue a t p)
      (Ends-any (λ (q : Pool). q.cancelled ≡ p.cancelled)
        (link_after (store p.heap a (some (record { task = t; next = none }))) p.end a) _
        (λ h. refl))
      e

pub dequeue-cancelled :
    (p : Pool) {a : ℕ} {p' : Pool} → dequeue p ≡ done (a, p') → p'.cancelled ≡ p.cancelled
unfolding dequeue
dequeue-cancelled p e = ground arith

pub finish-cancelled :
    (a : ℕ) (p : Pool) {t : Task} {p' : Pool}
    → finish a p ≡ done (t, p')
    → p'.cancelled ≡ p.cancelled
unfolding finish
finish-cancelled a p e = ground arith

-- No thread is at its end before the pool is cancelled.
abbrev pub Awake : System → Type 0
Awake s = s.pool.cancelled ≡ false → All (λ c. c ≢ exited) s.threads

pub Step-Awake : {s t : System} → Step s t → Awake s → Awake t
unfolding finished
Step-Awake (submit a t p free e) w c = w (sym (enqueue-cancelled a t _ e) ∙ c)
Step-Awake (enter i at c) w d = All-set _ _ i testing (w d) (λ q. cc)
Step-Awake (leave i at c) w d = cc
Step-Awake (sleep i at c e) w d = All-set _ _ i waiting (w d) (λ q. cc)
Step-Awake (wake i at) w d = All-set _ _ i testing (w d) (λ q. cc)
Step-Awake (give_up i at c) w d = cc
Step-Awake (take i a n p at c e here) w d = All-set _ _ i (running a) (w c) (λ q. cc)
Step-Awake (run i a t p at e) w d =
    All-set _ _ i finishing (w (sym (finish-cancelled a _ e) ∙ d)) (λ q. cc)
Step-Awake (complete i at) w d = All-set _ _ i top (w d) (λ q. cc)
Step-Awake cancel w d = cc

replicate-top : (n : ℕ) → All (λ c. c ≢ exited) (replicate n top)
replicate-top zero = tt
replicate-top (suc n) = ((λ q. cc), replicate-top n)

pub Reach-Awake : {n : ℕ} {h : Heap} {s : System} → Reach n h s → Awake s
Reach-Awake start = λ c. replicate-top _
Reach-Awake (next r t) = Step-Awake t (Reach-Awake r)

pub Step-length : {s t : System} → Step s t → length t.threads ≡ length s.threads
Step-length (submit a t p free e) = refl
Step-length (enter i at c) = length-set _ i testing
Step-length (leave i at c) = length-set _ i exited
Step-length (sleep i at c e) = length-set _ i waiting
Step-length (wake i at) = length-set _ i testing
Step-length (give_up i at c) = length-set _ i exited
Step-length (take i a n p at c e here) = length-set _ i (running a)
Step-length (run i a t p at e) = length-set _ i finishing
Step-length (complete i at) = length-set _ i top
Step-length cancel = refl

length-tops : (n : ℕ) → length (replicate n top) ≡ n
length-tops zero = refl
length-tops (suc n) = ap suc (length-tops n)

pub Reach-length : {n : ℕ} {h : Heap} {s : System} → Reach n h s → length s.threads ≡ n
Reach-length start = length-tops _
Reach-length (next r t) = Step-length t ∙ Reach-length r
