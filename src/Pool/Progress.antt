-- ===== src/Pool/Progress.antt =====
-- Runs of the threads, and the work that they have to go.
use wrensong_http_server.Prelude.{
  ℕ, zero, suc, ◌+◌, ◌<◌, ◌≤◌, ◌≡◌, refl, ap, List, [], ◌∷◌, length, some, arith, get_elem?, set,
  length-append, length-map,
}
use wrensong_http_server.Pool.Queue.{Heap}
use wrensong_http_server.Pool.Threads.{
  Pc, top, testing, waiting, finishing, exited, running, System, Step, Reach, next,
}
use wrensong_http_server.Pool.Invariant.{tasks, busy, InvOf}

-- A run of the threads from a state
pub data Runs : System → System → Type 0 where
  still : {s : System} → Runs s s
  first : {s t u : System} → Step s t → Runs t u → Runs s u

pub Reach-Runs : {n : ℕ} {h : Heap} {s t : System} → Reach n h s → Runs s t → Reach n h t
Reach-Runs r still = r
Reach-Runs r (first st rs) = Reach-Runs (next r st) rs

-- The steps that a thread with a task has to go
abbrev pub load_of : Pc → ℕ
load_of (running a) = 2
load_of finishing = 1
load_of _ = 0

abbrev pub load : List Pc → ℕ
load [] = 0
load (c ∷ cs) = load_of c + load cs

pub load-set :
    (cs : List Pc) (i : ℕ) (c d : Pc)
    → get_elem? cs i ≡ some c
    → load (set cs i d) + load_of c ≡ load cs + load_of d
load-set [] i c d e = cc
load-set (x ∷ cs) zero c d e = ground arith
load-set (x ∷ cs) (suc i) c d e = omega (arith, load-set cs i c d e)

pub busy-le-load : (cs : List Pc) → busy cs ≤ load cs
busy-le-load [] = omega arith
busy-le-load (running a ∷ cs) = omega (arith, busy-le-load cs)
busy-le-load (finishing ∷ cs) = omega (arith, busy-le-load cs)
busy-le-load (top ∷ cs) = omega (arith, busy-le-load cs)
busy-le-load (testing ∷ cs) = omega (arith, busy-le-load cs)
busy-le-load (waiting ∷ cs) = omega (arith, busy-le-load cs)
busy-le-load (exited ∷ cs) = omega (arith, busy-le-load cs)

-- A thread that has a task
pub data Working (cs : List Pc) : Type 0 where
  runs : (i a : ℕ) → get_elem? cs i ≡ some (running a) → Working cs
  finishes : (i : ℕ) → get_elem? cs i ≡ some finishing → Working cs

later-Working : {c : Pc} {cs : List Pc} → Working cs → Working (c ∷ cs)
later-Working (runs i a e) = runs (suc i) a e
later-Working (finishes i e) = finishes (suc i) e

pub working : (cs : List Pc) → 0 < load cs → Working cs
working [] h = absurd (omega arith)
working (running a ∷ cs) h = runs 0 a refl
working (finishing ∷ cs) h = finishes 0 refl
working (top ∷ cs) h = later-Working (working cs (omega arith))
working (testing ∷ cs) h = later-Working (working cs (omega arith))
working (waiting ∷ cs) h = later-Working (working cs (omega arith))
working (exited ∷ cs) h = later-Working (working cs (omega arith))

pub nodes_left : (s : System) (v : InvOf s) → length s.taken + length v.nodes ≡ length s.submitted
nodes_left s v = omega (
  arith,
  ap length v.in_order,
  length-append s.taken (tasks v.nodes),
  length-map v.nodes (λ n. n.1),
)

pub load-get : (cs : List Pc) (i : ℕ) {c : Pc} → get_elem? cs i ≡ some c → load_of c ≤ load cs
load-get [] i e = cc
load-get (x ∷ cs) zero e = ground arith
load-get (x ∷ cs) (suc i) e = omega (arith, load-get cs i e)
