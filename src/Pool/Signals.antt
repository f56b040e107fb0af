-- ===== src/Pool/Signals.antt =====
-- The condition of lib/pthread_pool.c, with the threads and the callers of `pool_wait` that wait on it, where
-- nobody wakes but by a call of `pthread_cond_signal` or `pthread_cond_broadcast`.
pub mod Kept
pub mod Drains
pub mod Ends
use wrensong_http_server.Prelude.{
  ℕ, zero, suc, ◌+◌, ◌≡◌, ◌≢◌, refl, sym, ◌∙◌, ap, Bool, true, false, List, [], ◌∷◌, ◌++◌, map,
  length, none, some, get_elem?, set, All, arith, append_assoc,
}
use mathlib.Core.Path.{subst}
use wrensong_http_server.Pool.Queue.{Heap, waits}
use wrensong_http_server.Pool.Threads.{
  Pc, top, testing, waiting, finishing, exited, running, System, move, Step, submit, enter, leave,
  sleep, wake, give_up, take, run, complete, cancel, started, Reach, start,
}
use wrensong_http_server.Pool.Progress.{Runs, still, first, Reach-Runs}

-- The threads, and how many callers of `pool_wait` wait on the condition and stand at the test of its loop
pub record Shared : Type 0 where
  pub system : System
  pub asleep : ℕ
  pub awake : ℕ

-- What a step does to the condition
pub data Noise : Type 0 where
  quiet signals broadcasts spurious : Noise

abbrev pub noise : {s t : System} → Step s t → Noise
noise (submit a t p free e) = signals
noise (enter i at c) = quiet
noise (leave i at c) = quiet
noise (sleep i at c e) = quiet
noise (wake i at) = spurious
noise (give_up i at c) = quiet
noise (take i a n p at c e here) = quiet
noise (run i a t p at e) = quiet
noise (complete i at) = broadcasts
noise cancel = quiet

abbrev pub roused : Pc → Pc
roused waiting = testing
roused c = c

-- `pthread_cond_broadcast`
abbrev pub broadcast : Shared → Shared
broadcast s = record {
  system = record (s.system) { threads = map roused s.system.threads };
  asleep = 0;
  awake = s.awake + s.asleep;
}

-- One turn of a thread, of a caller of `pool_enqueue`, or of a caller of `pool_wait` or `pool_end`. A signal
-- goes to one of those that wait, if there is any: a thread, or a caller of `pool_wait`.
pub data Turn (s : Shared) : Shared → Type 0 where
  quietly :
      {t : System} (st : Step s.system t) → noise st ≡ quiet → Turn s (record s { system = t })
  to_thread :
      {t : System} (st : Step s.system t) (i : ℕ)
      → noise st ≡ signals
      → get_elem? t.threads i ≡ some waiting
      → Turn s (record s { system = move t i testing })
  to_caller :
      {t : System} (st : Step s.system t) (k : ℕ)
      → noise st ≡ signals
      → s.asleep ≡ suc k
      → Turn s (record { system = t; asleep = k; awake = s.awake + 1 })
  to_nobody :
      {t : System} (st : Step s.system t)
      → noise st ≡ signals
      → All (λ c. c ≢ waiting) t.threads
      → s.asleep ≡ 0
      → Turn s (record s { system = t })
  completes :
      {t : System} (st : Step s.system t)
      → noise st ≡ broadcasts
      → Turn s (broadcast (record s { system = t }))
  -- `pool_wait` is called, its caller waits, or is let go.
  calls : Turn s (record s { awake = s.awake + 1 })
  falls_asleep :
      (k : ℕ)
      → s.awake ≡ suc k
      → waits s.system.pool ≡ true
      → Turn s (record s { asleep = s.asleep + 1; awake = k })
  returns :
      (k : ℕ) → s.awake ≡ suc k → waits s.system.pool ≡ false → Turn s (record s { awake = k })
  -- The broadcast of `pool_end`, behind the flag
  ends : s.system.pool.cancelled ≡ true → Turn s (broadcast s)

pub data Turns : Shared → Shared → Type 0 where
  stay : {s : Shared} → Turns s s
  onward : {s t u : Shared} → Turn s t → Turns t u → Turns s u

-- What `n` threads come to, with any callers
pub data Comes (n : ℕ) (h : Heap) : Shared → Type 0 where
  begins : Comes n h (record { system = started n h; asleep = 0; awake = 0 })
  goes_on : {s t : Shared} → Comes n h s → Turn s t → Comes n h t

pub Comes-Turns : {n : ℕ} {h : Heap} {s t : Shared} → Comes n h s → Turns s t → Comes n h t
Comes-Turns c stay = c
Comes-Turns c (onward x xs) = Comes-Turns (goes_on c x) xs

get-middle : (pre cs : List Pc) (c : Pc) → get_elem? (pre ++ (c ∷ cs)) (length pre) ≡ some c
get-middle [] cs c = refl
get-middle (x ∷ pre) cs c = get-middle pre cs c

set-middle : (pre cs : List Pc) (c d : Pc) → set (pre ++ (c ∷ cs)) (length pre) d ≡ pre ++ (d ∷ cs)
set-middle [] cs c d = refl
set-middle (x ∷ pre) cs c d = ap (λ z. x ∷ z) (set-middle pre cs c d)

rouse_one :
    (s : System) (pre cs : List Pc) (c : Pc)
    → ((d : Pc)
        → Runs
            (record s { threads = pre ++ (d ∷ cs) })
            (record s { threads = pre ++ (d ∷ map roused cs) }))
    → Runs
        (record s { threads = pre ++ (c ∷ cs) })
        (record s { threads = pre ++ (roused c ∷ map roused cs) })
rouse_one s pre cs waiting later = first (wake (length pre) (get-middle pre cs waiting)) (
    subst
      (λ z.
        Runs (record s { threads = z }) (record s { threads = pre ++ (testing ∷ map roused cs) }))
      (sym (set-middle pre cs waiting testing)) (later testing))
rouse_one s pre cs top later = later top
rouse_one s pre cs testing later = later testing
rouse_one s pre cs finishing later = later finishing
rouse_one s pre cs exited later = later exited
rouse_one s pre cs (running a) later = later (running a)

-- A broadcast is a run in which the threads wake one after the other.
rouse-Runs :
    (s : System) (pre cs : List Pc)
    → Runs (record s { threads = pre ++ cs }) (record s { threads = pre ++ map roused cs })
rouse-Runs s pre [] = still
rouse-Runs s pre (c ∷ cs) = rouse_one s pre cs c (λ d.
    rw (append_assoc pre (d ∷ []) cs, append_assoc pre (d ∷ []) (map roused cs)) at
      (rouse-Runs s (pre ++ (d ∷ [])) cs))

pub Turn-Runs : {s t : Shared} → Turn s t → Runs s.system t.system
Turn-Runs (quietly st q) = first st still
Turn-Runs (to_thread st i q at) = first st (first (wake i at) still)
Turn-Runs (to_caller st k q e) = first st still
Turn-Runs (to_nobody st q none_waits e) = first st still
Turn-Runs (completes {t = t} st q) = first st (rouse-Runs t [] t.threads)
Turn-Runs calls = still
Turn-Runs (falls_asleep k e w) = still
Turn-Runs (returns k e w) = still
Turn-Runs {s = s} (ends c) = rouse-Runs s.system [] s.system.threads

-- Whatever the threads come to with signals, they come to where they may wake at any time.
pub Comes-Reach : {n : ℕ} {h : Heap} {s : Shared} → Comes n h s → Reach n h s.system
Comes-Reach begins = start
Comes-Reach (goes_on c x) = Reach-Runs (Comes-Reach c) (Turn-Runs x)
