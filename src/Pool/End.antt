-- ===== src/Pool/End.antt =====
-- What the callers of `pool_wait` and of `pool_end` wait for.
use wrensong_http_server.Prelude.{
  ℕ, zero, suc, ◌+◌, ◌^◌, ◌<◌, ◌≡◌, ◌≢◌, ◌↔◌, refl, true, false, List, [], ◌∷◌, length, some, arith,
  get_elem?, set,
}
use wrensong_http_server.Pool.Queue.{Heap, Pool, waits}
use wrensong_http_server.Pool.Threads.{
  Pc, top, testing, waiting, finishing, exited, running, System, Reach, all_exited,
}
use wrensong_http_server.Pool.Safety.{Reach-Inv}

waits_lem : (p : Pool) → p.cancelled ≡ false → (waits p ≡ false) ↔ (p.remaining ≡ 0)
unfolding waits
waits_lem p e = ground arith

-- In every state that is reached before the pool is cancelled, with fewer than 2³² tasks submitted, a
-- caller of `pool_wait` is let go exactly where every task submitted has been completed.
pub Reach-waits :
    {n : ℕ} {h : Heap} {s : System}
    → Reach n h s
    → s.pool.cancelled ≡ false
    → length s.submitted < 2 ^ 32
    → (waits s.pool ≡ false) ↔ (s.completed ≡ length s.submitted)
Reach-waits {s = s} r open_pool few =
    let v = Reach-Inv r in
    let w = waits_lem s.pool open_pool in
    (
      (λ e. omega (arith, w.0 e, v.counted, v.accounted, few)),
      (λ e. w.1 (omega (arith, e, v.counted, v.accounted, few))),
    )

-- The steps that a thread has to go to its end, once the pool is cancelled
abbrev pub way_of : Pc → ℕ
way_of top = 1
way_of testing = 1
way_of waiting = 2
way_of finishing = 2
way_of (running a) = 3
way_of exited = 0

abbrev pub way : List Pc → ℕ
way [] = 0
way (c ∷ cs) = way_of c + way cs

pub way-set :
    (cs : List Pc) (i : ℕ) (c d : Pc)
    → get_elem? cs i ≡ some c
    → way (set cs i d) + way_of c ≡ way cs + way_of d
way-set [] i c d e = cc
way-set (x ∷ cs) zero c d e = ground arith
way-set (x ∷ cs) (suc i) c d e = omega (arith, way-set cs i c d e)

-- A thread that is not at its end
pub data OnItsWay (cs : List Pc) : Type 0 where
  on_its_way : (i : ℕ) (c : Pc) → get_elem? cs i ≡ some c → c ≢ exited → OnItsWay cs

later-OnItsWay : {c : Pc} {cs : List Pc} → OnItsWay cs → OnItsWay (c ∷ cs)
later-OnItsWay (on_its_way i c e ne) = on_its_way (suc i) c e ne

pub find-OnItsWay : (cs : List Pc) → 0 < way cs → OnItsWay cs
find-OnItsWay [] h = absurd (omega arith)
find-OnItsWay (exited ∷ cs) h = later-OnItsWay (find-OnItsWay cs (omega arith))
find-OnItsWay (top ∷ cs) h = on_its_way 0 top refl (λ q. cc)
find-OnItsWay (testing ∷ cs) h = on_its_way 0 testing refl (λ q. cc)
find-OnItsWay (waiting ∷ cs) h = on_its_way 0 waiting refl (λ q. cc)
find-OnItsWay (finishing ∷ cs) h = on_its_way 0 finishing refl (λ q. cc)
find-OnItsWay (running a ∷ cs) h = on_its_way 0 (running a) refl (λ q. cc)

pub all_exited_lem : (cs : List Pc) → way cs ≡ 0 → all_exited cs ≡ true
all_exited_lem [] h = refl
all_exited_lem (exited ∷ cs) h = all_exited_lem cs (omega arith)
all_exited_lem (top ∷ cs) h = absurd (omega arith)
all_exited_lem (testing ∷ cs) h = absurd (omega arith)
all_exited_lem (waiting ∷ cs) h = absurd (omega arith)
all_exited_lem (finishing ∷ cs) h = absurd (omega arith)
all_exited_lem (running a ∷ cs) h = absurd (omega arith)
