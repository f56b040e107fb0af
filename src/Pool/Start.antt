-- ===== src/Pool/Start.antt =====
-- The memory of `pool_start` of lib/pthread_pool.c: `struct pool` ends in an array of one thread, and
-- the block is asked for with room for the others behind it.
use wrensong_http_server.Prelude.{
  ℕ, zero, suc, ◌+◌, ◌*◌, ◌-◌, ◌%◌, ◌^◌, ◌<◌, ◌≤◌, ◌≡◌, refl, ap, List, [], ◌∷◌, length, Bool, true,
  false, ltb, lt→ltb, ltb→lt, Bool-cases, inl, inr, arith, All,
}
use wrensong_http_server.Exec.{Exec, done, fault, ◌>>=◌}
use wrensong_http_server.Pool.Queue.{Heap}
use wrensong_http_server.Pool.Threads.{System, started}

-- `sizeof(struct pool)`, `sizeof(pthread_t)` and the offset of `threads`
pub record Layout : Type 0 where
  pub size : ℕ
  pub word : ℕ
  pub offset : ℕ

-- The size that `malloc` is given: `threads - 1` is an `unsigned int`, the rest a `size_t`.
unfoldable pub block_size : Layout → ℕ → ℕ
block_size l n = (l.size + (n + 2 ^ 32 - 1) % 2 ^ 32 * l.word) % 2 ^ 64

-- The loop over the threads, with the rounds left: the counter is an `int`, and to count past the largest one is
-- undefined.
slots_from : Layout → ℕ → ℕ → Exec (List ℕ)
slots_from l i zero = done []
slots_from l i (suc rounds) = do
  rest ← elim (ltb (i + 1) (2 ^ 31)) [ true ↦ slots_from l (i + 1) rounds | false ↦ fault ]
  done ((l.offset + i * l.word) ∷ rest)

-- Where `pthread_create` writes in the loop over `p->threads[i]`
unfoldable pub slots : Layout → ℕ → Exec (List ℕ)
unfolding slots_from
slots l n = slots_from l 0 n

-- `pool_start`, with the answer of `malloc`, which the code does not look at
unfoldable pub pool_start : Bool → Layout → Heap → ℕ → Exec System
unfolding slots
pool_start false l h n = fault
pool_start true l h n = do at ← slots l n; done (started n h)

-- What the loop has written
record Written (l : Layout) (i rounds end : ℕ) : Type 0 where
  at : List ℕ
  ran : slots_from l i rounds ≡ done at
  each : length at ≡ rounds
  fits : All (λ a. a + l.word ≤ end) at

slots_from-Written :
    (l : Layout) (i rounds end : ℕ)
    → i + rounds < 2 ^ 31
    → l.offset + (i + rounds) * l.word ≤ end
    → Written l i rounds end
unfolding slots_from
slots_from-Written l i zero end few h = record { at = []; ran = refl; each = refl; fits = tt }
slots_from-Written l i (suc rounds) end few h =
    let w = slots_from-Written l (i + 1) rounds end (omega (arith, few)) (ground (arith, h)) in
    record {
      at = (l.offset + i * l.word) ∷ w.at;
      ran = rw (lt→ltb (i + 1) (2 ^ 31) (omega (arith, few)), w.ran) refl;
      each = ap suc w.each;
      fits = (ground (arith, h), w.fits);
    }

-- With at least one thread, fewer than 2³¹, and a block whose size a `size_t` can hold, the loop of `pool_start`
-- ends without an overflow of its counter, with one call of `pthread_create` for each thread, and each writes
-- inside of the block, wherever the array `threads` has room for its one thread inside of `struct pool`.
pub slots-fits :
    (l : Layout) (n : ℕ)
    → l.offset + l.word ≤ l.size
    → 0 < n
    → n < 2 ^ 31
    → l.size + n * l.word < 2 ^ 64
    → (at : List ℕ) × (slots l n ≡ done at)
      × (length at ≡ n)
      × All (λ a. a + l.word ≤ block_size l n) at
unfolding slots block_size
slots-fits l zero room some_thread few small = absurd (omega arith)
slots-fits l (suc n) room some_thread few small =
    let w =
      slots_from-Written l 0 (suc n) _ (omega (arith, few)) (ground (arith, room, few, small)) in
    (w.at, w.ran, w.each, w.fits)

-- From 2³¹ threads on the counter overflows.
slots_from-overflow :
    (l : Layout) (i rounds : ℕ) → i < 2 ^ 31 → 2 ^ 31 ≤ i + rounds → slots_from l i rounds ≡ fault
unfolding slots_from
slots_from-overflow l i zero small many = absurd (omega arith)
slots_from-overflow l i (suc rounds) small many = elim (Bool-cases (ltb (i + 1) (2 ^ 31))) [
  | inl more ↦
      rw
        (
          more,
          slots_from-overflow l (i + 1) rounds (ltb→lt (i + 1) (2 ^ 31) more) (omega (arith, many)),
        )
        refl
  | inr last ↦ rw last refl
]

pub pool_start-overflow :
    (granted : Bool) (l : Layout) (h : Heap) (n : ℕ) → 2 ^ 31 ≤ n → pool_start granted l h n ≡ fault
unfolding pool_start slots
pool_start-overflow false l h n many = refl
pool_start-overflow true l h n many =
    rw (slots_from-overflow l 0 n (omega arith) (omega (arith, many))) refl

-- With memory and fewer than 2³¹ threads the pool starts.
pub pool_start_lem :
    (l : Layout) (h : Heap) (n : ℕ) → n < 2 ^ 31 → pool_start true l h n ≡ done (started n h)
unfolding pool_start slots
pool_start_lem l h n few =
    let w = slots_from-Written l 0 n _ (omega (arith, few)) (le_refl _) in rw w.ran refl
  where
    le_refl : (k : ℕ) → k ≤ k
    le_refl k = omega arith
