-- ===== src/Pool/Invariant.antt =====
-- The invariant of the pool and its threads, and what each kind of step does to it.
use wrensong_http_server.Prelude.{
  ℕ, zero, suc, ◌+◌, ◌-◌, ◌%◌, ◌^◌, ◌≡◌, ◌≢◌, refl, sym, ap, ◌∙◌, true, List, [], ◌∷◌, ◌++◌, length,
  map, none, some, arith, ==_iff, inl, inr, ◌⊎◌, get_elem?, set, append_assoc, length-append,
}
use mathlib.Core.Path.{subst}
use mathlib.Core.List.{map-append}
use wrensong_http_server.Exec.{done}
use wrensong_http_server.Pool.Queue.{Task, Node, store, Pool, enqueue, dequeue, finish, finished}
use wrensong_http_server.Pool.Chain.{
  Nodes, Avoids, Avoids-append, finish_lem, dequeue_empty, Holds, Chain-Avoids, Enqueued,
  enqueue-Enqueued, dequeue-Dequeued,
}
use wrensong_http_server.Pool.Threads.{Pc, top, testing, finishing, running, System}

-- The threads that have taken a task and not counted it as done
abbrev weight : Pc → ℕ
weight (running a) = 1
weight finishing = 1
weight _ = 0

abbrev pub busy : List Pc → ℕ
busy [] = 0
busy (c ∷ cs) = weight c + busy cs

busy-set :
    (cs : List Pc) (i : ℕ) (c d : Pc)
    → get_elem? cs i ≡ some c
    → busy (set cs i d) + weight c ≡ busy cs + weight d
busy-set [] i c d e = cc
busy-set (x ∷ cs) zero c d e = ground arith
busy-set (x ∷ cs) (suc i) c d e = omega (arith, busy-set cs i c d e)

abbrev pub tasks : Nodes → List Task
tasks ns = map (λ n. n.1) ns

-- A node that a thread has taken is still there, is off the queue, and is that thread's alone.
pub record Owned (p : Pool) (ns : Nodes) (cs : List Pc) : Type 0 where
  pub there :
      (i a : ℕ) → get_elem? cs i ≡ some (running a) → (n : Node) × (p.heap a ≡ some n) × Avoids a ns
  pub alone :
      (i j a : ℕ) → get_elem? cs i ≡ some (running a) → get_elem? cs j ≡ some (running a) → i ≡ j

pub record Inv (p : Pool) (cs : List Pc) (submitted taken : List Task) (completed : ℕ)
    : Type 0 where
  pub nodes : Nodes
  pub holds : Holds p nodes
  pub owned : Owned p nodes cs
  pub in_order : submitted ≡ taken ++ tasks nodes
  pub accounted : length nodes + busy cs + completed ≡ length submitted
  pub counted : p.remaining ≡ (length nodes + busy cs) % 2 ^ 32

abbrev pub InvOf : System → Type 0
InvOf s = Inv s.pool s.threads s.submitted s.taken s.completed

running-inj : {a c : ℕ} → running a ≡ running c → a ≡ c
running-inj e = cc

get-set :
    (cs : List Pc) (i j : ℕ) (d c : Pc)
    → get_elem? (set cs i d) j ≡ some c
    → ((i ≡ j) × (d ≡ c)) ⊎ ((i ≢ j) × (get_elem? cs j ≡ some c))
get-set [] i j d c e = cc
get-set (x ∷ cs) zero zero d c e = inl (refl, cc)
get-set (x ∷ cs) zero (suc j) d c e = inr ((λ q. cc), e)
get-set (x ∷ cs) (suc i) zero d c e = inr ((λ q. cc), e)
get-set (x ∷ cs) (suc i) (suc j) d c e = elim (get-set cs i j d c e) [
  | inl (q, r) ↦ inl (ap suc q, r)
  | inr (q, r) ↦ inr ((λ k. q (ground arith)), r)
]

-- A thread that moves and holds no node afterwards
Owned-move :
    (p : Pool) (ns : Nodes) (cs : List Pc) (i : ℕ) (d : Pc)
    → ((a : ℕ) → d ≢ running a)
    → Owned p ns cs
    → Owned p ns (set cs i d)
Owned-move p ns cs i d no_node o = record {
  there = λ j a e. elim (get-set cs i j d (running a) e) [
    | inl (_, q) ↦ absurd (no_node a q)
    | inr (_, q) ↦ o.there j a q
  ];
  alone = λ j k a e f. elim (get-set cs i j d (running a) e) [
    | inl (_, q) ↦ absurd (no_node a q)
    | inr (_, q) ↦ elim (get-set cs i k d (running a) f) [
      | inl (_, r) ↦ absurd (no_node a r)
      | inr (_, r) ↦ o.alone j k a q r
    ]
  ];
}

-- `remaining` counts up and down modulo 2³²
up : (r k m : ℕ) → r ≡ k % 2 ^ 32 → k + 1 ≡ m → (r + 1) % 2 ^ 32 ≡ m % 2 ^ 32
up r k m e f = omega (arith, e, f)

down : (r k m : ℕ) → r ≡ k % 2 ^ 32 → k ≡ m + 1 → (r + 2 ^ 32 - 1) % 2 ^ 32 ≡ m % 2 ^ 32
down r k m e f = omega (arith, e, f)

module _ {p : Pool} {cs : List Pc} {sub tak : List Task} {fin : ℕ} (v : Inv p cs sub tak fin) where
  pub Inv-move :
      (i : ℕ) (c d : Pc)
      → get_elem? cs i ≡ some c
      → weight c ≡ 0
      → weight d ≡ 0
      → ((a : ℕ) → d ≢ running a)
      → Inv p (set cs i d) sub tak fin
  Inv-move i c d e wc wd no_node = record {
    nodes = v.nodes;
    holds = v.holds;
    owned = Owned-move p v.nodes cs i d no_node v.owned;
    in_order = v.in_order;
    accounted = omega (arith, v.accounted, busy-set cs i c d e);
    counted = v.counted ∙ ap (λ k. k % 2 ^ 32) (omega (arith, busy-set cs i c d e));
  }

  pub Inv-submit :
      (a : ℕ) (t : Task) {p' : Pool}
      → p.heap a ≡ none
      → enqueue a t p ≡ done p'
      → Inv p' cs (sub ++ (t ∷ [])) tak fin
  Inv-submit a t {p' = p'} free e =
      subst (λ q. Inv q cs (sub ++ (t ∷ [])) tak fin) same_pool
        (record {
          nodes = v.nodes ++ ((a, t) ∷ []);
          holds = E.holds;
          owned = record {
            there = λ i b at.
                let (n, he, av) = v.owned.there i b at in
                let ne : b ≢ a = λ q. ground arith in
                (n, E.others b ne av ∙ he, Avoids-append b v.nodes a t av ne);
            alone = v.owned.alone;
          };
          in_order = rw (v.in_order, map-append, append_assoc);
          accounted =
              omega (
                arith,
                v.accounted,
                length-append v.nodes ((a, t) ∷ []),
                length-append sub (t ∷ []),
              );
          counted =
              E.counted
              ∙ up p.remaining (length v.nodes + busy cs) _ v.counted
                  (omega (arith, length-append v.nodes ((a, t) ∷ [])));
        })
    where
      E : Enqueued p v.nodes a t
      E =
          enqueue-Enqueued p v.nodes a t v.holds
            (Chain-Avoids p.heap p.q v.nodes a free v.holds.chain)

      same_pool : E.to ≡ p'
      same_pool = ground (arith, E.enqueues)

  pub Inv-run :
      (i a : ℕ) {t : Task} {p' : Pool}
      → get_elem? cs i ≡ some (running a)
      → finish a p ≡ done (t, p')
      → Inv p' (set cs i finishing) sub tak fin
  Inv-run i a {p' = p'} at e =
      let (n, he, av) = v.owned.there i a at in
      let (ran, held) = finish_lem p v.nodes a n v.holds av he in
      let freed = record p { heap = store p.heap a none } in
      let same_pool : freed ≡ p' = ground (arith, ran) in
      subst (λ q. Inv q (set cs i finishing) sub tak fin) same_pool
        (record {
          nodes = v.nodes;
          holds = held;
          owned = record {
            there = λ j b f. elim (get-set cs i j finishing (running b) f) [
              | inl (_, q) ↦ cc
              | inr (ne, g) ↦
                  let (n2, he2, av2) = v.owned.there j b g in
                  let apart : a ≢ b = λ q. ne (v.owned.alone i j b (cc at) g) in
                  (n2, ground (arith, ==_iff a b), av2)
            ];
            alone = (Owned-move p v.nodes cs i finishing (λ x q. cc) v.owned).alone;
          };
          in_order = v.in_order;
          accounted = omega (arith, v.accounted, busy-set cs i (running a) finishing at);
          counted =
              v.counted
              ∙ ap (λ k. k % 2 ^ 32) (omega (arith, busy-set cs i (running a) finishing at));
        })

  pub Inv-take :
      (i a : ℕ) (n : Node) {p' : Pool} (ns : Nodes)
      → v.nodes ≡ ns
      → get_elem? cs i ≡ some testing
      → dequeue p ≡ done (a, p')
      → p.heap a ≡ some n
      → Inv p' (set cs i (running a)) sub (tak ++ (n.task ∷ [])) fin
  Inv-take i a n [] same at e here =
      let broken = dequeue_empty p (subst (Holds p) same v.holds) in cc
  Inv-take i a n {p' = p'} ((b, u) ∷ ns) same at e here =
      let D = dequeue-Dequeued p b u ns (subst (Holds p) same v.holds) in
      let same_pool : D.to ≡ p' = ground (arith, D.dequeues) in
      let same_node : b ≡ a = ground (arith, D.dequeues) in
      let first : Avoids b ns = (subst (Holds p) same v.holds).distinct.0 in
      let (nx, at_b) = D.task_there in
      let same_task : u ≡ n.task =
        ground (arith, at_b, ap (λ h. h b) D.same_heap, here, same_node) in
      let order : sub ≡ tak ++ (u ∷ tasks ns) = v.in_order ∙ ap (λ l. tak ++ tasks l) same in
      let theirs : (j : ℕ) → get_elem? cs j ≡ some (running a) → ⊥ = λ j g.
        let (m, hm, am) = v.owned.there j a g in (subst (Avoids a) same am).0 (sym same_node) in
      subst (λ q. Inv q (set cs i (running a)) sub (tak ++ (n.task ∷ [])) fin) same_pool
        (record {
          nodes = ns;
          holds = D.holds;
          owned = record {
            there = λ j c f. elim (get-set cs i j (running a) (running c) f) [
              | inl (_, q) ↦
                  subst (λ x. (m : Node) × (D.to.heap x ≡ some m) × Avoids x ns)
                    (same_node ∙ running-inj q) (record { task = u; next = nx }, at_b, first)
              | inr (_, g) ↦
                  let (m, hm, am) = v.owned.there j c g in
                  (m, ap (λ h. h c) D.same_heap ∙ hm, (subst (Avoids c) same am).1)
            ];
            alone = λ j k c f g. elim (get-set cs i j (running a) (running c) f) [
              | inl (ij, q) ↦ elim (get-set cs i k (running a) (running c) g) [
                | inl (ik, _) ↦ sym ij ∙ ik
                | inr (_, h) ↦ absurd (theirs k (h ∙ sym (ap some q)))
              ]
              | inr (_, q) ↦ elim (get-set cs i k (running a) (running c) g) [
                | inl (_, r) ↦ absurd (theirs j (q ∙ sym (ap some r)))
                | inr (_, r) ↦ v.owned.alone j k c q r
              ]
            ];
          };
          in_order =
              order
              ∙ ap (λ x. tak ++ (x ∷ tasks ns)) same_task
              ∙ sym (append_assoc tak (n.task ∷ []) (tasks ns));
          accounted =
              omega (arith, v.accounted, ap length same, busy-set cs i testing (running a) at);
          counted =
              D.counted
              ∙ v.counted
              ∙ ap (λ k. k % 2 ^ 32)
                  (omega (arith, ap length same, busy-set cs i testing (running a) at));
        })

  pub Inv-complete :
      (i : ℕ) → get_elem? cs i ≡ some finishing → Inv (finished p) (set cs i top) sub tak (fin + 1)
  unfolding finished
  Inv-complete i at = record {
    nodes = v.nodes;
    holds = record { chain = v.holds.chain; at_end = v.holds.at_end; distinct = v.holds.distinct };
    owned = record {
      there = (Owned-move p v.nodes cs i top (λ x q. cc) v.owned).there;
      alone = (Owned-move p v.nodes cs i top (λ x q. cc) v.owned).alone;
    };
    in_order = v.in_order;
    accounted = omega (arith, v.accounted, busy-set cs i finishing top at);
    counted = down p.remaining _ _ v.counted (omega (arith, busy-set cs i finishing top at));
  }

  pub Inv-cancel : Inv (record p { cancelled = true }) cs sub tak fin
  Inv-cancel = record {
    nodes = v.nodes;
    holds = record { chain = v.holds.chain; at_end = v.holds.at_end; distinct = v.holds.distinct };
    owned = record { there = v.owned.there; alone = v.owned.alone };
    in_order = v.in_order;
    accounted = v.accounted;
    counted = v.counted;
  }
