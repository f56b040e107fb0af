-- ===== src/Pool/Drain.antt =====
-- The loop with which `pool_end` frees what is left of the queue.
use wrensong_http_server.Prelude.{
  ℕ, zero, suc, ◌<◌, ◌≡◌, refl, ◌∙◌, List, [], ◌∷◌, length, none, if◌then◌else◌, arith, ==_iff, All,
}
use wrensong_http_server.Exec.{done}
use wrensong_http_server.Pool.Queue.{store, Pool, drain}
use wrensong_http_server.Pool.Chain.{Nodes, Chain, Avoids, Distinct, Holds, Chain-store}

abbrev pub owned_args : Nodes → List ℕ
owned_args [] = []
owned_args ((a, t) ∷ ns) = if t.owned then t.arg ∷ owned_args ns else owned_args ns

-- What the loop leaves of a queue with the nodes `ns`
pub record Drained (fuel : ℕ) (p : Pool) (ns : Nodes) : Type 0 where
  pub to : Pool
  pub ran : drain fuel p ≡ done (owned_args ns, to)
  pub emptied : to.q ≡ none
  pub freed : All (λ x. to.heap x.0 ≡ none) ns
  pub others : (a : ℕ) → Avoids a ns → to.heap a ≡ p.heap a

Chain-Drained :
    (fuel : ℕ) (p : Pool) (ns : Nodes)
    → length ns < fuel
    → Chain p.heap p.q ns
    → Distinct ns
    → Drained fuel p ns
unfolding drain
Chain-Drained zero p ns few c d = absurd (ground arith)
Chain-Drained (suc fuel) p [] few c d = record {
  to = p;
  ran = rw c;
  emptied = c;
  freed = tt;
  others = λ a v. refl;
}
Chain-Drained (suc fuel) p ((a, t) ∷ ns) few (e, (nx, at, c)) d =
    let p1 = record p { q = nx; heap = store p.heap a none } in
    let D =
      Chain-Drained fuel p1 ns (omega (arith, few)) (Chain-store p.heap nx ns a none d.0 c) d.1 in
    record {
      to = D.to;
      ran = rw (e, at, D.ran);
      emptied = D.emptied;
      freed = (D.others a d.0 ∙ ground (arith, ==_iff a a), D.freed);
      others = λ b v. D.others b v.1 ∙ ground (arith, ==_iff a b, v.0);
    }

-- Given more rounds than there are nodes, the loop of `pool_end` over a linked queue ends: every node
-- is freed, nothing else is, and the arguments freed are those of the tasks that own theirs.
pub drain-Drained :
    (fuel : ℕ) (p : Pool) (ns : Nodes) → Holds p ns → length ns < fuel → Drained fuel p ns
drain-Drained fuel p ns h few = Chain-Drained fuel p ns few h.chain h.distinct
