-- ===== src/Pool/Ring/Pushed.antt =====
-- `hiw_thread_pool_delete` of a pool that a work was pushed to.
use highway.Prelude.{
  ℕ, ◌+◌, ◌-◌, ◌<◌, ◌≡◌, ◌≢◌, sym, ap, ◌∙◌, List, [], ◌∷◌, ◌++◌, append_assoc, length,
  length-append, All-split, Lacks, none, ret, fault, arith,
}
use mathlib.Core.Path.{subst}
use highway.Pool.{null}
use highway.Pool.Ring.{Pool, Fresh, pool_new, pool_push, pool_delete}
use highway.Pool.Ring.Chain.{Distinct}
use highway.Pool.Ring.Delete.{delete_loop-Chain, delete_loop-gone}
use highway.Pool.Ring.Members.{Row, IsNew, pool_new-Row}
use highway.Pool.Ring.Cleared.{pointers, length-pointers, Distinct-snoc, IsNew-Distinct}
use highway.Pool.Ring.Alike.{Chain-head, Chain-All}
use highway.Pool.Ring.Rotated.{Circle, pool_push-Circle}

-- The deletion of a pool whose links go round.
Circle-fault :
    (pool pool' : Pool) (p : ℕ) (qs : List ℕ) (rounds : ℕ)
    → Row pool (p ∷ qs)
    → pool.worker_first ≡ p
    → Distinct (p ∷ qs ++ pool.worker_last ∷ [])
    → Circle pool pool' qs
    → length qs + 2 < rounds
    → pool_delete rounds pool' ≡ fault
unfolding pool_delete
Circle-fault pool pool' p qs rounds row here distinct c enough =
    let l = pool.worker_last in
    let wf = pool.worker_first in
    let n = pool'.worker_first in
    let ring = qs ++ l ∷ wf ∷ [] in
    let left = rounds - (length qs + 3) in
    let apart : Distinct ring = subst Distinct (append_assoc qs (l ∷ []) (wf ∷ [])) (
      Distinct-snoc (qs ++ l ∷ []) wf distinct.1
        (subst (λ q. Lacks q (qs ++ l ∷ [])) (sym here) distinct.0)) in
    let (pool2, effects, deleted, gone) =
      delete_loop-Chain rounds left pool' n ring n []
        (omega (arith, length-append qs (l ∷ wf ∷ []))) c.circle apart in
    let (n_ne, head) = Chain-head pool.members n qs l row.member c.begins row.exists row.found in
    deleted
    ∙ delete_loop-gone left pool2 n effects n_ne
        (Chain-All (λ q. pool2.members q ≡ none) pool.members n qs l (wf ∷ []) c.begins gone.gone)

-- Once a work is pushed to a pool of two workers or more, its deletion follows the link of the last
-- worker that it frees to the first one, which is freed already, if `hiw_malloc` gives each worker a
-- pointer of its own that is not NULL.
pub pool_push-pool_delete :
    (one two : Fresh) (rest : List Fresh) (fresh func arg rounds : ℕ)
    → one.pointer ≢ null
    → IsNew (one.pointer ∷ []) (two ∷ rest)
    → length rest + 2 < rounds
    → (pool pool' : Pool) × (pool_new (one ∷ two ∷ rest) ≡ ret pool)
      × (pool_push pool fresh func arg ≡ ret pool')
      × (pool_delete rounds pool' ≡ fault)
pool_push-pool_delete one two rest fresh func arg rounds ne new enough =
    let (pool, first, made, row, spells) = pool_new-Row one (two ∷ rest) ne new in
    let (pool', pushed, failed) =
      of_row pool first row spells (IsNew-Distinct (one.pointer ∷ []) (two ∷ rest) (tt, tt) new) in
    (pool, pool', made, pushed, failed)
  where
    of_row :
        (pool : Pool) (first : List ℕ)
        → Row pool first
        → first ++ pool.worker_last ∷ [] ≡ pointers (one ∷ two ∷ rest)
        → Distinct (pointers (one ∷ two ∷ rest))
        → (pool' : Pool) × (pool_push pool fresh func arg ≡ ret pool')
          × (pool_delete rounds pool' ≡ fault)
    of_row pool [] row spells distinct = absurd (omega (arith, ap length spells))
    of_row pool (p ∷ qs) row spells distinct =
        let here = row.chain.0 in
        let apart : Distinct (p ∷ qs ++ pool.worker_last ∷ []) =
          subst Distinct (sym spells) distinct in
        let lacks : Lacks pool.worker_first qs =
          subst (λ q. Lacks q qs) (sym here)
            (All-split (λ q. q ≢ p) qs (pool.worker_last ∷ []) apart.0).0 in
        let (pool', pushed, circle) = pool_push-Circle pool p qs fresh func arg row lacks in
        (
          pool',
          pushed,
          Circle-fault pool pool' p qs rounds row here apart circle (
              omega (
                arith,
                ap length spells,
                length-pointers rest,
                length-append qs (pool.worker_last ∷ []),
              )),
        )
