-- ===== src/Pool/Ring/Cleared.antt =====
-- `hiw_thread_pool_delete` of a pool that no work was pushed to.
use highway.Prelude.{
  ℕ, suc, ◌+◌, ◌-◌, ◌<◌, ◌≡◌, ◌≢◌, refl, sym, ap, ◌∙◌, List, [], ◌∷◌, ◌++◌, append_assoc,
  append-nil, map, length, All, All-append, Lacks, none, ret, arith,
}
use mathlib.Core.Path.{subst}
use highway.Thread.{Effect}
use highway.Pool.{null}
use highway.Pool.Ring.{Pool, Fresh, pool_new, pool_delete}
use highway.Pool.Ring.Chain.{NoneFree, Chain-map, Distinct}
use highway.Pool.Ring.Delete.{delete_loop-Chain, delete_loop-end}
use highway.Pool.Ring.Members.{Unused, Row-Chain, IsNew, pool_new-Row}

abbrev pub pointers : List Fresh → List ℕ
pointers = map (λ f. f.pointer)

pub Distinct-snoc : (qs : List ℕ) (p : ℕ) → Distinct qs → Lacks p qs → Distinct (qs ++ p ∷ [])
Distinct-snoc [] p d l = (tt, tt)
Distinct-snoc (q ∷ qs) p d l =
    (All-append (λ r. r ≢ q) qs (p ∷ []) d.0 ((λ e. l.0 (sym e)), tt), Distinct-snoc qs p d.1 l.1)

pub IsNew-Distinct :
    (known : List ℕ) (fresh : List Fresh)
    → Distinct known
    → IsNew known fresh
    → Distinct (known ++ pointers fresh)
IsNew-Distinct known [] d new = subst Distinct (sym (append-nil known)) d
IsNew-Distinct known (f ∷ fresh) d (lacks, ne, new) =
    subst Distinct (append_assoc known (f.pointer ∷ []) (pointers fresh))
      (IsNew-Distinct (known ++ f.pointer ∷ []) fresh (Distinct-snoc known f.pointer d lacks) new)

pub length-pointers : (fresh : List Fresh) → length (pointers fresh) ≡ length fresh
length-pointers [] = refl
length-pointers (f ∷ fresh) = ap suc (length-pointers fresh)

-- The deletion of a new pool ends, in one round more than there are workers, with the memory of all
-- of them freed and none of it used after that, if `hiw_malloc` gives each worker a pointer of its own
-- that is not NULL.
pub pool_new-pool_delete :
    (one : Fresh) (rest : List Fresh) (rounds : ℕ)
    → one.pointer ≢ null
    → IsNew (one.pointer ∷ []) rest
    → length rest + 1 < rounds
    → (pool : Pool) × (pool_new (one ∷ rest) ≡ ret pool)
      × (pool' : Pool) × (effects : List Effect) × (pool_delete rounds pool ≡ ret (pool', effects))
      × All (λ q. pool'.members q ≡ none) (pointers (one ∷ rest))
unfolding pool_delete
pool_new-pool_delete one rest rounds ne new enough =
    let (pool, first, made, row, spells) = pool_new-Row one rest ne new in
    let qs = first ++ pool.worker_last ∷ [] in
    let left = rounds - (length rest + 2) in
    let size : length qs ≡ suc (length rest) = ap length spells ∙ ap suc (length-pointers rest) in
    let (pool', effects, deleted, gone) =
      delete_loop-Chain rounds left pool pool.worker_first qs null [] (omega (arith, size))
        (Chain-map Unused NoneFree pool.members pool.worker_first qs null (λ m u. u.0)
          (Row-Chain pool first row))
        (subst Distinct (sym spells) (IsNew-Distinct (one.pointer ∷ []) rest (tt, tt) new)) in
    (
      pool,
      made,
      pool',
      effects,
      deleted ∙ delete_loop-end left pool' effects,
      subst (All (λ q. pool'.members q ≡ none)) spells gone.gone,
    )
