-- ===== src/Pool/Ring/Delete.antt =====
-- `hiw_thread_pool_delete` along the workers.
use highway.Prelude.{
  ℕ, zero, suc, ◌+◌, ◌≡◌, ◌≢◌, refl, sym, ap, ◌∙◌, List, [], ◌∷◌, ◌++◌, length, All, Lacks, none,
  some, ret, fault, >>=-ret, >>=-fault, access, arith, ap_at, ◌==◌, ==-ne, if_false,
}
use highway.Thread.{Effect}
use highway.Pool.{null}
use highway.Pool.Ring.{Member, Pool, get, delete_loop}
use highway.Pool.Ring.Chain.{
  NoneFree, Chain, Chain-same, Distinct, KeepsBut, Lacks-KeepsBut, get_found, worker_stop-KeepsBut,
  worker_delete-KeepsBut,
}

-- The workers that are gone, and those that are not touched.
pub record Gone (qs : List ℕ) (pool pool' : Pool) : Type 0 where
  pub gone : All (λ q. pool'.members q ≡ none) qs
  pub others : (q : ℕ) → Lacks q qs → pool'.members q ≡ pool.members q

delete_loop-step :
    (rounds : ℕ) (pool : Pool) (p : ℕ) (m : Member) (effects : List Effect)
    → p ≢ null
    → pool.members p ≡ some m
    → NoneFree m
    → (pool' : Pool) × (frees : List Effect) × (delete_loop (suc rounds) pool p effects
        ≡ delete_loop rounds pool' m.next (effects ++ frees))
      × (pool'.members p ≡ none)
      × KeepsBut p pool.members pool'.members
unfolding delete_loop
delete_loop-step rounds pool p m effects ne found none_free =
    let (pool1, m', waits, stopped, found', same, keeps) = worker_stop-KeepsBut pool p m ne found in
    let (pool2, frees, deleted, gone, keeps2) =
      worker_delete-KeepsBut rounds pool1 p m' ne found' (ap (λ w. w.work_free) same ∙ none_free) in
    (
      pool2,
      waits ++ frees,
      if_false (p == null) _ _ (==-ne p null ne)
          ∙ >>=-ret _ _ m (get_found pool p m ne found)
          ∙ >>=-ret _ _ _ stopped
          ∙ >>=-ret _ _ _ deleted,
      gone,
      λ q other. keeps2 q other ∙ keeps q other,
    )

-- The loop deletes a chain of workers and goes on behind it.
pub delete_loop-Chain :
    (rounds left : ℕ) (pool : Pool) (p : ℕ) (qs : List ℕ) (end : ℕ) (effects : List Effect)
    → rounds ≡ length qs + suc left
    → Chain NoneFree pool.members p qs end
    → Distinct qs
    → (pool' : Pool) × (effects' : List Effect) × (delete_loop rounds pool p effects
        ≡ delete_loop (suc left) pool' end effects')
      × Gone qs pool pool'
delete_loop-Chain rounds left pool p [] end effects e chain distinct = (
  pool,
  effects,
  ap_at (λ r. delete_loop r pool p effects) rounds (suc left) (omega (arith, e))
      ∙ ap (λ q. delete_loop (suc left) pool q effects) chain,
  record { gone = tt; others = λ q l. refl },
)
delete_loop-Chain zero left pool p (q ∷ qs) end effects e chain distinct = absurd (omega (arith, e))
delete_loop-Chain (suc rounds) left pool p (q ∷ qs) end effects e
      (here, ne, (m, found, none_free, rest)) distinct =
    let (pool1, frees, deleted, gone, keeps) =
      delete_loop-step rounds pool q m effects ne found none_free in
    let (pool2, effects', later, rest_gone) =
      delete_loop-Chain rounds left pool1 m.next qs end (effects ++ frees) (omega (arith, e))
        (Chain-same NoneFree pool.members pool1.members m.next qs end
          (Lacks-KeepsBut q pool.members pool1.members qs keeps distinct.0) rest)
        distinct.1 in
    (
      pool2,
      effects',
      ap (λ r. delete_loop (suc rounds) pool r effects) here ∙ deleted ∙ later,
      record {
        gone = (rest_gone.others q distinct.0 ∙ gone, rest_gone.gone);
        others = λ r l. rest_gone.others r l.1 ∙ keeps r (λ same. l.0 (sym same));
      },
    )

-- Behind the last worker the loop ends.
pub delete_loop-end :
    (left : ℕ) (pool : Pool) (effects : List Effect)
    → delete_loop (suc left) pool null effects ≡ ret (pool, effects)
unfolding delete_loop
delete_loop-end left pool effects = refl

-- A worker that is gone is read.
pub delete_loop-gone :
    (left : ℕ) (pool : Pool) (p : ℕ) (effects : List Effect)
    → p ≢ null
    → pool.members p ≡ none
    → delete_loop (suc left) pool p effects ≡ fault
unfolding delete_loop get
delete_loop-gone left pool p effects ne gone =
    if_false (p == null) _ _ (==-ne p null ne)
    ∙ >>=-fault _ _ (if_false (p == null) _ _ (==-ne p null ne) ∙ ap access gone)
