-- ===== src/Pool/Ring/Looped.antt =====
-- The deletion of a worker whose free list is one item that is linked to itself.
use highway.Prelude.{
  ℕ, suc, ◌≡◌, ◌≢◌, refl, sym, ◌∙◌, List, [], some, fault, >>=-ret, >>=-fault, ◌==◌, ==-self, ==-ne,
  if_false,
}
use mathlib.Core.Path.{subst}
use highway.Thread.{Effect}
use highway.Pool.{Work, Worker, null, at}
use highway.Pool.Queue.{at_found}
use highway.Pool.Ring.Chain.{get_found, worker_stop-KeepsBut}
use highway.Pool.Ring.{Member, Pool, free_works, worker_delete}

-- The free list is one item that is linked to itself.
pub record Looped (w : Worker) : Type 0 where
  pub work : Work
  pub ne : w.work_free ≢ null
  pub found : w.store w.work_free ≡ some work
  pub itself : work.next ≡ w.work_free

-- The item is freed, and then read.
free_works-Looped :
    (rounds : ℕ) (w : Worker) (effects : List Effect)
    → Looped w
    → free_works (suc (suc rounds)) w w.work_free effects ≡ fault
unfolding free_works at
free_works-Looped rounds w effects l =
    let free = (==-ne w.work_free null l.ne) in
    if_false (w.work_free == null) _ _ free
    ∙ >>=-ret _ _ l.work (at_found w w.work_free l.work l.ne l.found)
    ∙ rw l.itself (rw (free, ==-self w.work_free) refl)

pub worker_delete-Looped :
    (rounds : ℕ) (pool : Pool) (p : ℕ) (m : Member)
    → p ≢ null
    → pool.members p ≡ some m
    → Looped m.work
    → worker_delete (suc (suc rounds)) pool p ≡ fault
unfolding worker_delete
worker_delete-Looped rounds pool p m ne found l =
    let (stopped, m', waits, stop, found', same, keeps) = worker_stop-KeepsBut pool p m ne found in
    >>=-ret _ _ _ stop
    ∙ >>=-ret _ _ m' (get_found stopped p m' ne found')
    ∙ >>=-fault _ _ (free_works-Looped rounds m'.work [] (subst Looped (sym same) l))
