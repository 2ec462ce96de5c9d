-- ===== src/Pool/Turns/Calm/Freed.antt =====
-- The deletion of a worker that was given each work while its thread had none.
use highway.Prelude.{
  ℕ, suc, ◌≡◌, ◌≢◌, refl, sym, ◌∙◌, List, [], ◌∷◌, All, some, none, ret, fault, >>=-ret,
}
use mathlib.Core.Path.{subst}
use highway.Pool.{null}
use highway.Pool.Queue.{Item}
use highway.Pool.Ring.{Member, Pool, worker_delete}
use highway.Pool.Ring.Looped.{Looped, worker_delete-Looped}
use highway.Pool.Turns.{Shared, main_start}
use highway.Pool.Turns.Calm.Idle.{Idle}
use highway.Pool.Turns.Calm.Served.{one_by_one, one-Idle, start-Idle}

-- Whatever more works follow, the free list stays as it is.
one_by_one-Looped :
    (items : List (Item × ℕ)) (s : Shared)
    → Idle s
    → Looped s.work
    → All (λ i. i.0.pointer ≢ null) items
    → (t : Shared) × (one_by_one items s ≡ ret t) × Looped t.work
unfolding one_by_one
one_by_one-Looped [] s idle l nes = (s, refl, l)
one_by_one-Looped (i ∷ items) s idle l nes =
    let v = one-Idle s i idle nes.0 in
    let (t, later, lt) = one_by_one-Looped items v.after v.idle (v.loops l.ne) nes.1 in
    (t, >>=-ret _ _ _ v.answer ∙ later, lt)

-- Once a new worker has run two works or more that were pushed one after another, each while its
-- thread had none, its deletion frees the memory of an item and goes on to read it, if `hiw_malloc`
-- does not return NULL.
pub one_by_one-worker_delete :
    (worker : ℕ) (i j : Item × ℕ) (items : List (Item × ℕ))
    → All (λ k. k.0.pointer ≢ null) (i ∷ j ∷ items)
    → (t : Shared) × (one_by_one (i ∷ j ∷ items) (main_start (λ p. none) (some worker)) ≡ ret t)
      × ((rounds : ℕ) (pool : Pool) (p : ℕ) (m : Member)
          → p ≢ null
          → pool.members p ≡ some m
          → m.work ≡ t.work
          → worker_delete (suc (suc rounds)) pool p ≡ fault)
unfolding one_by_one
one_by_one-worker_delete worker i j items nes =
    let v = one-Idle (main_start (λ p. none) (some worker)) i (start-Idle worker) nes.0 in
    let u = one-Idle v.after j v.idle nes.1.0 in
    let (t, later, l) = one_by_one-Looped items u.after u.idle (u.loops v.used) nes.1.1 in
    (
      t,
      >>=-ret _ _ _ v.answer ∙ >>=-ret _ _ _ u.answer ∙ later,
      λ rounds pool p m ne found same.
          worker_delete-Looped rounds pool p m ne found (subst Looped (sym same) l),
    )
