-- ===== src/Tests/Works.antt =====
-- Works that are pushed to a worker that has none, and the workers of a pool.
use highway.Prelude.{
  ℕ, All, false, fault, ◌≡◌, refl, List, [], ◌∷◌, some, none, arith, ◌==◌, if◌then◌else◌, Outcome,
  ret, ◌>>=◌,
}
use highway.Thread.{Effect}
use highway.Pool.Ring.{Fresh, Pool, pool_new, pool_push, pool_delete}
use highway.Pool.Ring.Members.{IsNew}
use highway.Pool.Ring.Cleared.{pool_new-pool_delete}
use highway.Pool.Ring.Pushed.{pool_push-pool_delete}
use highway.Pool.Queue.{Item, run_all-Linked}
use highway.Pool.Lost.{push_all, push_all-run_all}
use highway.Pool.{Worker, worker_new, push_work, run_all}

-- The functions and arguments that run after pushes of the functions 1, 2 and 3.
abbrev ran : Outcome (List (ℕ × ℕ))
ran = do
  w1 ← push_work (worker_new (λ p. none)) 11 1 100
  w2 ← push_work w1 12 2 200
  w3 ← push_work w2 13 3 300
  (works, w4) ← run_all 4 w3
  ret works

-- The second one is not run.
ran_all : ran ≡ ret ((1, 100) ∷ (3, 300) ∷ [])
unfolding worker_new push_work run_all
ran_all = refl

abbrev item : ℕ → ℕ → ℕ → Item
item pointer func arg = record { pointer = pointer; func = func; arg = arg }

push_all-run_all_example :
    (w : Worker) × (push_all
        (worker_new (λ p. none))
        (item 11 1 100 ∷ item 12 2 200 ∷ item 13 3 300 ∷ [])
      ≡ ret w)
    × (w' : Worker) × (run_all 4 w ≡ ret ((1, 100) ∷ (3, 300) ∷ [], w'))
push_all-run_all_example =
    push_all-run_all (λ p. none) (item 11 1 100) (item 12 2 200) (item 13 3 300 ∷ []) 4
      (λ e. omega arith) (ground arith) (ground arith) (omega arith)

-- Two works, linked.
abbrev two_works : Worker
two_works = record {
  work_next = 11;
  work_last = 12;
  work_free = 0;
  store = λ p.
      if p == 11
      then some (record { func = 1; arg = 100; next = 12 })
      else some (record { func = 2; arg = 200; next = 0 });
}

run_all-Linked_example :
    (w' : Worker) × (run_all 3 two_works ≡ ret ((1, 100) ∷ (2, 200) ∷ [], w')) × (w'.work_next ≡ 0)
run_all-Linked_example =
    run_all-Linked two_works (item 11 1 100 ∷ item 12 2 200 ∷ []) 3
      (refl, (λ e. omega arith), (12, refl, (refl, (λ e. omega arith), (0, refl, refl))))
      (((λ e. omega arith), tt), (tt, tt)) (omega arith)

-- A worker at a pointer.
abbrev worker_at : ℕ → Fresh
worker_at p = record { pointer = p; running = false; handle = p; heap = λ q. none }

workers-IsNew : IsNew (1 ∷ []) (worker_at 2 ∷ worker_at 3 ∷ [])
workers-IsNew = ground arith

pool_new-pool_delete_example :
    (pool : Pool) × (pool_new (worker_at 1 ∷ worker_at 2 ∷ worker_at 3 ∷ []) ≡ ret pool)
    × (pool' : Pool) × (effects : List Effect) × (pool_delete 4 pool ≡ ret (pool', effects))
    × All (λ q. pool'.members q ≡ none) (1 ∷ 2 ∷ 3 ∷ [])
pool_new-pool_delete_example =
    pool_new-pool_delete (worker_at 1) (worker_at 2 ∷ worker_at 3 ∷ []) 4 (λ e. omega arith)
      workers-IsNew (omega arith)

pool_push-pool_delete_example :
    (pool pool' : Pool) × (pool_new (worker_at 1 ∷ worker_at 2 ∷ worker_at 3 ∷ []) ≡ ret pool)
    × (pool_push pool 50 7 8 ≡ ret pool')
    × (pool_delete 4 pool' ≡ fault)
pool_push-pool_delete_example =
    pool_push-pool_delete (worker_at 1) (worker_at 2) (worker_at 3 ∷ []) 50 7 8 4 (λ e. omega arith)
      workers-IsNew (omega arith)
