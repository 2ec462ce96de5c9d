-- ===== src/Pool/Ring.antt =====
-- The workers of a pool of core/src/hiw_thread.c, linked in memory.
pub mod Chain
pub mod Looped
pub mod Members
pub mod Delete
pub mod Cleared
pub mod Alike
pub mod Rotated
pub mod Pushed
use highway.Prelude.{
  ℕ, zero, suc, Bool, true, false, List, [], ◌∷◌, ◌++◌, Option, none, some, Outcome, ret, fault,
  hang, ◌>>=◌, access, ◌==◌, if◌then◌else◌,
}
use highway.Thread.{
  Thread, Effect, freed, Run, thread_new, set_userdata, thread_start, thread_wait, thread_delete,
}
use highway.Pool.{Work, Worker, null, at, worker_new, push_work}

-- `hiw_thread_pool_worker`. A pointer is a number; `work` holds the fields of its work.
pub record Member : Type 0 where
  pub thread : Thread
  pub work : Worker
  pub prev : ℕ
  pub next : ℕ
  pub running : Bool

-- `hiw_thread_pool`, and the workers in memory: `none` is memory that is not, or no longer, theirs.
pub record Pool : Type 0 where
  pub worker_first : ℕ
  pub worker_last : ℕ
  pub members : ℕ → Option Member

-- `*p`
pub get : Pool → ℕ → Outcome Member
get pool p = if p == null then fault else access (pool.members p)

-- `*p = m`; `none` is `free(p)`.
unfoldable pub store : Pool → ℕ → Option Member → Pool
store pool p m = record pool { members = λ q. if p == q then m else pool.members q }

-- What `hiw_malloc` and `hiw_thread_new` make for a worker: its pointer, what its `running`
-- happens to hold, the handle in its thread and the memory of its work.
pub record Fresh : Type 0 where
  pub pointer : ℕ
  pub running : Bool
  pub handle : ℕ
  pub heap : ℕ → Option Work

-- `hiw_thread_pool_func`
abbrev pub pool_func : ℕ
pool_func = 1

-- `hiw_thread_pool_worker_new`, which leaves `running` as it is.
unfoldable pub member_new : Fresh → Outcome Member
unfolding worker_new thread_new set_userdata
member_new fresh = do
  thread ← access (thread_new (some pool_func) fresh.handle)
  ret (record {
    thread = set_userdata thread (some fresh.pointer);
    work = worker_new fresh.heap;
    prev = null;
    next = null;
    running = fresh.running;
  })

-- `hiw_thread_pool_add_worker`
unfoldable pub add_worker : Pool → ℕ → Outcome Pool
unfolding get store
add_worker pool p =
    if pool.worker_last == null then ret (record pool { worker_first = p; worker_last = p }) else do
      m ← get pool p
      let linked = store pool p (some (record m { prev = pool.worker_last }))
      last ← get linked pool.worker_last
      ret (record (store linked pool.worker_last (some (record last { next = p }))) {
        worker_last = p;
      })

-- The loop of `hiw_thread_pool_new`: one round for each of `config.count` workers.
pub add_workers : Pool → List Fresh → Outcome Pool
unfolding member_new add_worker store
add_workers pool [] = ret pool
add_workers pool (fresh ∷ rest) = do
  m ← member_new fresh
  pool' ← add_worker (store pool fresh.pointer (some m)) fresh.pointer
  add_workers pool' rest

unfoldable pub pool_new : List Fresh → Outcome Pool
unfolding add_workers
pool_new fresh =
    add_workers (record { worker_first = null; worker_last = null; members = λ p. none }) fresh

-- The loop of `hiw_thread_pool_start` for some rounds. `created` is what `pthread_create` answers
-- for a worker.
pub start_loop : (ℕ → Option ℕ) → ℕ → Pool → ℕ → List Run → Outcome (Bool × Pool × List Run)
unfolding get store
start_loop created zero pool worker runs = hang
start_loop created (suc rounds) pool worker runs =
    let start = (do
      m ← get pool worker
      let (started, thread', ran) = thread_start m.thread (created worker)
      let pool' = store pool worker (some (record m { running = true; thread = thread' }))
      let rest = start_loop created rounds pool' m.next (runs ++ ran)
      if started then rest else ret (false, pool', runs ++ ran)) in
    if worker == null then ret (true, pool, runs) else start

unfoldable pub pool_start : (ℕ → Option ℕ) → ℕ → Pool → Outcome (Bool × Pool × List Run)
unfolding start_loop
pool_start created rounds pool = start_loop created rounds pool pool.worker_first []

-- What `hiw_thread_pool_push` does under the lock of the pool: the first worker moves to the end.
pub rotate : Pool → Outcome (ℕ × Pool)
unfolding get store
rotate pool = do
  let p = pool.worker_first
  worker ← get pool p
  first ← get pool worker.next
  let pool1 = store pool worker.next (some (record first { prev = null }))
  last ← get pool1 pool.worker_last
  let pool2 = store pool1 pool.worker_last (some (record last { next = p }))
  moved ← get pool2 p
  let pool3 = store pool2 p (some (record moved { prev = pool.worker_last }))
  ret (p, record pool3 { worker_first = worker.next; worker_last = p })

-- `fresh` is what `hiw_malloc` returns for the work.
unfoldable pub pool_push : Pool → ℕ → ℕ → ℕ → Outcome Pool
unfolding rotate get store push_work
pool_push pool fresh func arg = do
  (p, pool') ← rotate pool
  m ← get pool' p
  work' ← push_work m.work fresh func arg
  ret (store pool' p (some (record m { work = work' })))

-- `hiw_thread_pool_worker_stop`
pub worker_stop : Pool → ℕ → Outcome (Pool × List Effect)
unfolding get store
worker_stop pool p = do
  m ← get pool p
  let waited = thread_wait m.thread
  ret (
      if m.running
      then (store pool p (some (record m { running = false; thread = waited.0 })), waited.1)
      else (pool, []))

-- `while (work != NULL)` in `hiw_thread_pool_worker_delete`, for some rounds.
pub free_works : ℕ → Worker → ℕ → List Effect → Outcome (List Effect)
unfolding at
free_works zero w p effects = hang
free_works (suc rounds) w p effects =
    let rest = (do
      work ← at w p
      let w' = record w { store = λ q. if p == q then none else w.store q }
      free_works rounds w' work.next (effects ++ freed ∷ [])) in
    if p == null then ret effects else rest

pub worker_delete : ℕ → Pool → ℕ → Outcome (Pool × List Effect)
unfolding worker_stop free_works get store
worker_delete rounds pool p = do
  (stopped, waits) ← worker_stop pool p
  m ← get stopped p
  works ← free_works rounds m.work m.work.work_free []
  ret (store stopped p none, waits ++ (works ++ (thread_delete m.thread ++ freed ∷ [])))

-- The loop of `hiw_thread_pool_delete`, for some rounds: the workers in memory after it.
pub delete_loop : ℕ → Pool → ℕ → List Effect → Outcome (Pool × List Effect)
unfolding get worker_stop worker_delete
delete_loop zero pool worker effects = hang
delete_loop (suc rounds) pool worker effects =
    let delete = (do
      m ← get pool worker
      (stopped, waits) ← worker_stop pool worker
      (deleted, frees) ← worker_delete (suc rounds) stopped worker
      delete_loop rounds deleted m.next (effects ++ (waits ++ frees))) in
    if worker == null then ret (pool, effects) else delete

unfoldable pub pool_delete : ℕ → Pool → Outcome (Pool × List Effect)
unfolding delete_loop
pool_delete rounds pool = delete_loop rounds pool pool.worker_first []
