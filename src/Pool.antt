-- ===== src/Pool.antt =====
-- The thread pool of core/src/hiw_thread.c: each worker's queue of work, over a store of work items.
pub mod Queue
pub mod Lost
pub mod Func
pub mod Ring
pub mod Sound
pub mod Turns
use highway.Prelude.{
  ℕ, zero, suc, List, [], ◌∷◌, Option, some, Outcome, ret, fault, hang, ◌>>=◌, access, ◌==◌,
  if◌then◌else◌,
}

-- `hiw_thread_pool_work`. A pointer is a number, and 0 is NULL.
pub record Work : Type 0 where
  pub func : ℕ
  pub arg : ℕ
  pub next : ℕ

abbrev pub null : ℕ
null = 0

-- The fields of `hiw_thread_pool_worker` that its work goes through, and the store.
pub record Worker : Type 0 where
  pub work_next : ℕ
  pub work_last : ℕ
  pub work_free : ℕ
  pub store : ℕ → Option Work

-- `hiw_thread_pool_worker_new`, as far as those fields go.
unfoldable pub worker_new : (ℕ → Option Work) → Worker
worker_new store = record { work_next = null; work_last = null; work_free = null; store = store }

-- `*p`
pub at : Worker → ℕ → Outcome Work
at w p = if p == null then fault else access (w.store p)

-- `*p = work`
pub put : Worker → ℕ → Work → Worker
put w p work = record w { store = λ q. if p == q then some work else w.store q }

-- `hiw_thread_pool_work_done`, between its lock and its unlock.
pub work_done : Worker → ℕ → Outcome Worker
unfolding at put
work_done w p = do
  work ← at w p
  let w' = if w.work_free == null then w else put w p (record work { next = w.work_free })
  ret (record w' { work_free = p })

-- `hiw_thread_pool_worker_pop_work_UNSAFE`
pub pop_work : Worker → Outcome (ℕ × Worker)
unfolding at
pop_work w = if w.work_next == null then ret (null, w) else do
  work ← at w w.work_next
  ret (
      if work.next == null
      then (w.work_next, record w { work_next = null; work_last = null })
      else (w.work_next, record w { work_next = work.next }))

-- `hiw_thread_pool_work_new_UNSAFE`; `fresh` is what `hiw_malloc` returns.
pub work_new : Worker → ℕ → ℕ → ℕ → Outcome (ℕ × Worker)
unfolding at put
work_new w fresh func arg =
    if w.work_free == null
    then ret (fresh, put w fresh (record { func = func; arg = arg; next = null }))
    else do
      work ← at w w.work_free
      let w' = record w { work_next = work.next }
      ret (w.work_free, put w' w.work_free (record { func = func; arg = arg; next = null }))

-- `hiw_thread_pool_push`, from the lock of the worker on.
unfoldable pub push_work : Worker → ℕ → ℕ → ℕ → Outcome Worker
unfolding work_new at put
push_work w fresh func arg = do
  (p, w') ← work_new w fresh func arg
  if w'.work_last == null
      then ret (record w' { work_next = p; work_last = p })
      else do last ← at w' w'.work_last; ret (put w' w'.work_last (record last { next = p }))

-- The work that a worker's thread runs one after another, with a number of rounds, and the worker
-- after it.
unfoldable pub run_all : ℕ → Worker → Outcome (List (ℕ × ℕ) × Worker)
unfolding pop_work work_done at
run_all zero w = hang
run_all (suc rounds) w = do
  (p, w') ← pop_work w
  let rest = (do
    work ← at w' p
    w'' ← work_done w' p
    (later, final) ← run_all rounds w''
    ret ((work.func, work.arg) ∷ later, final))
  if p == null then ret ([], w') else rest
