-- ===== src/Pool/Func.antt =====
-- The function of a pool's threads in core/src/hiw_thread.c, and the pool as a context of them.
use highway.Prelude.{ℕ, ◌≡◌, refl, ap, ◌∙◌, Option, some, Outcome, ret, ◌>>=◌, >>=-ret, access, []}
use highway.Thread.{Thread, Context, context_push, context_pop, context_find}
use highway.Thread.Contexts.{context_find-innermost}

-- `&HIW_THREAD_POOL_KEY`
abbrev pool_key : ℕ
pool_key = 1

-- `hiw_thread_pool_get`
pub pool_get : Thread → Option ℕ
pool_get t = context_find t pool_key

-- `hiw_thread_pool_func`. `on_start` is the pool's, and `pool_of` reads the `pool` of a worker. What
-- it does to the worker's critical section is left out.
pub pool_func : (Thread → Outcome Thread) → (ℕ → Option ℕ) → Thread → Outcome Thread
unfolding context_push context_pop
pool_func on_start pool_of t = do
  worker ← access t.userdata
  pool ← access (pool_of worker)
  t' ← on_start (context_push t (record { key = pool_key; value = pool })).1
  ret (context_pop t').1

-- A function that starts the threads of a pool, and leaves the contexts as they are wherever it
-- finds the pool, does so: in it `hiw_thread_pool_get` gives the pool of the worker, and the thread
-- has the contexts afterwards that it had before.
pub pool_func-pool_get :
    (on_start : Thread → Outcome Thread) (pool_of : ℕ → Option ℕ) (t : Thread) (worker pool : ℕ)
    → t.userdata ≡ some worker
    → pool_of worker ≡ some pool
    → ((u : Thread)
        → pool_get u ≡ some pool
        → (v : Thread) × (on_start u ≡ ret v) × (v.context ≡ u.context))
    → (t' : Thread) × (pool_func on_start pool_of t ≡ ret t') × (t'.context ≡ t.context)
unfolding pool_func pool_get context_push context_pop
pool_func-pool_get on_start pool_of t worker pool e f keeps =
    let c : Context = record { key = pool_key; value = pool } in
    let u : Thread = (context_push t c).1 in
    let (v, started, same) = keeps u (context_find-innermost u [] t.context c refl tt) in
    (
      (context_pop v).1,
      >>=-ret _ _ worker (ap access e) ∙ >>=-ret _ _ pool (ap access f) ∙ >>=-ret _ _ v started,
      ap (λ cs. (context_pop (record v { context = cs })).1.context) same,
    )
