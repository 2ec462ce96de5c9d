-- ===== src/Pool/Turns.antt =====
-- A worker's thread and the pushes to the worker, interleaved: `hiw_thread_pool_worker_main` of
-- core/src/hiw_thread.c, whose sections under the lock of the worker are steps.
pub mod Safe
pub mod Calm
pub mod Again
use highway.Prelude.{
  ℕ, zero, suc, Bool, true, false, ◌&&◌, not, ◌≡◌, ◌≢◌, List, [], ◌∷◌, ◌++◌, Option, none, some,
  Outcome, ret, ◌>>=◌, ◌==◌, if◌then◌else◌,
}
use highway.Pool.{Work, Worker, null, at, worker_new, pop_work, work_done, push_work}

-- Where the thread stands, outside of the sections under the lock.
pub data Turn : Type 0 where
  -- at the start of a round of `while (1)`
  top : Turn
  -- in `hiw_thread_critical_sec_wait`
  waiting : Turn
  -- with a work that it took off the queue
  took : ℕ → Turn
  -- with the data of the work as its userdata, before `work->func(t)`
  loaded : ℕ → ℕ → Turn
  -- behind the call
  ran : ℕ → Turn
  -- behind the loop
  left : Turn

-- A worker and its thread, with what was pushed to it and what its thread called: functions, each
-- with its data.
pub record Shared : Type 0 where
  pub work : Worker
  pub running : Bool
  pub turn : Turn
  pub pushed : List (ℕ × ℕ)
  pub called : List (ℕ × ℕ)

-- From `hiw_thread_pool_worker_pop_work_UNSAFE` to the unlock.
pub take_work : Shared → Outcome Shared
unfolding pop_work
take_work s = do
  (p, work') ← pop_work s.work
  ret (record s { work = work'; turn = if p == null then top else took p })

-- A round up to the wait or the unlock.
pub look : Shared → Outcome Shared
unfolding take_work
look s =
    if (s.work.work_next == null) && s.running
    then ret (record s { turn = waiting })
    else if not s.running && (s.work.work_next == null)
    then ret (record s { turn = left })
    else take_work s

-- `hiw_thread_set_userdata(t, work->data)`
pub load_data : Shared → ℕ → Outcome Shared
unfolding at
load_data s p = do work ← at s.work p; ret (record s { turn = loaded p work.arg })

-- `work->func(t)`
pub call_func : Shared → ℕ → ℕ → Outcome Shared
unfolding at
call_func s p arg = do
  work ← at s.work p
  ret (record s { turn = ran p; called = s.called ++ (work.func, arg) ∷ [] })

pub finish_work : Shared → ℕ → Outcome Shared
unfolding work_done
finish_work s p = do work' ← work_done s.work p; ret (record s { work = work'; turn = top })

-- The thread goes on. A wait ends, with or without a reason, once the lock is free.
unfoldable pub advance : Turn → Shared → Outcome Shared
unfolding look take_work load_data call_func finish_work
advance top s = look s
advance waiting s = take_work s
advance (took p) s = load_data s p
advance (loaded p arg) s = call_func s p arg
advance (ran p) s = finish_work s p
advance left s = ret s

-- `hiw_thread_pool_push`, under the lock of the worker.
unfoldable pub push : Shared → ℕ → ℕ → ℕ → Outcome Shared
unfolding push_work
push s fresh func arg = do
  work' ← push_work s.work fresh func arg
  ret (record s { work = work'; pushed = s.pushed ++ (func, arg) ∷ [] })

-- `worker->running = false` of `hiw_thread_pool_worker_stop`, under the lock.
unfoldable pub stop : Shared → Shared
stop s = record s { running = false }

-- A worker whose thread starts: `userdata` is the thread's, of which NULL ends the thread.
unfoldable pub main_start : (ℕ → Option Work) → Option ℕ → Shared
unfolding worker_new
main_start store userdata = record {
  work = worker_new store;
  running = true;
  turn = entered userdata;
  pushed = [];
  called = [];
}
  where
    entered : Option ℕ → Turn
    entered none = left
    entered (some worker) = top

-- The item whose function and data the thread reads outside of the lock.
abbrev pub unlocked : Turn → ℕ
unlocked top = null
unlocked waiting = null
unlocked (took p) = p
unlocked (loaded p arg) = p
unlocked (ran p) = p
unlocked left = null

-- A push would write the function and the data of that item, since it heads the free list. Nothing
-- orders the writes and the thread's reads: the behaviour of the program is undefined.
unfoldable pub races : Shared → Bool
races s = not (unlocked s.turn == null) && (s.work.work_free == unlocked s.turn)

-- What any of the threads does next, up to a push that races. `hiw_malloc` returns a pointer to
-- memory that is not in use.
pub data Step (s : Shared) : Shared → Type 0 where
  goes_on : {t : Shared} → advance s.turn s ≡ ret t → Step s t
  pushes :
      {t : Shared} (fresh func arg : ℕ)
      → fresh ≢ null
      → s.work.store fresh ≡ none
      → races s ≡ false
      → push s fresh func arg ≡ ret t
      → Step s t
  stops : Step s (stop s)

pub data Reach (s : Shared) : Shared → Type 0 where
  here : Reach s s
  later : {t u : Shared} → Reach s t → Step t u → Reach s u

-- The thread alone, for some of its turns.
unfoldable pub advances : ℕ → Shared → Outcome Shared
unfolding advance
advances zero s = ret s
advances (suc n) s = do t ← advance s.turn s; advances n t
