-- ===== src/Thread.antt =====
-- Threads and their contexts in core/src/hiw_thread.c.
pub mod Contexts
pub mod Waits
use highway.Prelude.{
  ℕ, Bool, true, false, List, [], ◌∷◌, Option, none, some, ◌==◌, if◌then◌else◌, ltb,
}

-- `hiw_thread_context`: a key and a value. The contexts of a thread are the list along `parent`.
pub record Context : Type 0 where
  pub key : ℕ
  pub value : ℕ

-- `struct hiw_thread`. `func` tells which function the thread runs, and `handle` is 0 before a
-- thread is made. `main` is the flag bit `hiw_thread_flags_main`.
pub record Thread : Type 0 where
  pub main : Bool
  pub userdata : Option ℕ
  pub func : Option ℕ
  pub context : List Context
  pub handle : ℕ
  pub started : Bool

-- `none` is NULL.
unfoldable pub thread_new : Option ℕ → ℕ → Option Thread
thread_new none handle = none
thread_new (some fn) handle = some (record {
  main = false;
  userdata = none;
  func = some fn;
  context = [];
  handle = handle;
  started = false;
})

unfoldable pub thread_main : Thread
thread_main = record {
  main = true;
  userdata = none;
  func = none;
  context = [];
  handle = 0;
  started = false;
}

-- What a call does to other threads and to memory.
pub data Effect : Type 0 where
  joined : ℕ → Effect
  freed : Effect
  freed_server : Effect
  freed_servlet : Effect

unfoldable pub thread_wait : Thread → Thread × List Effect
thread_wait t =
    if t.main
    then (t, [])
    else (record t { started = false }, (if t.started then joined t.handle ∷ [] else []))

unfoldable pub set_func : Thread → Option ℕ → Thread
set_func t fn = if t.handle == 0 then record t { func = fn } else t

unfoldable pub set_userdata : Thread → Option ℕ → Thread
set_userdata t userdata = record t { userdata = userdata }

pub get_userdata : Thread → Option ℕ
get_userdata t = t.userdata

-- The context that was innermost before, and the thread.
unfoldable pub context_push : Thread → Context → Option Context × Thread
context_push t value = (first t.context, record t { context = value ∷ t.context })
  where
    first : List Context → Option Context
    first [] = none
    first (c ∷ cs) = some c

unfoldable pub context_pop : Thread → Option Context × Thread
context_pop t = pop t.context
  where
    pop : List Context → Option Context × Thread
    pop [] = (none, t)
    pop (c ∷ parents) = (some c, record t { context = parents })

pub context_clear : Thread → Thread
context_clear t = record t { context = [] }

-- `hiw_thread_context_find_traverse`, and the NULL that it is not called with.
pub find_traverse : List Context → ℕ → Option ℕ
find_traverse [] key = none
find_traverse (c ∷ parents) key =
    let outer = find_traverse parents key in if c.key == key then some c.value else outer

-- A key is not NULL.
pub context_find : Thread → ℕ → Option ℕ
unfolding find_traverse
context_find t key = find_traverse t.context key

-- How a thread's function is run.
pub data Run : Type 0 where
  -- on the caller's thread, to its end
  called : Option ℕ → Run
  -- on the new thread of that handle
  spawned : ℕ → Run

-- `created` is the handle that `pthread_create` fills in; `none` is a failure.
unfoldable pub thread_start : Thread → Option ℕ → Bool × Thread × List Run
thread_start t created =
    if t.started
    then (true, t, [])
    else if t.main
    then (true, record t { started = true }, called t.func ∷ [])
    else elim created [
      | none ↦ (false, record t { started = false }, [])
      | some handle ↦ (true, record t { started = true; handle = handle }, spawned handle ∷ [])
    ]

unfoldable pub thread_delete : Thread → List Effect
unfolding thread_wait
thread_delete t = if t.main then [] else append (thread_wait t).1
  where
    append : List Effect → List Effect
    append [] = freed ∷ []
    append (e ∷ es) = e ∷ append es

-- The threads of a start, as they are.
abbrev pub unstarted : List (Thread × Option ℕ) → List Thread
unstarted [] = []
unstarted ((t, created) ∷ threads) = t ∷ unstarted threads

-- `hiw_servlet_start_threads` of servlet/src/hiw_servlet.c over the servlet's threads, each with
-- what `pthread_create` answers for it: whether all start, and the threads after it.
unfoldable pub start_threads : List (Thread × Option ℕ) → Bool × List Thread
unfolding thread_start
start_threads [] = (true, [])
start_threads ((t, created) ∷ threads) =
    let (started, t', runs) = thread_start t created in
    let rest = start_threads threads in
    if started then (rest.0, t' ∷ rest.1) else (false, t' ∷ unstarted threads)
