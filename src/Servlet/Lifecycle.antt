-- ===== src/Servlet/Lifecycle.antt =====
-- A servlet from its creation to its deletion in servlet/src/hiw_servlet.c.
pub mod Joins
use highway.Prelude.{
  ℕ, zero, suc, Bool, true, false, List, [], ◌∷◌, ◌++◌, map, Option, none, some, Outcome, ret,
  fault, ◌>>=◌, access, if◌then◌else◌,
}
use highway.Prelude.Int.{ℤ, pos, pos_part}
use highway.Thread.{
  Thread, Effect, freed_server, freed_servlet, Run, thread_new, thread_main, set_userdata, set_func,
  thread_start, thread_delete, start_threads,
}
use highway.Server.{Server, server_stop, server_delete}

-- `hiw_servlet_start_fn`: the default, or the function with a number.
pub data StartFunc : Type 0 where
  start_func_default : StartFunc
  start_func_given : ℕ → StartFunc

-- `struct hiw_servlet_thread`, without its servlet. An array of filters is a number, and `none` is
-- NULL.
pub record ServletThread : Type 0 where
  pub thread : Thread
  pub filters : Option ℕ

-- `struct hiw_servlet`: the threads are the list along `next`. The server is shared, and stands
-- beside the servlet.
pub record HiwServlet : Type 0 where
  pub filters : Option ℕ
  pub servlet_func : Option ℕ
  pub num_accept_threads : ℤ
  pub start_func : StartFunc
  pub threads : List ServletThread
  pub server_owner : Bool

-- `hiw_servlet_error`, as far as a start answers it
pub data ServletError : Type 0 where
  success error_threads : ServletError

-- `hiw_servlet_new`, where `servlet_func` is what the memory happens to hold.
unfoldable pub servlet_new : ℤ → Option ℕ → HiwServlet
servlet_new default_threads uninitialised = record {
  filters = none;
  servlet_func = uninitialised;
  num_accept_threads = default_threads;
  start_func = start_func_default;
  threads = [];
  server_owner = true;
}

pub set_filter_chain : HiwServlet → Option ℕ → HiwServlet
set_filter_chain s filters = record s { filters = filters }

unfoldable pub set_servlet_func : HiwServlet → Option ℕ → HiwServlet
set_servlet_func s func = record s { servlet_func = func }

unfoldable pub set_starter_func : HiwServlet → Option ℕ → HiwServlet
set_starter_func s none = record s { start_func = start_func_default }
set_starter_func s (some func) = record s { start_func = start_func_given func }

-- `hiw_servlet_func`
abbrev pub servlet_thread_func : ℕ
servlet_thread_func = 2

-- `hiw_servlet_thread_new`; `place` stands for its pointer, and `handle` is what its thread holds.
unfoldable pub servlet_thread_new : HiwServlet → ℕ → ℕ → Outcome ServletThread
unfolding thread_new set_userdata
servlet_thread_new s place handle = do
  thread ← access (thread_new (some servlet_thread_func) handle)
  ret (record { thread = set_userdata thread (some place); filters = s.filters })

-- `if (s->threads == NULL) s->threads = last = st; else last->next = st;`
abbrev link : List ServletThread → Bool → ServletThread → Outcome (List ServletThread)
link [] linked st = ret (st ∷ [])
link (first ∷ threads) true st = ret (first ∷ threads ++ st ∷ [])
link (first ∷ threads) false st = fault

-- The rounds of the loop of `hiw_servlet_start` from the `i`th on. `linked` tells that `last` is
-- not NULL.
pub add_threads : (ℕ → ℕ) → ℕ → ℕ → Bool → HiwServlet → Outcome HiwServlet
unfolding servlet_thread_new
add_threads handle i zero linked s = ret s
add_threads handle i (suc n) linked s = do
  st ← servlet_thread_new s i (handle i)
  threads ← link s.threads linked st
  add_threads handle (suc i) n true (record s { threads = threads })

-- Each thread with what `pthread_create` answers for it.
abbrev pub answered : (ℕ → Option ℕ) → ℕ → List ServletThread → List (Thread × Option ℕ)
answered created i [] = []
answered created i (st ∷ threads) = (st.thread, created i) ∷ answered created (suc i) threads

-- The threads after the start, in the same order.
abbrev pub with_threads : List ServletThread → List Thread → List ServletThread
with_threads [] ts = []
with_threads (st ∷ threads) [] = st ∷ threads
with_threads (st ∷ threads) (t ∷ ts) = record st { thread = t } ∷ with_threads threads ts

-- The servlet function on the calling thread, which returns once the server stops.
unfoldable pub start_main : List Run
unfolding thread_main set_userdata set_func thread_start
start_main =
    (thread_start (set_func (set_userdata thread_main (some 0)) (some servlet_thread_func)) none).2

-- From the threads on.
pub start_all : (ℕ → Option ℕ) → HiwServlet → ServletError × HiwServlet × List Run
unfolding start_threads start_main
start_all created s =
    let (all, ts) = start_threads (answered created 0 s.threads) in
    let started = record s { threads = with_threads s.threads ts } in
    if all then (success, started, start_main) else (error_threads, started, [])

-- `config` is `none` for NULL.
unfoldable pub servlet_start :
    (ℕ → ℕ)
    → (ℕ → Option ℕ)
    → HiwServlet
    → Option ℤ
    → Outcome (ServletError × HiwServlet × List Run)
unfolding add_threads start_all
servlet_start handle created s config = do
  let configured : HiwServlet = elim config [
    | none ↦ s
    | some num_accept_threads ↦ record s { num_accept_threads = num_accept_threads }
  ]
  spawned ← add_threads handle 0 (pos_part configured.num_accept_threads) false configured
  ret (start_all created spawned)

-- `hiw_servlet_thread_delete` of each, which `hiw_servlet_release` goes through.
pub delete_threads : List ServletThread → List Effect
unfolding thread_delete
delete_threads [] = []
delete_threads (st ∷ threads) = thread_delete st.thread ++ (Effect.freed ∷ delete_threads threads)

-- `hiw_servlet_release` and `hiw_servlet_delete`: the sockets that are shut down, and what is done
-- with threads and memory.
unfoldable pub servlet_delete : HiwServlet → Server → List ℤ × List Effect
unfolding delete_threads
servlet_delete s server =
    let (stopped, shut) = server_stop server in
    (
      (if s.server_owner then shut ++ server_delete stopped else shut),
      delete_threads s.threads
          ++ (if s.server_owner then freed_server ∷ freed_servlet ∷ [] else freed_servlet ∷ []),
    )
