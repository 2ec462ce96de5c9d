-- ===== src/Servlet/Lifecycle/Joins.antt =====
-- The threads of a servlet that is started and deleted.
use highway.Prelude.{
  ℕ, zero, suc, ◌≡◌, refl, sym, ap, ◌∙◌, Bool, true, false, List, [], ◌∷◌, ◌++◌, append_assoc,
  append-nil, Option, none, some, ret, >>=-ret, if_true, if◌then◌else◌,
}
use highway.Prelude.Int.{ℤ, pos_part}
use highway.Thread.{
  Thread, Effect, joined, freed, freed_server, freed_servlet, Run, thread_new, set_userdata,
  thread_start, thread_wait, thread_delete, start_threads, unstarted,
}
use highway.Server.{Server}
use highway.Servlet.Lifecycle.{
  ServletThread, HiwServlet, ServletError, error_threads, start_main, servlet_thread_func,
  servlet_thread_new, add_threads, answered, with_threads, start_all, servlet_start, delete_threads,
  servlet_delete,
}

-- What a deletion does with `n` threads from the `i`th on that were not made, and with those that
-- were to be made: `created` tells the handles, up to the first that failed.
abbrev pub unmade : ℕ → List Effect
unmade zero = []
unmade (suc n) = freed ∷ freed ∷ unmade n

abbrev pub at_answer : Option ℕ → List Effect → List Effect → List Effect
at_answer none made failed = freed ∷ freed ∷ failed
at_answer (some handle) made failed = joined handle ∷ freed ∷ freed ∷ made

abbrev pub deletions : (ℕ → Option ℕ) → ℕ → ℕ → List Effect
deletions created i zero = []
deletions created i (suc n) = at_answer (created i) (deletions created (suc i) n) (unmade n)

-- The threads that the loop of a start makes.
abbrev new_thread : ℕ → ℕ → Thread
new_thread place handle = record {
  main = false;
  userdata = some place;
  func = some servlet_thread_func;
  context = [];
  handle = handle;
  started = false;
}

abbrev new_threads : HiwServlet → (ℕ → ℕ) → ℕ → ℕ → List ServletThread
new_threads s handle i zero = []
new_threads s handle i (suc n) =
    record { thread = new_thread i (handle i); filters = s.filters }
    ∷ new_threads s handle (suc i) n

abbrev with_list : HiwServlet → List ServletThread → HiwServlet
with_list s threads = record s { threads = threads }

-- The loop puts them behind those that it made already.
add_threads-linked :
    (s : HiwServlet) (handle : ℕ → ℕ) (i n : ℕ) (first : ServletThread)
    (threads : List ServletThread)
    → add_threads handle i n true (record s { threads = first ∷ threads })
      ≡ ret (record s { threads = first ∷ (threads ++ new_threads s handle i n) })
unfolding add_threads servlet_thread_new thread_new set_userdata
add_threads-linked s handle i zero first threads =
    ap (λ (ts : List ServletThread). ret (with_list s (first ∷ ts))) (sym (append-nil threads))
add_threads-linked s handle i (suc n) first threads =
    let st : ServletThread = record { thread = new_thread i (handle i); filters = s.filters } in
    add_threads-linked s handle (suc i) n first (threads ++ st ∷ [])
    ∙ ap (λ (ts : List ServletThread). ret (with_list s (first ∷ ts)))
        (append_assoc threads (st ∷ []) (new_threads s handle (suc i) n))

add_threads-all :
    (s : HiwServlet) (handle : ℕ → ℕ) (n : ℕ)
    → add_threads handle 0 n false (record s { threads = [] })
      ≡ ret (record s { threads = new_threads s handle 0 n })
unfolding add_threads servlet_thread_new thread_new set_userdata
add_threads-all s handle zero = refl
add_threads-all s handle (suc n) =
    add_threads-linked s handle 1 n
      (record { thread = new_thread 0 (handle 0); filters = s.filters }) []

-- Threads that are deleted before they are made.
delete_unmade :
    (s : HiwServlet) (handle : ℕ → ℕ) (created : ℕ → Option ℕ) (i n : ℕ)
    → delete_threads (
        with_threads
          (new_threads s handle i n)
          (unstarted (answered created i (new_threads s handle i n))))
      ≡ unmade n
unfolding delete_threads thread_delete thread_wait
delete_unmade s handle created i zero = refl
delete_unmade s handle created i (suc n) =
    ap (λ es. freed ∷ freed ∷ es) (delete_unmade s handle created (suc i) n)

delete_first :
    (place handle : ℕ) (filters o : Option ℕ) (rest : List ServletThread)
    (answers : List (Thread × Option ℕ))
    → delete_threads (
        with_threads
          (record { thread = new_thread place handle; filters = filters } ∷ rest)
          (start_threads ((new_thread place handle, o) ∷ answers)).1)
      ≡ at_answer o
          (delete_threads (with_threads rest (start_threads answers).1))
          (delete_threads (with_threads rest (unstarted answers)))
unfolding delete_threads thread_delete thread_wait start_threads thread_start
delete_first place handle filters none rest answers = refl
delete_first place handle filters (some made) rest answers = refl

delete_started :
    (s : HiwServlet) (handle : ℕ → ℕ) (created : ℕ → Option ℕ) (i n : ℕ)
    → delete_threads (
        with_threads
          (new_threads s handle i n)
          (start_threads (answered created i (new_threads s handle i n))).1)
      ≡ deletions created i n
unfolding delete_threads start_threads
delete_started s handle created i zero = refl
delete_started s handle created i (suc n) =
    delete_first i (handle i) s.filters (created i) (new_threads s handle (suc i) n)
      (answered created (suc i) (new_threads s handle (suc i) n))
    ∙ ap
        (λ es.
          at_answer (created i) es
            (delete_threads (with_threads later (unstarted (answered created (suc i) later)))))
        (delete_started s handle created (suc i) n)
    ∙ ap (λ es. at_answer (created i) (deletions created (suc i) n) es)
        (delete_unmade s handle created (suc i) n)
  where
    later : List ServletThread
    later = new_threads s handle (suc i) n

abbrev second : ServletError × HiwServlet × List Run → HiwServlet
second r = r.1

if_second :
    (b : Bool) (x y : ServletError) (s : HiwServlet) (xs ys : List Run)
    → second (if b then (x, s, xs) else (y, s, ys)) ≡ s
if_second true x y s xs ys = refl
if_second false x y s xs ys = refl

-- A start of a servlet that has no threads comes to an end.
pub servlet_start-total :
    (s : HiwServlet) (handle : ℕ → ℕ) (created : ℕ → Option ℕ) (count : ℤ)
    → s.threads ≡ []
    → (err : ServletError) × (started : HiwServlet) × (runs : List Run) × (servlet_start handle
          created s
          (some count)
        ≡ ret (err, started, runs))
      × (delete_threads started.threads ≡ deletions created 0 (pos_part count))
      × (started.server_owner ≡ s.server_owner)
unfolding servlet_start start_all
servlet_start-total s handle created count none_yet =
    let n = pos_part count in
    let configured : HiwServlet = record s { num_accept_threads = count } in
    let spawned = with_list configured (new_threads configured handle 0 n) in
    let answers = answered created 0 spawned.threads in
    let result = start_all created spawned in
    let started_is =
      if_second (start_threads answers).0 ServletError.success error_threads
        (with_list spawned (with_threads spawned.threads (start_threads answers).1)) start_main
        [] in
    (
      result.0,
      result.1,
      result.2,
      >>=-ret _ _ spawned (
          ap (λ ts. add_threads handle 0 n false (with_list configured ts)) none_yet
          ∙ add_threads-all configured handle n),
      ap (λ t. delete_threads t.threads) started_is ∙ delete_started configured handle created 0 n,
      ap (λ t. t.server_owner) started_is,
    )

-- A servlet that has no threads and owns its server, started and then deleted, joins each thread that
-- `pthread_create` made, up to the first that failed, and frees all its threads, the server and itself.
pub servlet_delete-deletions :
    (s : HiwServlet) (handle : ℕ → ℕ) (created : ℕ → Option ℕ) (count : ℤ) (server : Server)
    → s.threads ≡ []
    → s.server_owner ≡ true
    → (err : ServletError) × (started : HiwServlet) × (runs : List Run) × (servlet_start handle
          created s
          (some count)
        ≡ ret (err, started, runs))
      × ((servlet_delete started server).1
          ≡ deletions created 0 (pos_part count) ++ freed_server ∷ freed_servlet ∷ [])
unfolding servlet_delete
servlet_delete-deletions s handle created count server none_yet owner =
    let (err, started, runs, starts, deleted, same_owner) =
      servlet_start-total s handle created count none_yet in
    (
      err,
      started,
      runs,
      starts,
      ap
            (λ es.
              es
              ++ (if started.server_owner
                  then freed_server ∷ freed_servlet ∷ []
                  else freed_servlet ∷ []))
            deleted
          ∙ ap (λ es. deletions created 0 (pos_part count) ++ es)
              (if_true started.server_owner _ _ (same_owner ∙ owner)),
    )
