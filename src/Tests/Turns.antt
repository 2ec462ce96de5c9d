-- ===== src/Tests/Turns.antt =====
-- A worker's thread between pushes, its waits, and a deletion.
use highway.Prelude.{
  ℕ, suc, true, false, All, ◌≡◌, ◌≢◌, refl, [], ◌∷◌, some, none, arith, Outcome, ret, fault, ◌>>=◌,
  ◌==◌, if◌then◌else◌,
}
use highway.Thread.{Thread}
use highway.Pool.{worker_new, push_work}
use highway.Pool.Queue.{Item}
use highway.Pool.Ring.{Member, Pool, worker_delete}
use highway.Pool.Turns.{
  Shared, left, ran, main_start, advance, advances, push, stop, races, pushes, goes_on, stops,
  Reach, here, later,
}
use highway.Pool.Sound.{Among}
use highway.Pool.Turns.Safe.{Reach-goes_on}
use highway.Pool.Turns.Calm.Idle.{Idle}
use highway.Pool.Turns.Calm.Served.{one_by_one, one_by_one-called}
use highway.Pool.Turns.Calm.Freed.{one_by_one-worker_delete}

abbrev fresh_worker : Shared
fresh_worker = main_start (λ p. none) (some 7)

abbrev pushed_state : Outcome Shared → Shared
pushed_state (ret s) = s
pushed_state _ = fresh_worker

abbrev once_pushed : Shared
once_pushed = pushed_state (push fresh_worker 11 1 100)

-- A push, a turn of the thread, and a stop.
abbrev stopped_state : Shared
stopped_state = stop (pushed_state (advance once_pushed.turn once_pushed))

reached : Reach fresh_worker stopped_state
unfolding push push_work main_start worker_new advance stop races
reached =
    later (later (later here (pushes 11 1 100 (λ e. omega arith) refl refl refl)) (goes_on refl))
      stops

Reach-goes_on_example :
    ((t : Shared) × (advance stopped_state.turn stopped_state ≡ ret t))
    × ((t : Shared) × (push stopped_state 12 2 200 ≡ ret t))
    × All (λ c. Among c stopped_state.pushed) stopped_state.called
    × (stopped_state.turn ≡ left → stopped_state.running ≡ false)
Reach-goes_on_example = Reach-goes_on 7 stopped_state 12 2 200 reached (λ e. omega arith)

abbrev item : ℕ → ℕ → ℕ → Item
item pointer func arg = record { pointer = pointer; func = func; arg = arg }

one_by_one-called_example :
    (t : Shared) × (one_by_one ((item 11 1 100, 0) ∷ (item 12 2 200, 3) ∷ []) fresh_worker ≡ ret t)
    × (t.called ≡ (1, 100) ∷ (2, 200) ∷ [])
    × Idle t
one_by_one-called_example =
    one_by_one-called 7 ((item 11 1 100, 0) ∷ (item 12 2 200, 3) ∷ []) (ground arith)

one_by_one-worker_delete_example :
    (t : Shared) × (one_by_one ((item 11 1 100, 0) ∷ (item 12 2 200, 3) ∷ []) fresh_worker ≡ ret t)
    × ((rounds : ℕ) (pool : Pool) (p : ℕ) (m : Member)
        → p ≢ 0
        → pool.members p ≡ some m
        → m.work ≡ t.work
        → worker_delete (suc (suc rounds)) pool p ≡ fault)
one_by_one-worker_delete_example =
    one_by_one-worker_delete 7 (item 11 1 100, 0) (item 12 2 200, 3) [] (ground arith)

-- A work that is done, and another one whose item is that of the first, up to its call.
abbrev second_call : Outcome Shared
second_call = do
  s1 ← push fresh_worker 11 1 100
  s2 ← advances 4 s1
  s3 ← push s2 12 2 200
  advances 3 s3

second_call_turn :
    ((pushed_state second_call).turn ≡ ran 11)
    × ((pushed_state second_call).work.work_free ≡ 11)
    × ((pushed_state second_call).work.work_last ≡ 0)
    × ((pushed_state second_call).called ≡ (1, 100) ∷ (2, 200) ∷ [])
unfolding push push_work main_start worker_new advances
second_call_turn = (refl, refl, refl, refl)

-- The same state, written out.
abbrev busy : Shared
busy = record {
  work = record {
    work_next = 0;
    work_last = 0;
    work_free = 11;
    store = λ p. if p == 11 then some (record { func = 2; arg = 200; next = 0 }) else none;
  };
  running = true;
  turn = ran 11;
  pushed = (1, 100) ∷ (2, 200) ∷ [];
  called = (1, 100) ∷ (2, 200) ∷ [];
}

abbrev pool_thread : Thread
pool_thread = record {
  main = false;
  userdata = some 7;
  func = none;
  context = [];
  handle = 1;
  started = true;
}
