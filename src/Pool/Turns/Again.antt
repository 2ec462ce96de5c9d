-- ===== src/Pool/Turns/Again.antt =====
-- A push while the thread of a worker calls the function of an item that was used before.
use highway.Prelude.{
  ℕ, zero, suc, Bool, ◌≢◌, List, [], ◌∷◌, ◌++◌, Option, some, ◌==◌, if◌then◌else◌,
}
use highway.Pool.{Work, null}
use highway.Pool.Turns.{Turn, top, Shared}

-- The same call again and again.
abbrev pub times : ℕ → ℕ × ℕ → List (ℕ × ℕ)
times zero c = []
times (suc n) c = c ∷ times n c

-- A worker whose only item is linked to itself, and free.
abbrev looped : ℕ → ℕ → (ℕ → Option Work) → Bool → List (ℕ × ℕ) → List (ℕ × ℕ) → Shared
looped p last store running pushed called = record {
  work = record { work_next = p; work_last = last; work_free = p; store = store };
  running = running;
  turn = top;
  pushed = pushed;
  called = called;
}

abbrev kept : ℕ → Work → (ℕ → Option Work) → ℕ → Option Work
kept p item store q = if p == q then some item else store q

-- The same with the thread elsewhere.
abbrev turned : Turn → Shared → Shared
turned turn s = record s { turn = turn }

module _ (p last func arg : ℕ) (running : Bool) (pushed : List (ℕ × ℕ)) (ne : p ≢ null) where
  abbrev relinked : Work
  relinked = record { func = func; arg = arg; next = p }

-- The worker once a push took the item that is free and used before.
abbrev reused : Shared → ℕ → ℕ → Shared
reused s func arg =
    let p = s.work.work_free in
    record s {
      work = record {
        work_next = p;
        work_last = p;
        work_free = p;
        store = kept p (record { func = func; arg = arg; next = null }) s.work.store;
      };
      pushed = s.pushed ++ (func, arg) ∷ [];
    }
