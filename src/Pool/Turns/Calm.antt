-- ===== src/Pool/Turns/Calm.antt =====
-- One work of a worker in its thread's turns.
pub mod Idle
pub mod Served
pub mod Freed
pub mod Raced
use highway.Prelude.{
  ℕ, zero, suc, ◌+◌, Bool, true, false, ◌&&◌, not, ◌≡◌, ◌≢◌, refl, sym, ap, ◌∙◌, ◌⊎◌, inl, inr,
  List, [], ◌∷◌, ◌++◌, append_assoc, append-nil, map, All, Option, some, none, Outcome, ret, ◌>>=◌,
  >>=-ret, access, arith, ◌==◌, ==-self, ==-ne, ==_iff, if_true, if_false, if◌then◌else◌,
  Bool-cases,
}
use highway.Pool.{Work, Worker, null, at, put, pop_work, work_done, work_new, push_work}
use highway.Pool.Queue.{Item, call}
use highway.Pool.Turns.{
  Turn, top, waiting, took, loaded, ran, left, Shared, take_work, look, load_data, call_func,
  finish_work, advance, advances, push,
}

-- What stays the same between two works.
pub record Held : Type 0 where
  pub running : Bool
  pub pushed : List (ℕ × ℕ)
  pub called : List (ℕ × ℕ)

-- A worker with one item in its queue or none.
abbrev pub holding : ℕ → ℕ → (ℕ → Option Work) → Turn → Held → Shared
holding p free store turn h = record {
  work = record { work_next = p; work_last = p; work_free = free; store = store };
  running = h.running;
  turn = turn;
  pushed = h.pushed;
  called = h.called;
}

and_false : (b : Bool) → (b && false) ≡ false
and_false true = refl
and_false false = refl

module _ (p free func arg : ℕ) (store : ℕ → Option Work) (h : Held) (ne : p ≢ null)
    (found : store p ≡ some (record { func = func; arg = arg; next = null })) where
  abbrev pub calls : Held
  calls = record h { called = h.called ++ (func, arg) ∷ [] }

  take_work-holding :
      (turn : Turn)
      → take_work (holding p free store turn h) ≡ ret (holding null free store (took p) h)
  unfolding take_work pop_work at
  take_work-holding turn =
      rw (==-ne p null ne, found)
        (ap (λ t. ret (holding null free store t h))
          (if_false (p == null) top (took p) (==-ne p null ne)))

  look-holding : look (holding p free store top h) ≡ ret (holding null free store (took p) h)
  unfolding look
  look-holding =
      if_false ((p == null) && h.running) _ _ (ap (λ b. b && h.running) (==-ne p null ne))
      ∙ if_false (not h.running && (p == null)) _ _
          (ap (λ b. not h.running && b) (==-ne p null ne) ∙ and_false (not h.running))
      ∙ take_work-holding top

  load_data-holding :
      load_data (holding null free store (took p) h) p
      ≡ ret (holding null free store (loaded p arg) h)
  unfolding load_data at
  load_data-holding = rw (==-ne p null ne, found) refl

  call_func-holding :
      call_func (holding null free store (loaded p arg) h) p arg
      ≡ ret (holding null free store (ran p) calls)
  unfolding call_func at
  call_func-holding = rw (==-ne p null ne, found) refl

  -- The item as it is left.
  abbrev pub spent : Work
  spent = record { func = func; arg = arg; next = if free == null then null else free }

  finish_work-holding :
      (store' : ℕ → Option Work) × (finish_work (holding null free store (ran p) calls) p
        ≡ ret (holding null p store' top calls))
      × (store' p ≡ some spent)
  unfolding finish_work work_done at put
  finish_work-holding = elim (Bool-cases (free == null)) [
    | inl t ↦ (store, rw (==-ne p null ne, found, t) refl, rw t found)
    | inr f ↦ (
      (λ q. if p == q then some (record { func = func; arg = arg; next = free }) else store q),
      rw (==-ne p null ne, found, f) refl,
      rw f (if_true (p == p) _ _ (==-self p)),
    )
  ]

  -- The work is taken up, whether the thread waits or not.
  pub advance-holding :
      (turn : Turn)
      → (turn ≡ top) ⊎ (turn ≡ waiting)
      → advance turn (holding p free store turn h) ≡ ret (holding null free store (took p) h)
  unfolding advance
  advance-holding turn (inl e) = ap (λ t. advance t (holding p free store turn h)) e ∙ look-holding
  advance-holding turn (inr e) =
      ap (λ t. advance t (holding p free store turn h)) e ∙ take_work-holding turn

  -- From the queue to the end of the call, whether the thread waits or not.
  pub advances-holding :
      (turn : Turn)
      → (turn ≡ top) ⊎ (turn ≡ waiting)
      → (store' : ℕ → Option Work) × (advances 4 (holding p free store turn h)
          ≡ ret (holding null p store' top calls))
        × (store' p ≡ some spent)
  unfolding advances advance
  advances-holding turn idle =
      let (store', finishes, there) = finish_work-holding in
      (
        store',
        >>=-ret _ _ _ (advance-holding turn idle)
            ∙ >>=-ret _ _ _ load_data-holding
            ∙ >>=-ret _ _ _ call_func-holding
            ∙ >>=-ret _ _ _ finishes,
        there,
      )
