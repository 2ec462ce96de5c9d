-- ===== src/Pool/Queue.antt =====
-- A worker's queue as a list.
use highway.Prelude.{
  ℕ, zero, suc, ◌<◌, ◌≡◌, ◌≢◌, refl, sym, ap, ◌∙◌, inl, inr, List, [], ◌∷◌, length, All, map,
  Option, some, Outcome, ret, >>=-ret, access, arith, ◌==◌, ==-ne, ==_iff, if_true, if_false,
  Bool-cases,
}
use mathlib.Core.Path.{subst}
use highway.Pool.{Work, Worker, null, at, put, pop_work, work_done, run_all}

-- A work item at a pointer.
pub record Item : Type 0 where
  pub pointer : ℕ
  pub func : ℕ
  pub arg : ℕ

-- What is run of an item.
abbrev pub call : Item → ℕ × ℕ
call i = (i.func, i.arg)

-- The store links these items from a pointer on, one behind the other.
abbrev pub Linked : (ℕ → Option Work) → ℕ → List Item → Type 0
Linked store p [] = p ≡ null
Linked store p (i ∷ items) =
    (p ≡ i.pointer)
    × (i.pointer ≢ null)
    × ((next : ℕ) × (store i.pointer ≡ some (record { func = i.func; arg = i.arg; next = next }))
        × Linked store next items)

-- No two items stand at the same pointer.
abbrev pub Distinct : List Item → Type 0
Distinct [] = Unit
Distinct (i ∷ items) = All (λ j. j.pointer ≢ i.pointer) items × Distinct items

-- A store that differs at one pointer at most.
abbrev KeepsBut : ℕ → (ℕ → Option Work) → (ℕ → Option Work) → Type 0
KeepsBut p store store' = (q : ℕ) → q ≢ p → store' q ≡ store q

Linked-KeepsBut :
    (p : ℕ) (store store' : ℕ → Option Work) (from : ℕ) (items : List Item)
    → KeepsBut p store store'
    → All (λ j. j.pointer ≢ p) items
    → Linked store from items
    → Linked store' from items
Linked-KeepsBut p store store' from [] keeps others linked = linked
Linked-KeepsBut p store store' from (i ∷ items) keeps others (here, ne, (next, found, rest)) = (
  here,
  ne,
  (
    next,
    keeps i.pointer others.0 ∙ found,
    Linked-KeepsBut p store store' next items keeps others.1 rest,
  ),
)

-- What is read at a pointer that is not NULL.
pub at_found :
    (w : Worker) (p : ℕ) (work : Work) → p ≢ null → w.store p ≡ some work → at w p ≡ ret work
unfolding at
at_found w p work ne found = if_false (p == null) _ _ (==-ne p null ne) ∙ ap access found

-- The first item is taken off the queue.
pop_work-next :
    (w : Worker) (work : Work)
    → w.work_next ≢ null
    → w.store w.work_next ≡ some work
    → (w' : Worker) × (pop_work w ≡ ret (w.work_next, w'))
      × (w'.work_next ≡ work.next)
      × (w'.store ≡ w.store)
unfolding pop_work
pop_work-next w work ne found =
    let read =
      if_false (w.work_next == null) _ _ (==-ne w.work_next null ne)
      ∙ >>=-ret _ _ work (at_found w w.work_next work ne found) in
    elim (Bool-cases (work.next == null)) [
      | inl t ↦ (
        record w { work_next = null; work_last = null },
        read ∙ ap ret (if_true (work.next == null) _ _ t),
        sym ((==_iff work.next null).0 t),
        refl,
      )
      | inr f ↦ (
        record w { work_next = work.next },
        read ∙ ap ret (if_false (work.next == null) _ _ f),
        refl,
        refl,
      )
    ]

freed : ℕ → Worker → Outcome Worker
freed p w = ret (record w { work_free = p })

-- An item that is done goes to the free list and leaves the queue as it is.
work_done-KeepsBut :
    (w : Worker) (p : ℕ) (work : Work)
    → p ≢ null
    → w.store p ≡ some work
    → (w' : Worker) × (work_done w p ≡ ret w')
      × (w'.work_next ≡ w.work_next)
      × KeepsBut p w.store w'.store
unfolding work_done put freed
work_done-KeepsBut w p work ne found = elim (Bool-cases (w.work_free == null)) [
  | inl t ↦ (
    record w { work_free = p },
    >>=-ret _ _ work (at_found w p work ne found)
        ∙ ap (freed p) (if_true (w.work_free == null) _ _ t),
    refl,
    λ q other. refl,
  )
  | inr f ↦ (
    record (put w p (record work { next = w.work_free })) { work_free = p },
    >>=-ret _ _ work (at_found w p work ne found)
        ∙ ap (freed p) (if_false (w.work_free == null) _ _ f),
    refl,
    λ q other. if_false (p == q) _ _ (==-ne p q (λ e. other (sym e))),
  )
]

pop_work_empty : (w : Worker) → w.work_next ≡ null → pop_work w ≡ ret (null, w)
unfolding pop_work
pop_work_empty w e = if_true (w.work_next == null) _ _ ((==_iff w.work_next null).1 e)

-- A worker whose queue is these items, one behind the other and each at a pointer of its own, runs
-- all of them, in that order, and then waits, in one round more than there are items.
pub run_all-Linked :
    (w : Worker) (items : List Item) (rounds : ℕ)
    → Linked w.store w.work_next items
    → Distinct items
    → length items < rounds
    → (w' : Worker) × (run_all rounds w ≡ ret (map call items, w')) × (w'.work_next ≡ null)
unfolding run_all
run_all-Linked w items zero linked distinct enough = absurd (omega arith)
run_all-Linked w [] (suc rounds) linked distinct enough =
    (w, >>=-ret _ _ _ (pop_work_empty w linked), linked)
run_all-Linked w (i ∷ items) (suc rounds) (here, ne, (next, found, rest)) distinct enough =
    let work : Work = record { func = i.func; arg = i.arg; next = next } in
    let ne' : w.work_next ≢ null = λ e. ne (sym here ∙ e) in
    let found' : w.store w.work_next ≡ some work = ap w.store here ∙ found in
    let (w1, popped, goes_on, same) = pop_work-next w work ne' found' in
    let found1 : w1.store w.work_next ≡ some work = ap (λ store. store w.work_next) same ∙ found' in
    let (w2, done, goes_on2, keeps) = work_done-KeepsBut w1 w.work_next work ne' found1 in
    let linked2 : Linked w2.store w2.work_next items =
      subst (λ p. Linked w2.store p items) (sym (goes_on2 ∙ goes_on))
        (Linked-KeepsBut w.work_next w.store w2.store next items
          (λ q other. keeps q other ∙ ap (λ store. store q) same)
          (subst (λ p. All (λ j. j.pointer ≢ p) items) (sym here) distinct.0) rest) in
    let (w3, ran, waits) = run_all-Linked w2 items rounds linked2 distinct.1 (omega arith) in
    (
      w3,
      >>=-ret _ _ _ popped
          ∙ if_false (w.work_next == null) _ _ (==-ne w.work_next null ne')
          ∙ >>=-ret _ _ _ (at_found w1 w.work_next work ne' found1)
          ∙ >>=-ret _ _ _ done
          ∙ >>=-ret _ _ _ ran,
      waits,
    )
