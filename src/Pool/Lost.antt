-- ===== src/Pool/Lost.antt =====
-- `hiw_thread_pool_push` on one worker, again and again.
use highway.Prelude.{
  ℕ, ◌<◌, ◌≡◌, ◌≢◌, refl, sym, ap, ◌∙◌, List, [], ◌∷◌, All, Option, some, Outcome, ret, ◌>>=◌,
  >>=-ret, ◌==◌, ==-self, ==-ne, ==_iff, if_true, if_false,
}
use highway.Pool.{Work, Worker, null, worker_new, put, work_new, push_work, run_all}
use highway.Pool.Queue.{Item, call, Linked, Distinct, at_found, run_all-Linked}

-- The calls of push for these works, each with the pointer that `hiw_malloc` gives it.
abbrev pub push_all : Worker → List Item → Outcome Worker
push_all w [] = ret w
push_all w (i ∷ items) = do w' ← push_work w i.pointer i.func i.arg; push_all w' items

abbrev pub last_of : Item → List Item → Item
last_of i [] = i
last_of i (j ∷ items) = last_of j items

-- The item at the head of the queue, with what it is linked to, is the last one too.
record Heads (w : Worker) (i : Item) (next : ℕ) : Type 0 where
  first : w.work_next ≡ i.pointer
  last : w.work_last ≡ i.pointer
  nothing_free : w.work_free ≡ null
  found : w.store i.pointer ≡ some (record { func = i.func; arg = i.arg; next = next })

abbrev IsLast : Worker → Item → Type 0
IsLast w i = w.store i.pointer ≡ some (record { func = i.func; arg = i.arg; next = null })

put_self : (w : Worker) (p : ℕ) (work : Work) → (put w p work).store p ≡ some work
unfolding put
put_self w p work = if_true (p == p) _ _ (==-self p)

put_other : (w : Worker) (p q : ℕ) (work : Work) → q ≢ p → (put w p work).store q ≡ w.store q
unfolding put
put_other w p q work ne = if_false (p == q) _ _ (==-ne p q (λ e. ne (sym e)))

-- A push on a queue whose head is its last item links the new one behind the head.
push_work-Heads :
    (w : Worker) (i j : Item) (next : ℕ)
    → i.pointer ≢ null
    → j.pointer ≢ i.pointer
    → Heads w i next
    → (w' : Worker) × (push_work w j.pointer j.func j.arg ≡ ret w')
      × Heads w' i j.pointer
      × IsLast w' j
unfolding push_work work_new
push_work-Heads w i j next ne other h =
    let w1 = put w j.pointer (record { func = j.func; arg = j.arg; next = null }) in
    let head : Work = record { func = i.func; arg = i.arg; next = next } in
    let linked : Work = record { func = i.func; arg = i.arg; next = j.pointer } in
    let ne' : w.work_last ≢ null = λ e. ne (sym h.last ∙ e) in
    let other' : j.pointer ≢ w.work_last = λ e. other (e ∙ h.last) in
    let found : w1.store w.work_last ≡ some head =
      put_other w j.pointer w.work_last _ (λ e. other' (sym e)) ∙ ap w.store h.last ∙ h.found in
    let w' = put w1 w.work_last linked in
    (
      w',
      >>=-ret _ _ (j.pointer, w1)
            (if_true (w.work_free == null) _ _ ((==_iff w.work_free null).1 h.nothing_free))
          ∙ if_false (w.work_last == null) _ _ (==-ne w.work_last null ne')
          ∙ >>=-ret _ _ head (at_found w1 w.work_last head ne' found),
      record {
        first = h.first;
        last = h.last;
        nothing_free = h.nothing_free;
        found = ap w'.store (sym h.last) ∙ put_self w1 w.work_last linked;
      },
      put_other w1 w.work_last j.pointer linked other' ∙ put_self w j.pointer _,
    )

push_work-first :
    (store : ℕ → Option Work) (i : Item)
    → (w' : Worker) × (push_work (worker_new store) i.pointer i.func i.arg ≡ ret w')
      × Heads w' i null
unfolding push_work work_new worker_new
push_work-first store i = (
  record (put (worker_new store) i.pointer (record { func = i.func; arg = i.arg; next = null })) {
    work_next = i.pointer;
    work_last = i.pointer;
  },
  refl,
  record {
    first = refl;
    last = refl;
    nothing_free = refl;
    found =
        put_self (worker_new store) i.pointer (record { func = i.func; arg = i.arg; next = null });
  },
)

-- However many items are pushed behind a head, the head is linked to the last of them.
push_all-Heads :
    (w : Worker) (i j : Item) (items : List Item)
    → i.pointer ≢ null
    → All (λ k. k.pointer ≢ i.pointer) items
    → Heads w i j.pointer
    → IsLast w j
    → (w' : Worker) × (push_all w items ≡ ret w')
      × Heads w' i (last_of j items).pointer
      × IsLast w' (last_of j items)
push_all-Heads w i j [] ne others h l = (w, refl, h, l)
push_all-Heads w i j (k ∷ items) ne others h l =
    let (w1, pushed, h1, l1) = push_work-Heads w i k j.pointer ne others.0 h in
    let (w2, later, h2, l2) = push_all-Heads w1 i k items ne others.1 h1 l1 in
    (w2, >>=-ret _ _ _ pushed ∙ later, h2, l2)

last_of-All :
    (P : Item → Type 0) (j : Item) (items : List Item) → P j → All P items → P (last_of j items)
last_of-All P j [] h hs = h
last_of-All P j (k ∷ items) h hs = last_of-All P k items hs.0 hs.1

-- Of two works or more that are pushed on a new worker before its thread takes one, it runs the
-- first and the last, and no other, if `hiw_malloc` gives each item a pointer that is not NULL and
-- not that of the first.
pub push_all-run_all :
    (store : ℕ → Option Work) (i j : Item) (items : List Item) (rounds : ℕ)
    → i.pointer ≢ null
    → All (λ k. k.pointer ≢ null) (j ∷ items)
    → All (λ k. k.pointer ≢ i.pointer) (j ∷ items)
    → 2 < rounds
    → (w : Worker) × (push_all (worker_new store) (i ∷ j ∷ items) ≡ ret w)
      × (w' : Worker) × (run_all rounds w ≡ ret (call i ∷ call (last_of j items) ∷ [], w'))
push_all-run_all store i j items rounds ne nes others enough =
    let (w1, pushed, h1) = push_work-first store i in
    let (w2, later, h2, l2) = push_work-Heads w1 i j null ne others.0 h1 in
    let (w3, last, h, l) = push_all-Heads w2 i j items ne others.1 h2 l2 in
    let k = last_of j items in
    let linked : Linked w3.store w3.work_next (i ∷ k ∷ []) = (
      h.first,
      ne,
      (
        k.pointer,
        h.found,
        (refl, last_of-All (λ q. q.pointer ≢ null) j items nes.0 nes.1, (null, l, refl)),
      ),
    ) in
    let distinct : Distinct (i ∷ k ∷ []) =
      ((last_of-All (λ q. q.pointer ≢ i.pointer) j items others.0 others.1, tt), (tt, tt)) in
    let (w4, ran, waits) = run_all-Linked w3 (i ∷ k ∷ []) rounds linked distinct enough in
    (w3, >>=-ret _ _ _ pushed ∙ >>=-ret _ _ _ later ∙ last, w4, ran)
