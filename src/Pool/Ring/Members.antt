-- ===== src/Pool/Ring/Members.antt =====
-- The workers of a new pool, and of a pool that a work is pushed to.
use highway.Prelude.{
  ℕ, ◌≡◌, ◌≢◌, refl, sym, ap, ◌∙◌, false, List, [], ◌∷◌, ◌++◌, append_assoc, append-nil, map,
  All-append, All-both, All-split, Lacks, Option, none, some, ret, >>=-ret, ◌==◌, ==-ne, if_false,
}
use mathlib.Core.Path.{subst}
use highway.Thread.{set_userdata, thread_new}
use highway.Pool.{null, worker_new}
use highway.Pool.Ring.{
  Member, Pool, Fresh, pool_func, store, member_new, add_worker, add_workers, pool_new,
}
use highway.Pool.Ring.Chain.{
  Chain, Chain-same, Chain-append, Lacks-KeepsBut, store_self, store-KeepsBut, get_found,
}

-- No work was pushed to the worker.
abbrev pub Unused : Member → Type 0
Unused m = (m.work.work_free ≡ null) × (m.work.work_last ≡ null)

-- The workers of a pool are `first` in order and then the last, whose link is NULL.
pub record Row (pool : Pool) (first : List ℕ) : Type 0 where
  pub chain : Chain Unused pool.members pool.worker_first first pool.worker_last
  pub exists : pool.worker_last ≢ null
  pub member : Member
  pub found : pool.members pool.worker_last ≡ some member
  pub no_next : member.next ≡ null
  pub unused : Unused member
  pub alone : Lacks pool.worker_last first

add_worker-Row :
    (pool : Pool) (first : List ℕ) (p : ℕ) (m : Member)
    → Row pool first
    → Lacks p first
    → p ≢ pool.worker_last
    → p ≢ null
    → pool.members p ≡ some m
    → m.next ≡ null
    → Unused m
    → (pool' : Pool) × (add_worker pool p ≡ ret pool')
      × Row pool' (first ++ pool.worker_last ∷ [])
      × (pool'.worker_last ≡ p)
      × (pool'.worker_first ≡ pool.worker_first)
      × ((q : ℕ) → q ≢ p → q ≢ pool.worker_last → pool'.members q ≡ pool.members q)
unfolding add_worker
add_worker-Row pool first p m row new_first new ne found no_next unused =
    let l = pool.worker_last in
    let m' : Member = record m { prev = l } in
    let linked = store pool p (some m') in
    let before : Member = record (row.member) { next = p } in
    let pool' = record (store linked l (some before)) { worker_last = p } in
    let others : (q : ℕ) → q ≢ p → q ≢ l → pool'.members q ≡ pool.members q = λ q np nl.
      store-KeepsBut linked l (some before) q nl ∙ store-KeepsBut pool p (some m') q np in
    let found_last = store-KeepsBut pool p (some m') l (λ e. new (sym e)) ∙ row.found in
    (
      pool',
      if_false (l == null) _ _ (==-ne l null row.exists)
          ∙ >>=-ret _ _ m (get_found pool p m ne found)
          ∙ >>=-ret _ _ row.member (get_found linked l row.member row.exists found_last),
      record {
        chain =
            Chain-append Unused pool'.members pool'.worker_first first (l ∷ []) l p
              (Chain-same Unused pool.members pool'.members pool.worker_first first l
                (All-both (λ q. q ≢ p) (λ q. q ≢ l) (λ q. pool'.members q ≡ pool.members q) first
                  others new_first row.alone)
                row.chain)
              (refl, row.exists, (before, store_self linked l (some before), row.unused, refl));
        exists = ne;
        member = m';
        found = store-KeepsBut linked l (some before) p new ∙ store_self pool p (some m');
        no_next = no_next;
        unused = unused;
        alone = All-append (λ q. q ≢ p) first (l ∷ []) new_first ((λ e. new (sym e)), tt);
      },
      refl,
      refl,
      others,
    )

-- The whole row, up to NULL.
pub Row-Chain :
    (pool : Pool) (first : List ℕ)
    → Row pool first
    → Chain Unused pool.members pool.worker_first (first ++ pool.worker_last ∷ []) null
Row-Chain pool first row =
    Chain-append Unused pool.members pool.worker_first first (pool.worker_last ∷ [])
      pool.worker_last null row.chain
      (refl, row.exists, (row.member, row.found, row.unused, row.no_next))

-- What is put at a pointer that is none of theirs leaves a row as it is.
store-Row :
    (pool : Pool) (first : List ℕ) (p : ℕ) (m : Option Member)
    → Lacks p first
    → pool.worker_last ≢ p
    → Row pool first
    → Row (store pool p m) first
unfolding store
store-Row pool first p m new_first new row = record {
  chain =
      Chain-same Unused pool.members (store pool p m).members pool.worker_first first
        pool.worker_last
        (Lacks-KeepsBut p pool.members (store pool p m).members first (store-KeepsBut pool p m)
          new_first)
        row.chain;
  exists = row.exists;
  member = row.member;
  found = store-KeepsBut pool p m pool.worker_last new ∙ row.found;
  no_next = row.no_next;
  unused = row.unused;
  alone = row.alone;
}

-- The pointers that `hiw_malloc` gives are not NULL, not among those in use, and different.
abbrev pub IsNew : List ℕ → List Fresh → Type 0
IsNew known [] = Unit
IsNew known (fresh ∷ rest) =
    Lacks fresh.pointer known × (fresh.pointer ≢ null) × IsNew (known ++ fresh.pointer ∷ []) rest

-- The worker that is made.
abbrev made : Fresh → Member
made fresh = record {
  thread =
      set_userdata
        (record {
          main = false;
          userdata = none;
          func = some pool_func;
          context = [];
          handle = fresh.handle;
          started = false;
        })
        (some fresh.pointer);
  work = worker_new fresh.heap;
  prev = null;
  next = null;
  running = fresh.running;
}

add_workers-Row :
    (pool : Pool) (first : List ℕ) (fresh : List Fresh)
    → Row pool first
    → IsNew (first ++ pool.worker_last ∷ []) fresh
    → (pool' : Pool) × (first' : List ℕ) × (add_workers pool fresh ≡ ret pool')
      × Row pool' first'
      × (first' ++ pool'.worker_last ∷ []
          ≡ (first ++ pool.worker_last ∷ []) ++ map (λ f. f.pointer) fresh)
unfolding add_workers member_new worker_new set_userdata thread_new store
add_workers-Row pool first [] row new =
    (pool, first, refl, row, sym (append-nil (first ++ pool.worker_last ∷ [])))
add_workers-Row pool first (fresh ∷ rest) row (lacks, ne, others) =
    let l = pool.worker_last in
    let p = fresh.pointer in
    let (not_first, not_last) = All-split (λ q. q ≢ p) first (l ∷ []) lacks in
    let (pool1, added, row1, at_end, same_first, keeps) =
      add_worker-Row (store pool p (some (made fresh))) first p (made fresh)
        (store-Row pool first p (some (made fresh)) not_first not_last.0 row) not_first
        (λ e. not_last.0 (sym e)) ne (store_self pool p (some (made fresh))) refl (refl, refl) in
    let (pool2, first', later, row2, spells) =
      add_workers-Row pool1 (first ++ l ∷ []) rest row1
        (subst (λ q. IsNew ((first ++ l ∷ []) ++ q ∷ []) rest) (sym at_end) others) in
    (
      pool2,
      first',
      >>=-ret _ _ pool1 added ∙ later,
      row2,
      spells
          ∙ ap (λ q. ((first ++ l ∷ []) ++ q ∷ []) ++ map (λ f. f.pointer) rest) at_end
          ∙ append_assoc (first ++ l ∷ []) (p ∷ []) (map (λ f. f.pointer) rest),
    )

pub pool_new-Row :
    (one : Fresh) (rest : List Fresh)
    → one.pointer ≢ null
    → IsNew (one.pointer ∷ []) rest
    → (pool : Pool) × (first : List ℕ) × (pool_new (one ∷ rest) ≡ ret pool)
      × Row pool first
      × (first ++ pool.worker_last ∷ [] ≡ one.pointer ∷ map (λ f. f.pointer) rest)
unfolding pool_new add_workers add_worker member_new worker_new set_userdata thread_new store
pool_new-Row one rest ne new =
    let empty : Pool = record { worker_first = null; worker_last = null; members = λ p. none } in
    let pool0 : Pool = record (store empty one.pointer (some (made one))) {
      worker_first = one.pointer;
      worker_last = one.pointer;
    } in
    add_workers-Row pool0 [] rest
      (record {
        chain = refl;
        exists = ne;
        member = made one;
        found = store_self empty one.pointer (some (made one));
        no_next = refl;
        unused = (refl, refl);
        alone = tt;
      })
      new
