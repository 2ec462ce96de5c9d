-- ===== src/Pool/Ring/Chain.antt =====
-- Workers that are linked in memory, one behind the other.
use highway.Prelude.{
  ℕ, suc, ◌≡◌, ◌≢◌, refl, sym, ap, ◌∙◌, false, inl, inr, List, [], ◌∷◌, ◌++◌, All, Lacks, Option,
  none, some, ret, >>=-ret, access, ◌==◌, ==-self, ==-ne, ==_iff, if_true, if_false, Bool-cases,
}
use mathlib.Core.Path.{subst}
use highway.Thread.{Effect, freed, thread_wait, thread_delete}
use highway.Pool.{null}
use highway.Pool.Ring.{Member, Pool, get, store, worker_stop, free_works, worker_delete}

-- No work of the worker is free.
abbrev pub NoneFree : Member → Type 0
NoneFree m = m.work.work_free ≡ null

-- The workers at these pointers, from one pointer to another: each is linked to the next, and is as
-- `P` says.
abbrev pub Chain : (Member → Type 0) → (ℕ → Option Member) → ℕ → List ℕ → ℕ → Type 0
Chain P members p [] end = p ≡ end
Chain P members p (q ∷ qs) end =
    (p ≡ q)
    × (q ≢ null)
    × ((m : Member) × (members q ≡ some m) × P m × Chain P members m.next qs end)

abbrev pub Distinct : List ℕ → Type 0
Distinct [] = Unit
Distinct (q ∷ qs) = Lacks q qs × Distinct qs

-- The same but at one pointer.
abbrev pub KeepsBut : ℕ → (ℕ → Option Member) → (ℕ → Option Member) → Type 0
KeepsBut p members members' = (q : ℕ) → q ≢ p → members' q ≡ members q

pub Chain-same :
    (P : Member → Type 0) (members members' : ℕ → Option Member) (from : ℕ) (qs : List ℕ) (end : ℕ)
    → All (λ q. members' q ≡ members q) qs
    → Chain P members from qs end
    → Chain P members' from qs end
Chain-same P members members' from [] end same chain = chain
Chain-same P members members' from (q ∷ qs) end same (here, ne, (m, found, p, rest)) =
    (here, ne, (m, same.0 ∙ found, p, Chain-same P members members' m.next qs end same.1 rest))

pub Chain-map :
    (P Q : Member → Type 0) (members : ℕ → Option Member) (from : ℕ) (qs : List ℕ) (end : ℕ)
    → ((m : Member) → P m → Q m)
    → Chain P members from qs end
    → Chain Q members from qs end
Chain-map P Q members from [] end f chain = chain
Chain-map P Q members from (q ∷ qs) end f (here, ne, (m, found, p, rest)) =
    (here, ne, (m, found, f m p, Chain-map P Q members m.next qs end f rest))

pub Chain-append :
    (P : Member → Type 0) (members : ℕ → Option Member) (from : ℕ) (qs rs : List ℕ) (mid end : ℕ)
    → Chain P members from qs mid
    → Chain P members mid rs end
    → Chain P members from (qs ++ rs) end
Chain-append P members from [] rs mid end c d = subst (λ p. Chain P members p rs end) (sym c) d
Chain-append P members from (q ∷ qs) rs mid end (here, ne, (m, found, p, rest)) d =
    (here, ne, (m, found, p, Chain-append P members m.next qs rs mid end rest d))

pub Lacks-KeepsBut :
    (p : ℕ) (members members' : ℕ → Option Member) (qs : List ℕ)
    → KeepsBut p members members'
    → Lacks p qs
    → All (λ q. members' q ≡ members q) qs
Lacks-KeepsBut p members members' [] keeps l = tt
Lacks-KeepsBut p members members' (q ∷ qs) keeps l =
    (keeps q l.0, Lacks-KeepsBut p members members' qs keeps l.1)

pub store_self : (pool : Pool) (p : ℕ) (m : Option Member) → (store pool p m).members p ≡ m
unfolding store
store_self pool p m = if_true (p == p) _ _ (==-self p)

pub store-KeepsBut :
    (pool : Pool) (p : ℕ) (m : Option Member) → KeepsBut p pool.members (store pool p m).members
unfolding store
store-KeepsBut pool p m q ne = if_false (p == q) _ _ (==-ne p q (λ e. ne (sym e)))

pub get_found :
    (pool : Pool) (p : ℕ) (m : Member) → p ≢ null → pool.members p ≡ some m → get pool p ≡ ret m
unfolding get
get_found pool p m ne found = if_false (p == null) _ _ (==-ne p null ne) ∙ ap access found

-- A worker that is stopped stays where it is.
pub worker_stop-KeepsBut :
    (pool : Pool) (p : ℕ) (m : Member)
    → p ≢ null
    → pool.members p ≡ some m
    → (pool' : Pool) × (m' : Member) × (effects : List Effect) × (worker_stop pool p
        ≡ ret (pool', effects))
      × (pool'.members p ≡ some m')
      × (m'.work ≡ m.work)
      × KeepsBut p pool.members pool'.members
unfolding worker_stop
worker_stop-KeepsBut pool p m ne found =
    let waited = thread_wait m.thread in
    let m' : Member = record m { running = false; thread = waited.0 } in
    elim (Bool-cases m.running) [
      | inl t ↦ (
        store pool p (some m'),
        m',
        waited.1,
        >>=-ret _ _ m (get_found pool p m ne found) ∙ ap ret (if_true m.running _ _ t),
        store_self pool p (some m'),
        refl,
        store-KeepsBut pool p (some m'),
      )
      | inr f ↦ (
        pool,
        m,
        [],
        >>=-ret _ _ m (get_found pool p m ne found) ∙ ap ret (if_false m.running _ _ f),
        found,
        refl,
        λ q other. refl,
      )
    ]

-- A worker that is deleted is gone.
pub worker_delete-KeepsBut :
    (rounds : ℕ) (pool : Pool) (p : ℕ) (m : Member)
    → p ≢ null
    → pool.members p ≡ some m
    → NoneFree m
    → (pool' : Pool) × (effects : List Effect) × (worker_delete (suc rounds) pool p
        ≡ ret (pool', effects))
      × (pool'.members p ≡ none)
      × KeepsBut p pool.members pool'.members
unfolding worker_delete free_works
worker_delete-KeepsBut rounds pool p m ne found no_work =
    let (stopped, m', waits, stop, found', same, keeps) = worker_stop-KeepsBut pool p m ne found in
    (
      store stopped p none,
      waits ++ ([] ++ (thread_delete m'.thread ++ freed ∷ [])),
      >>=-ret _ _ _ stop
          ∙ >>=-ret _ _ m' (get_found stopped p m' ne found')
          ∙ >>=-ret _ _ [] (
              if_true (m'.work.work_free == null) _ _
                ((==_iff m'.work.work_free null).1 (ap (λ w. w.work_free) same ∙ no_work))),
      store_self stopped p none,
      λ q other. store-KeepsBut stopped p none q other ∙ keeps q other,
    )
