-- ===== src/Pool/Ring/Alike.antt =====
-- Workers whose links and works are as they were.
use highway.Prelude.{
  ℕ, ◌≡◌, ◌≢◌, refl, sym, ap, ◌∙◌, inl, inr, List, [], ◌∷◌, ◌++◌, All, Option, some, ◌==◌, ==_iff,
  if_true, if_false, Bool-cases,
}
use mathlib.Core.Path.{subst}
use highway.Pool.{null}
use highway.Pool.Ring.{Member, Pool, store}
use highway.Pool.Ring.Chain.{Chain}
use highway.Pool.Ring.Members.{Unused}

-- A worker that has the link and the work that it had before.
abbrev pub Alike : (ℕ → Option Member) → (ℕ → Option Member) → ℕ → Type 0
Alike members members' q =
    (m : Member)
    → members q ≡ some m
    → (m' : Member) × (members' q ≡ some m') × (m'.next ≡ m.next) × (m'.work ≡ m.work)

pub store_prev-Alike :
    (pool : Pool) (p prev : ℕ) (f : Member) (q : ℕ)
    → pool.members p ≡ some f
    → Alike pool.members (store pool p (some (record f { prev = prev }))).members q
unfolding store
store_prev-Alike pool p prev f q found m here = elim (Bool-cases (p == q)) [
  | inl t ↦
      let same : some f ≡ some m = sym found ∙ ap pool.members ((==_iff p q).0 t) ∙ here in
      let f_is : f ≡ m = cc in
      (
        record f { prev = prev },
        if_true (p == q) _ _ t,
        ap (λ x. x.next) f_is,
        ap (λ x. x.work) f_is,
      )
  | inr e ↦ (m, if_false (p == q) _ _ e ∙ here, refl, refl)
]

pub Alike-same :
    (members members' members'' : ℕ → Option Member) (q : ℕ)
    → members'' q ≡ members' q
    → Alike members members' q
    → Alike members members'' q
Alike-same members members' members'' q same alike m found =
    let (m', found', next, work) = alike m found in (m', same ∙ found', next, work)

pub Chain-Alike :
    (members members' : ℕ → Option Member) (from : ℕ) (qs : List ℕ) (end : ℕ)
    → All (Alike members members') qs
    → Chain Unused members from qs end
    → Chain Unused members' from qs end
Chain-Alike members members' from [] end alike chain = chain
Chain-Alike members members' from (q ∷ qs) end alike (here, ne, (m, found, unused, rest)) =
    let (m', found', next, work) = alike.0 m found in
    (
      here,
      ne,
      (
        m',
        found',
        (ap (λ w. w.work_free) work ∙ unused.0, ap (λ w. w.work_last) work ∙ unused.1),
        subst (λ n. Chain Unused members' n qs end) (sym next)
            (Chain-Alike members members' m.next qs end alike.1 rest),
      ),
    )

-- Where a chain begins.
pub Chain-head :
    (members : ℕ → Option Member) (from : ℕ) (qs : List ℕ) (end : ℕ) (m : Member)
    → Chain Unused members from qs end
    → end ≢ null
    → members end ≡ some m
    → (from ≢ null) × ((f : Member) × (members from ≡ some f))
Chain-head members from [] end m chain ne found =
    ((λ e. ne (sym chain ∙ e)), (m, ap members chain ∙ found))
Chain-head members from (q ∷ qs) end m (here, ne', (f, found', unused, rest)) ne found =
    ((λ e. ne' (sym here ∙ e)), (f, ap members here ∙ found'))

pub Chain-All :
    (P : ℕ → Type 0) (members : ℕ → Option Member) (from : ℕ) (qs : List ℕ) (end : ℕ)
    (rest : List ℕ)
    → Chain Unused members from qs end
    → All P (qs ++ end ∷ rest)
    → P from
Chain-All P members from [] end rest chain h = subst P (sym chain) h.0
Chain-All P members from (q ∷ qs) end rest chain h = subst P (sym chain.0) h.0
