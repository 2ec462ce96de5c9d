-- ===== src/Pool/Sound/Keeps.antt =====
-- What a push in core/src/hiw_thread.c leaves of the items that it does not reuse.
use highway.Prelude.{
  ℕ, ◌≡◌, ◌≢◌, refl, sym, ap, ◌∙◌, inl, inr, Option, none, some, access, Ends, >>=-Ends, if-Ends,
  arith, ◌==◌, ==-ne, if_true, if_false, Bool-cases,
}
use highway.Pool.{Work, Worker, null, at, put, work_new, push_work}

-- The item at `p` has this function and this data.
pub record Holds (store : ℕ → Option Work) (p func arg : ℕ) : Type 0 where
  pub work : Work
  pub found : store p ≡ some work
  pub same_func : work.func ≡ func
  pub same_arg : work.arg ≡ arg

put-Holds :
    (w : Worker) (p q func arg : ℕ) (item : Work)
    → q ≢ p
    → Holds w.store p func arg
    → Holds (put w q item).store p func arg
unfolding put
put-Holds w p q func arg item ne h = record {
  work = h.work;
  found = if_false (q == p) _ _ (==-ne q p ne) ∙ h.found;
  same_func = h.same_func;
  same_arg = h.same_arg;
}

relink-Holds :
    (w : Worker) (p q next func arg : ℕ) (item : Work)
    → w.store q ≡ some item
    → Holds w.store p func arg
    → Holds (put w q (record item { next = next })).store p func arg
unfolding put
relink-Holds w p q next func arg item there h = elim (Bool-cases (q == p)) [
  | inl t ↦
      let same : q ≡ p = ground arith in
      let one : ◌≡◌ {A = Option Work} (some item) (some h.work) =
        sym there ∙ ap w.store same ∙ h.found in
      let item_is : item ≡ h.work = cc in
      record {
        work = record item { next = next };
        found = if_true (q == p) _ _ t;
        same_func = ap (λ (x : Work). x.func) item_is ∙ h.same_func;
        same_arg = ap (λ (x : Work). x.arg) item_is ∙ h.same_arg;
      }
  | inr f ↦ record {
    work = h.work;
    found = if_false (q == p) _ _ f ∙ h.found;
    same_func = h.same_func;
    same_arg = h.same_arg;
  }
]

access-found : (o : Option Work) → Ends (λ work. o ≡ some work) (access o)
access-found none = tt
access-found (some work) = refl

at-found : (w : Worker) (p : ℕ) → Ends (λ work. w.store p ≡ some work) (at w p)
unfolding at
at-found w p =
    if-Ends (λ work. w.store p ≡ some work) (p == null) _ _ (λ t. tt)
      (λ f. access-found (w.store p))

module _ (p held_func held_arg : ℕ) where
  abbrev Keeps : (ℕ → Option Work) → Type 0
  Keeps store = Holds store p held_func held_arg

  work_new-Keeps :
      (w : Worker) (fresh func arg : ℕ)
      → fresh ≢ p
      → w.work_free ≢ p
      → Keeps w.store
      → Ends (λ r. Keeps r.1.store) (work_new w fresh func arg)
  unfolding work_new
  work_new-Keeps w fresh func arg new reused h =
      let item : Work = record { func = func; arg = arg; next = null } in
      let After : ℕ × Worker → Type 0 = λ r. Keeps r.1.store in
      if-Ends After (w.work_free == null) _ _
        (λ t. put-Holds w p fresh held_func held_arg item new h)
        (λ f.
          >>=-Ends (λ work. w.store w.work_free ≡ some work) After (at w w.work_free) _
            (at-found w w.work_free)
            (λ work found.
              put-Holds (record w { work_next = work.next }) p w.work_free held_func held_arg item
                reused h))

  -- A push leaves the function and the data of an item that it neither allocates nor reuses.
  pub push_work-Keeps :
      (w : Worker) (fresh func arg : ℕ)
      → fresh ≢ p
      → w.work_free ≢ p
      → Keeps w.store
      → Ends (λ w'. Keeps w'.store) (push_work w fresh func arg)
  unfolding push_work
  push_work-Keeps w fresh func arg new reused h =
      let After : Worker → Type 0 = λ w'. Keeps w'.store in
      >>=-Ends (λ r. Keeps r.1.store) After (work_new w fresh func arg) _
        (work_new-Keeps w fresh func arg new reused h)
        (λ r kept.
          if-Ends After (r.1.work_last == null) _ _ (λ t. kept)
            (λ f.
              >>=-Ends (λ last. r.1.store r.1.work_last ≡ some last) After (at r.1 r.1.work_last) _
                (at-found r.1 r.1.work_last)
                (λ last found.
                  relink-Holds r.1 p r.1.work_last r.0 held_func held_arg last found kept)))
