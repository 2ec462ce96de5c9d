-- ===== src/Pool/Sound.antt =====
-- The memory of a worker and of its works in core/src/hiw_thread.c.
pub mod Push
pub mod Keeps
use highway.Prelude.{
  arith, if_cases, ℕ, Bool, true, false, ◌&&◌, not, ◌≡◌, ◌≢◌, refl, sym, ap, ◌∙◌, ◌⊎◌, inl, inr,
  List, [], ◌∷◌, ◌++◌, map, Option, some, none, Outcome, ret, ◌>>=◌, Returns, >>=-Returns,
  if-Returns, Returns-ret, Returns-at, access, ◌==◌, ==_iff, ==-ne, ==-self, if_true, if_false,
  if◌then◌else◌, Bool-cases,
}
use mathlib.Core.Path.{subst}
use highway.Pool.{Work, Worker, null, at, put, worker_new, pop_work, work_done, work_new, push_work}

-- One of the calls is this one.
abbrev pub Among : ℕ × ℕ → List (ℕ × ℕ) → Type 0
Among c [] = ⊥
Among c (d ∷ calls) = (c ≡ d) ⊎ Among c calls

pub Among-append : (c : ℕ × ℕ) (calls more : List (ℕ × ℕ)) → Among c calls → Among c (calls ++ more)
Among-append c [] more h = absurd h
Among-append c (d ∷ calls) more (inl e) = inl e
Among-append c (d ∷ calls) more (inr h) = inr (Among-append c calls more h)

pub Among-append_end : (calls : List (ℕ × ℕ)) (c : ℕ × ℕ) → Among c (calls ++ c ∷ [])
Among-append_end [] c = inl refl
Among-append_end (d ∷ calls) c = inr (Among-append_end calls c)

-- NULL, or a work in memory.
abbrev pub In : (ℕ → Option Work) → ℕ → Type 0
In store p = (p ≡ null) ⊎ ((work : Work) × (store p ≡ some work))

-- A work whose link lies in memory and whose function was pushed with its data.
abbrev pub Known : List (ℕ × ℕ) → (ℕ → Option Work) → Work → Type 0
Known pushed store work = In store work.next × Among (work.func, work.arg) pushed

-- Every pointer of the worker and of its works is NULL or lies in memory.
pub record Sound (pushed : List (ℕ × ℕ)) (w : Worker) : Type 0 where
  pub next_in : In w.store w.work_next
  pub last_in : In w.store w.work_last
  pub free_in : In w.store w.work_free
  pub works : (p : ℕ) (work : Work) → w.store p ≡ some work → Known pushed w.store work

pub at-In :
    (w : Worker) (p : ℕ)
    → p ≢ null
    → In w.store p
    → Returns (λ work. w.store p ≡ some work) (at w p)
unfolding at
at-In w p ne (inl e) = absurd (ne e)
at-In w p ne (inr (work, found)) =
    subst (Returns (λ work. w.store p ≡ some work))
      (sym (if_false (p == null) _ _ (==-ne p null ne) ∙ ap access found)) found

pub put-In : (w : Worker) (p q : ℕ) (work : Work) → In w.store q → In (put w p work).store q
unfolding put
put-In w p q work (inl e) = inl e
put-In w p q work (inr (old, found)) = elim (Bool-cases (p == q)) [
  | inl t ↦ inr (work, if_true (p == q) _ _ t)
  | inr f ↦ inr (old, if_false (p == q) _ _ f ∙ found)
]

pub put-In_self : (w : Worker) (p : ℕ) (work : Work) → In (put w p work).store p
unfolding put
put-In_self w p work = inr (work, if_true (p == p) _ _ (==-self p))

pub put-Sound :
    (pushed : List (ℕ × ℕ)) (w : Worker) (p : ℕ) (work : Work)
    → Sound pushed w
    → Known pushed (put w p work).store work
    → Sound pushed (put w p work)
unfolding put
put-Sound pushed w p work h known = record {
  next_in = put-In w p w.work_next work h.next_in;
  last_in = put-In w p w.work_last work h.last_in;
  free_in = put-In w p w.work_free work h.free_in;
  works = λ q other found. elim (Bool-cases (p == q)) [
    | inl t ↦
        let same : ◌≡◌ {A = Option Work} (some work) (some other) =
          sym (if_true (p == q) _ _ t) ∙ found in
        subst (Known pushed (put w p work).store) (some_injective same) known
    | inr f ↦
        let (next_in, call_in) = h.works q other (sym (if_false (p == q) _ _ f) ∙ found) in
        (put-In w p other.next work next_in, call_in)
  ];
}
  where
    some_injective : {a b : Work} → ◌≡◌ {A = Option Work} (some a) (some b) → a ≡ b
    some_injective e = cc

module _ (pushed : List (ℕ × ℕ)) where
  pub at-Sound :
      (w : Worker) (p : ℕ)
      → Sound pushed w
      → p ≢ null
      → In w.store p
      → Returns (λ work. Known pushed w.store work) (at w p)
  at-Sound w p h ne there =
      let (work, read, found) =
        Returns-ret (λ work. w.store p ≡ some work) (at w p) (at-In w p ne there) in
      subst (Returns (Known pushed w.store)) (sym read) (h.works p work found)

  -- The worker and its memory after a call, of which nothing is gone.
  abbrev pub After : Worker → Worker → Type 0
  After w w' = Sound pushed w' × ((q : ℕ) → In w.store q → In w'.store q)

  -- With a pointer into the memory.
  abbrev pub Held : Worker → ℕ × Worker → Type 0
  Held w r = After w r.1 × In r.1.store r.0

  pub pop_work-Sound : (w : Worker) → Sound pushed w → Returns (Held w) (pop_work w)
  unfolding pop_work
  pop_work-Sound w h =
      if_cases (Returns (Held w)) (w.work_next == null) _ _ (λ t. ((h, λ q there. there), inl refl))
        (λ f.
          >>=-Returns (Known pushed w.store) (Held w) (at w w.work_next) _
            (at-Sound w w.work_next h (λ e. ground arith) h.next_in)
            (λ work known.
              if_cases (Held w) (work.next == null) _ _
                (λ t. (
                  (
                    record {
                      next_in = inl refl;
                      last_in = inl refl;
                      free_in = h.free_in;
                      works = h.works;
                    },
                    λ q there. there,
                  ),
                  h.next_in,
                ))
                (λ f'. (
                  (
                    record {
                      next_in = known.0;
                      last_in = h.last_in;
                      free_in = h.free_in;
                      works = h.works;
                    },
                    λ q there. there,
                  ),
                  h.next_in,
                ))))

  pub work_done-Sound :
      (w : Worker) (p : ℕ)
      → Sound pushed w
      → p ≢ null
      → In w.store p
      → Returns (After w) (work_done w p)
  unfolding work_done put
  work_done-Sound w p h ne there =
      >>=-Returns (Known pushed w.store) (After w) (at w p) _ (at-Sound w p h ne there)
        (λ work known.
          if_cases (λ w'. After w (record w' { work_free = p })) (w.work_free == null) _ _
            (λ t. (
              record { next_in = h.next_in; last_in = h.last_in; free_in = there; works = h.works },
              λ q there'. there',
            ))
            (λ f.
              let linked : Work = record work { next = w.work_free } in
              let k =
                put-Sound pushed w p linked h (put-In w p w.work_free linked h.free_in, known.1) in
              (
                record {
                  next_in = k.next_in;
                  last_in = k.last_in;
                  free_in = put-In_self w p linked;
                  works = k.works;
                },
                λ q there'. put-In w p q linked there',
              )))

pub Sound-append :
    (pushed more : List (ℕ × ℕ)) (w : Worker) → Sound pushed w → Sound (pushed ++ more) w
Sound-append pushed more w h = record {
  next_in = h.next_in;
  last_in = h.last_in;
  free_in = h.free_in;
  works = λ p work found.
      let (next_in, call_in) = h.works p work found in
      (next_in, Among-append (work.func, work.arg) pushed more call_in);
}
