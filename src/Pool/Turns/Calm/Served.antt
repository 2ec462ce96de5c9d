-- ===== src/Pool/Turns/Calm/Served.antt =====
-- A worker that is given each work while its thread has none.
use highway.Prelude.{
  ℕ, ◌≡◌, ◌≢◌, refl, sym, ap, ◌∙◌, inl, inr, List, [], ◌∷◌, ◌++◌, append_assoc, append-nil, map,
  All, some, none, Outcome, ret, ◌>>=◌, >>=-ret, ◌==◌, ==-ne, if_false,
}
use highway.Pool.{null, worker_new}
use highway.Pool.Queue.{Item, call}
use highway.Pool.Turns.{top, Shared, advances, push, main_start}
use highway.Pool.Turns.Calm.{holding, calls, spent, advances-holding}
use mathlib.Core.Path.{subst}
use highway.Pool.Ring.Looped.{Looped}
use highway.Pool.Turns.Calm.Idle.{Idle, advances-Idle, held_of, item, push-Idle}

-- A work is pushed, and the thread takes four turns and then some more.
unfoldable pub one : Item × ℕ → Shared → Outcome Shared
one (i, more) s = do t ← push s i.pointer i.func i.arg; u ← advances 4 t; advances more u

unfoldable pub one_by_one : List (Item × ℕ) → Shared → Outcome Shared
unfolding one
one_by_one [] s = ret s
one_by_one (i ∷ items) s = do t ← one i s; one_by_one items t

-- What one work comes to.
pub record Served (s : Shared) (i : Item × ℕ) : Type 0 where
  pub after : Shared
  pub answer : one i s ≡ ret after
  pub idle : Idle after
  pub called : after.called ≡ s.called ++ call i.0 ∷ []
  pub used : after.work.work_free ≢ null
  pub loops : s.work.work_free ≢ null → Looped after.work

pub one-Idle : (s : Shared) (i : Item × ℕ) → Idle s → i.0.pointer ≢ null → Served s i
unfolding one held_of item
one-Idle s (i, more) idle ne =
    let a = push-Idle s i idle ne in
    let (store, served, there) =
      advances-holding a.p a.free i.func i.arg a.store (held_of s i) a.ne a.found s.turn
        idle.here in
    let u =
      holding null a.p store top
        (calls a.p a.free i.func i.arg a.store (held_of s i) a.ne a.found) in
    let idle_u : Idle u = record {
      here = inl refl;
      nothing_next = refl;
      nothing_last = refl;
      free_in = inr (_, there);
      runs = idle.runs;
    } in
    let (v, rested, idle_v, same, kept) = advances-Idle more u idle_u in
    record {
      after = v;
      answer = >>=-ret _ _ _ a.answer ∙ >>=-ret _ _ _ served ∙ rested;
      idle = idle_v;
      called = same;
      used = λ e. a.ne (sym (ap (λ w. w.work_free) kept) ∙ e);
      loops = λ n. subst Looped (sym kept) (record {
        work = spent a.p a.free i.func i.arg a.store (held_of s i) a.ne a.found;
        ne = a.ne;
        found = there;
        itself =
            if_false (a.free == null) _ _ (==-ne a.free null (λ e. a.ne (sym (a.reuses n) ∙ e)))
            ∙ a.reuses n;
      });
    }

one_by_one-Idle :
    (items : List (Item × ℕ)) (s : Shared)
    → Idle s
    → All (λ i. i.0.pointer ≢ null) items
    → (t : Shared) × (one_by_one items s ≡ ret t)
      × Idle t
      × (t.called ≡ s.called ++ map (λ i. call i.0) items)
unfolding one_by_one
one_by_one-Idle [] s idle nes = (s, refl, idle, sym (append-nil s.called))
one_by_one-Idle (i ∷ items) s idle nes =
    let v = one-Idle s i idle nes.0 in
    let (t, later, idle_t, called) = one_by_one-Idle items v.after v.idle nes.1 in
    (
      t,
      >>=-ret _ _ _ v.answer ∙ later,
      idle_t,
      called
          ∙ ap (λ cs. cs ++ map (λ i. call i.0) items) v.called
          ∙ append_assoc s.called (call i.0 ∷ []) (map (λ i. call i.0) items),
    )

pub start-Idle : (worker : ℕ) → Idle (main_start (λ p. none) (some worker))
unfolding main_start worker_new
start-Idle worker = record {
  here = inl refl;
  nothing_next = refl;
  nothing_last = refl;
  free_in = inl refl;
  runs = refl;
}

-- Works that are pushed to a new worker one after another, each while its thread has none, are
-- each called once, in that order and with their data: four turns of the thread behind a push are
-- enough for it, and however many more it takes, it does nothing but wait, if `hiw_malloc` does not
-- return NULL.
pub one_by_one-called :
    (worker : ℕ) (items : List (Item × ℕ))
    → All (λ i. i.0.pointer ≢ null) items
    → (t : Shared) × (one_by_one items (main_start (λ p. none) (some worker)) ≡ ret t)
      × (t.called ≡ map (λ i. call i.0) items)
      × Idle t
unfolding main_start
one_by_one-called worker items nes =
    let (t, answer, idle, called) =
      one_by_one-Idle items (main_start (λ p. none) (some worker)) (start-Idle worker) nes in
    (t, answer, called, idle)
