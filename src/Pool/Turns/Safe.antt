-- ===== src/Pool/Turns/Safe.antt =====
-- What holds under any interleaving of a worker's thread, the pushes and the stop.
use mathlib.Core.Path.{subst}
use highway.Prelude.{
  ℕ, false, ◌&&◌, not, ◌≡◌, ◌≢◌, refl, sym, ap, ◌∙◌, inl, inr, List, [], ◌∷◌, ◌++◌, All, All-append,
  All-both, Option, some, none, ret, >>=-ret, >>=-eq-ret, ret-injective, Ends, Returns, >>=-Returns,
  Returns-ret, Returns-at, arith, ◌==◌, if_cases,
}
use highway.Pool.{Work, Worker, null, at, worker_new, pop_work, work_done, push_work}
use highway.Pool.Sound.{
  Among, Among-append, Among-append_end, In, Sound, After, Held, Sound-append, at-In,
  pop_work-Sound, work_done-Sound,
}
use highway.Pool.Sound.Push.{push_work-Sound}
use highway.Pool.Sound.Keeps.{Holds, push_work-Keeps}
use highway.Pool.Turns.{
  Turn, top, waiting, took, loaded, ran, left, Shared, take_work, look, load_data, call_func,
  finish_work, advance, push, stop, main_start, unlocked, races, Step, goes_on, pushes, stops,
  Reach, here, later,
}

-- The work that the thread has lies in memory, and the data that it has is that of the work.
abbrev Has : (ℕ → Option Work) → Turn → Type 0
Has store top = Unit
Has store waiting = Unit
Has store (took p) = (p ≢ null) × In store p
Has store (loaded p arg) = (p ≢ null) × (func : ℕ) × Holds store p func arg
Has store (ran p) = (p ≢ null) × In store p
Has store left = Unit

record Safe (s : Shared) : Type 0 where
  sound : Sound s.pushed s.work
  has : Has s.work.store s.turn
  calls : All (λ c. Among c s.pushed) s.called
  stopped : s.turn ≡ left → s.running ≡ false

Has-keeps :
    (store store' : ℕ → Option Work) (turn : Turn)
    → ((q : ℕ) → In store q → In store' q)
    → ((func arg : ℕ)
        → unlocked turn ≢ null
        → Holds store (unlocked turn) func arg
        → Holds store' (unlocked turn) func arg)
    → Has store turn
    → Has store' turn
Has-keeps store store' top keeps holds h = tt
Has-keeps store store' waiting keeps holds h = tt
Has-keeps store store' (took p) keeps holds (ne, there) = (ne, keeps p there)
Has-keeps store store' (loaded p arg) keeps holds (ne, func, held) =
    (ne, func, holds func arg ne held)
Has-keeps store store' (ran p) keeps holds (ne, there) = (ne, keeps p there)
Has-keeps store store' left keeps holds h = tt

take_work-Safe : (s : Shared) → Safe s → Returns Safe (take_work s)
unfolding take_work
take_work-Safe s h =
    >>=-Returns (Held s.pushed s.work) Safe (pop_work s.work) _
      (pop_work-Sound s.pushed s.work h.sound)
      (λ r held.
        let after : Turn → Shared = λ turn. record s { work = r.1; turn = turn } in
        if_cases (λ turn. Safe (after turn)) (r.0 == null) top (took r.0)
          (λ t. record { sound = held.0.0; has = tt; calls = h.calls; stopped = λ e. cc })
          (λ f. record {
            sound = held.0.0;
            has = ((λ e. ground arith), held.1);
            calls = h.calls;
            stopped = λ e. cc;
          }))

look-Safe : (s : Shared) → Safe s → Returns Safe (look s)
unfolding look
look-Safe s h =
    if_cases (Returns Safe) ((s.work.work_next == null) && s.running) _ _
      (λ t. record { sound = h.sound; has = tt; calls = h.calls; stopped = λ e. cc })
      (λ f.
        if_cases (Returns Safe) (not s.running && (s.work.work_next == null)) _ _
          (λ t. record { sound = h.sound; has = tt; calls = h.calls; stopped = λ e. ground arith })
          (λ f'. take_work-Safe s h))

load_data-Safe :
    (s : Shared) (p : ℕ) → Safe s → p ≢ null → In s.work.store p → Returns Safe (load_data s p)
unfolding load_data
load_data-Safe s p h ne there =
    >>=-Returns (λ work. s.work.store p ≡ some work) Safe (at s.work p) _ (at-In s.work p ne there)
      (λ work found. record {
        sound = h.sound;
        has = (
          ne,
          work.func,
          record { work = work; found = found; same_func = refl; same_arg = refl },
        );
        calls = h.calls;
        stopped = λ e. cc;
      })

call_func-Safe :
    (s : Shared) (p func arg : ℕ)
    → Safe s
    → p ≢ null
    → Holds s.work.store p func arg
    → Returns Safe (call_func s p arg)
unfolding call_func
call_func-Safe s p func arg h ne held =
    let there : In s.work.store p = inr (held.work, held.found) in
    >>=-Returns (λ work. s.work.store p ≡ some work) Safe (at s.work p) _ (at-In s.work p ne there)
      (λ work found.
        let one : ◌≡◌ {A = Option Work} (some work) (some held.work) = sym found ∙ held.found in
        let work_is : work ≡ held.work = cc in
        let arg_is : work.arg ≡ arg = ap (λ (x : Work). x.arg) work_is ∙ held.same_arg in
        record {
          sound = h.sound;
          has = (ne, there);
          calls =
              All-append (λ c. Among c s.pushed) s.called _ h.calls
                (
                  subst (λ a. Among (work.func, a) s.pushed) arg_is (h.sound.works p work found).1,
                  tt,
                );
          stopped = λ e. cc;
        })

finish_work-Safe :
    (s : Shared) (p : ℕ) → Safe s → p ≢ null → In s.work.store p → Returns Safe (finish_work s p)
unfolding finish_work
finish_work-Safe s p h ne there =
    >>=-Returns (After s.pushed s.work) Safe (work_done s.work p) _
      (work_done-Sound s.pushed s.work p h.sound ne there)
      (λ w after. record { sound = after.0; has = tt; calls = h.calls; stopped = λ e. cc })

advance-Safe :
    (turn : Turn) (s : Shared) → Safe s → Has s.work.store turn → Returns Safe (advance turn s)
unfolding advance
advance-Safe top s h has = look-Safe s h
advance-Safe waiting s h has = take_work-Safe s h
advance-Safe (took p) s h (ne, there) = load_data-Safe s p h ne there
advance-Safe (loaded p arg) s h (ne, func, held) = call_func-Safe s p func arg h ne held
advance-Safe (ran p) s h (ne, there) = finish_work-Safe s p h ne there
advance-Safe left s h has = h

-- A push that does not race leaves the item that the thread reads.
push-Holds :
    (s : Shared) (fresh func arg : ℕ) (w : Worker) (held_func held_arg : ℕ)
    → s.work.store fresh ≡ none
    → races s ≡ false
    → push_work s.work fresh func arg ≡ ret w
    → unlocked s.turn ≢ null
    → Holds s.work.store (unlocked s.turn) held_func held_arg
    → Holds w.store (unlocked s.turn) held_func held_arg
unfolding races
push-Holds s fresh func arg w held_func held_arg new calm queued ne h =
    let p = unlocked s.turn in
    let apart : s.work.work_free ≢ p = λ e. ground (arith, calm, ne) in
    let other : fresh ≢ p = λ e.
      (let lost : ◌≡◌ {A = Option Work} none (some h.work) =
          sym new ∙ ap s.work.store e ∙ h.found in
        cc) in
    subst (Ends (λ w'. Holds w'.store p held_func held_arg)) queued
      (push_work-Keeps p held_func held_arg s.work fresh func arg other apart h)

push_work-Returns :
    (s : Shared) (fresh func arg : ℕ)
    → Safe s
    → fresh ≢ null
    → Returns (After (s.pushed ++ (func, arg) ∷ []) s.work) (push_work s.work fresh func arg)
push_work-Returns s fresh func arg h ne =
    let more : List (ℕ × ℕ) = (func, arg) ∷ [] in
    push_work-Sound (s.pushed ++ more) s.work fresh func arg
      (Sound-append s.pushed more s.work h.sound) ne (Among-append_end s.pushed (func, arg))

push-Safe :
    (s t : Shared) (fresh func arg : ℕ)
    → Safe s
    → fresh ≢ null
    → s.work.store fresh ≡ none
    → races s ≡ false
    → push s fresh func arg ≡ ret t
    → Safe t
unfolding push
push-Safe s t fresh func arg h ne new calm e =
    let more : List (ℕ × ℕ) = (func, arg) ∷ [] in
    let pushed = s.pushed ++ more in
    let (w, queued, e') =
      >>=-eq-ret {B = Shared} (push_work s.work fresh func arg)
        (λ w. ret (record s { work = w; pushed = pushed })) e in
    let after =
      Returns-at (After pushed s.work) (push_work s.work fresh func arg) w
        (push_work-Returns s fresh func arg h ne) queued in
    subst Safe (ret-injective e') (record {
      sound = after.0;
      has =
          Has-keeps s.work.store w.store s.turn after.1
            (λ f a. push-Holds s fresh func arg w f a new calm queued) h.has;
      calls =
          All-both (λ c. Among c s.pushed) (λ c. Among c s.pushed) (λ c. Among c pushed) s.called
            (λ c k _. Among-append c s.pushed more k) h.calls h.calls;
      stopped = h.stopped;
    })

main_start-Safe : (worker : ℕ) → Safe (main_start (λ p. none) (some worker))
unfolding main_start worker_new
main_start-Safe worker = record {
  sound = record {
    next_in = inl refl;
    last_in = inl refl;
    free_in = inl refl;
    works = λ p work e. cc;
  };
  has = tt;
  calls = tt;
  stopped = λ e. cc;
}

Step-Safe : {s t : Shared} → Step s t → Safe s → Safe t
unfolding stop
Step-Safe {s} {t} (goes_on e) h =
    Returns-at Safe (advance s.turn s) t (advance-Safe s.turn s h h.has) e
Step-Safe {s} {t} (pushes fresh func arg ne new calm e) h =
    push-Safe s t fresh func arg h ne new calm e
Step-Safe stops h = record { sound = h.sound; has = h.has; calls = h.calls; stopped = λ e. refl }

Reach-Safe : {s t : Shared} → Safe s → Reach s t → Safe t
Reach-Safe h here = h
Reach-Safe h (later r st) = Step-Safe st (Reach-Safe h r)

-- In whatever order a new worker's thread, the pushes and the stop take their turns, up to a push that
-- races with the thread, the thread and a further push go on without following NULL or a pointer
-- outside of the items, each call of the thread is of a function that was pushed and with the data
-- that was pushed with it, and the thread leaves its loop only once the worker is stopped, if
-- `hiw_malloc` returns memory that is not in use.
pub Reach-goes_on :
    (worker : ℕ) (s : Shared) (fresh func arg : ℕ)
    → Reach (main_start (λ p. none) (some worker)) s
    → fresh ≢ null
    → ((t : Shared) × (advance s.turn s ≡ ret t))
      × ((t : Shared) × (push s fresh func arg ≡ ret t))
      × All (λ c. Among c s.pushed) s.called
      × (s.turn ≡ left → s.running ≡ false)
unfolding push
Reach-goes_on worker s fresh func arg r ne =
    let h = Reach-Safe (main_start-Safe worker) r in
    let (t, goes, _) = Returns-ret Safe (advance s.turn s) (advance-Safe s.turn s h h.has) in
    let (w, queued, _) =
      Returns-ret (After (s.pushed ++ (func, arg) ∷ []) s.work) (push_work s.work fresh func arg)
        (push_work-Returns s fresh func arg h ne) in
    (
      (t, goes),
      (
        record s { work = w; pushed = s.pushed ++ (func, arg) ∷ [] },
        >>=-ret (push_work s.work fresh func arg) _ w queued,
      ),
      h.calls,
      h.stopped,
    )
