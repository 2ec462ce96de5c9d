-- ===== src/Pool/Turns/Calm/Idle.antt =====
-- A worker whose thread has no work, and a push to it.
use highway.Prelude.{
  ℕ, zero, suc, true, ◌&&◌, ◌≡◌, ◌≢◌, refl, ap, ◌∙◌, ◌⊎◌, inl, inr, [], ◌∷◌, ◌++◌, Option, some,
  ret, >>=-ret, arith, ◌==◌, ==-self, ==_iff, if_true, if◌then◌else◌, Bool-cases,
}
use highway.Pool.{Work, null, at, put, pop_work, work_new, push_work}
use highway.Pool.Queue.{Item, call}
use highway.Pool.Sound.{In}
use highway.Pool.Turns.{Turn, top, waiting, Shared, take_work, look, advance, advances, push}
use highway.Pool.Turns.Calm.{Held, holding}

-- A running worker that has no work, with its thread before or in the wait.
pub record Idle (s : Shared) : Type 0 where
  pub here : (s.turn ≡ top) ⊎ (s.turn ≡ waiting)
  pub nothing_next : s.work.work_next ≡ null
  pub nothing_last : s.work.work_last ≡ null
  pub free_in : In s.work.store s.work.work_free
  pub runs : s.running ≡ true

empty : (s : Shared) → Idle s → (s.work.work_next == null) ≡ true
empty s i = (==_iff s.work.work_next null).1 i.nothing_next

take_work-Idle : (s : Shared) → Idle s → take_work s ≡ ret (record s { turn = top })
unfolding take_work pop_work
take_work-Idle s i = >>=-ret _ _ (null, s.work) (if_true (s.work.work_next == null) _ _ (empty s i))

look-Idle : (s : Shared) → Idle s → look s ≡ ret (record s { turn = waiting })
unfolding look
look-Idle s i = if_true ((s.work.work_next == null) && s.running) _ _ (rw (empty s i) i.runs)

-- The thread of an idle worker does nothing but wait.
pub advances-Idle :
    (n : ℕ) (s : Shared)
    → Idle s
    → (t : Shared) × (advances n s ≡ ret t) × Idle t × (t.called ≡ s.called) × (t.work ≡ s.work)
unfolding advances
advances-Idle zero s i = (s, refl, i, refl, refl)
advances-Idle (suc n) s i =
    let (t, first, it, same, kept) = once s i i.here in
    let (u, goes, iu, same', kept') = advances-Idle n t it in
    (u, >>=-ret _ _ _ first ∙ goes, iu, same' ∙ same, kept' ∙ kept)
  where
    moved :
        (s : Shared) (turn : Turn)
        → Idle s
        → (turn ≡ top) ⊎ (turn ≡ waiting)
        → Idle (record s { turn = turn })
    moved s turn i here = record {
      here = here;
      nothing_next = i.nothing_next;
      nothing_last = i.nothing_last;
      free_in = i.free_in;
      runs = i.runs;
    }

    once :
        (s : Shared)
        → Idle s
        → (s.turn ≡ top) ⊎ (s.turn ≡ waiting)
        → (t : Shared) × (advance s.turn s ≡ ret t)
          × Idle t
          × (t.called ≡ s.called)
          × (t.work ≡ s.work)
    once s i (inl e) = (
      record s { turn = waiting },
      ap (λ turn. advance turn s) e ∙ look-Idle s i,
      moved s waiting i (inr refl),
      refl,
      refl,
    )
    once s i (inr e) = (
      record s { turn = top },
      ap (λ turn. advance turn s) e ∙ take_work-Idle s i,
      moved s top i (inl refl),
      refl,
      refl,
    )

unfoldable pub held_of : Shared → Item → Held
held_of s i = record { running = s.running; pushed = s.pushed ++ call i ∷ []; called = s.called }

unfoldable pub item : Item → Work
item i = record { func = i.func; arg = i.arg; next = null }

-- After a push whose work is the only one.
pub record Alone (s : Shared) (i : Item) : Type 0 where
  pub p : ℕ
  pub free : ℕ
  pub store : ℕ → Option Work
  pub answer : push s i.pointer i.func i.arg ≡ ret (holding p free store s.turn (held_of s i))
  pub ne : p ≢ null
  pub found : store p ≡ some (item i)
  pub reuses : s.work.work_free ≢ null → free ≡ p

stored : Shared → Item → ℕ → ℕ → Option Work
stored s i p q = if p == q then some (item i) else s.work.store q

stored_self : (s : Shared) (i : Item) (p : ℕ) → stored s i p p ≡ some (item i)
unfolding stored
stored_self s i p = if_true (p == p) _ _ (==-self p)

pub push-Idle : (s : Shared) (i : Item) → Idle s → i.pointer ≢ null → Alone s i
unfolding push push_work work_new at put held_of item stored
push-Idle s i idle ne =
    let last = (==_iff s.work.work_last null).1 idle.nothing_last in
    elim (Bool-cases (s.work.work_free == null)) [
      | inl t ↦ record {
        p = i.pointer;
        free = s.work.work_free;
        store = stored s i i.pointer;
        answer = rw (t) (rw last refl);
        ne = ne;
        found = stored_self s i i.pointer;
        reuses = λ n. absurd (n ((==_iff s.work.work_free null).0 t));
      }
      | inr f ↦ elim idle.free_in [
        | inl e ↦ absurd (ground arith)
        | inr (old, found) ↦ record {
          p = s.work.work_free;
          free = s.work.work_free;
          store = stored s i s.work.work_free;
          answer = rw (f, found) (rw last refl);
          ne = λ e. ground arith;
          found = stored_self s i s.work.work_free;
          reuses = λ n. refl;
        }
      ]
    ]
