-- ===== src/Pool/Sound/Push.antt =====
-- The memory of a worker behind a push, in core/src/hiw_thread.c.
use highway.Prelude.{arith, if_cases, ℕ, ◌≢◌, refl, inl, List, Returns, >>=-Returns, ◌==◌}
use highway.Pool.{Work, Worker, null, at, work_new, push_work}
use highway.Pool.Sound.{Among, Known, Sound, put-In, put-In_self, put-Sound, at-Sound, After, Held}

module _ (pushed : List (ℕ × ℕ)) where
  -- A new item holds a function and data that are pushed.
  work_new-Sound :
      (w : Worker) (fresh func arg : ℕ)
      → Sound pushed w
      → fresh ≢ null
      → Among (func, arg) pushed
      → Returns (λ r. Held pushed w r × (r.0 ≢ null)) (work_new w fresh func arg)
  unfolding work_new
  work_new-Sound w fresh func arg h ne called =
      let item : Work = record { func = func; arg = arg; next = null } in
      let New : ℕ × Worker → Type 0 = λ r. Held pushed w r × (r.0 ≢ null) in
      if_cases (Returns New) (w.work_free == null) _ _
        (λ t. (
          (
            (
              put-Sound pushed w fresh item h (inl refl, called),
              λ q there. put-In w fresh q item there,
            ),
            put-In_self w fresh item,
          ),
          ne,
        ))
        (λ used.
          >>=-Returns (Known pushed w.store) New (at w w.work_free) _
            (at-Sound pushed w w.work_free h (λ e. ground arith) h.free_in)
            (λ work known.
              let w' : Worker = record w { work_next = work.next } in
              let h' : Sound pushed w' = record {
                next_in = known.0;
                last_in = h.last_in;
                free_in = h.free_in;
                works = h.works;
              } in
              (
                (
                  (
                    put-Sound pushed w' w.work_free item h' (inl refl, called),
                    λ q there. put-In w' w.work_free q item there,
                  ),
                  put-In_self w' w.work_free item,
                ),
                λ e. ground arith,
              )))

  pub push_work-Sound :
      (w : Worker) (fresh func arg : ℕ)
      → Sound pushed w
      → fresh ≢ null
      → Among (func, arg) pushed
      → Returns (After pushed w) (push_work w fresh func arg)
  unfolding push_work
  push_work-Sound w fresh func arg h ne called =
      >>=-Returns (λ r. Held pushed w r × (r.0 ≢ null)) (After pushed w) (work_new w fresh func arg)
        _ (work_new-Sound w fresh func arg h ne called)
        (λ r new.
          let p = r.0 in
          let w1 = r.1 in
          let h1 = new.0.0.0 in
          let keeps = new.0.0.1 in
          if_cases (Returns (After pushed w)) (w1.work_last == null) _ _
            (λ t. (
              record {
                next_in = new.0.1;
                last_in = new.0.1;
                free_in = h1.free_in;
                works = h1.works;
              },
              keeps,
            ))
            (λ waits.
              >>=-Returns (Known pushed w1.store) (After pushed w) (at w1 w1.work_last) _
                (at-Sound pushed w1 w1.work_last h1 (λ e. ground arith) h1.last_in)
                (λ last known.
                  let linked : Work = record last { next = p } in
                  (
                    put-Sound pushed w1 w1.work_last linked h1
                        (put-In w1 w1.work_last p linked new.0.1, known.1),
                    λ q there. put-In w1 w1.work_last q linked (keeps q there),
                  ))))
