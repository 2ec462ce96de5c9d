-- ===== src/Pool/Ring/Rotated.antt =====
-- What `hiw_thread_pool_push` makes of the links of the workers.
use highway.Prelude.{
  ℕ, ◌≡◌, ◌≢◌, refl, sym, ap, ◌∙◌, List, [], ◌∷◌, ◌++◌, All-both, Lacks, some, ret, >>=-ret, ◌==◌,
  ==_iff, if_true,
}
use highway.Pool.{Worker, null, work_new, put, push_work}
use highway.Pool.Ring.{Member, Pool, store, rotate, pool_push}
use highway.Pool.Ring.Chain.{
  NoneFree, Chain, Chain-map, Chain-same, Chain-append, Lacks-KeepsBut, store_self, store-KeepsBut,
  get_found,
}
use highway.Pool.Ring.Members.{Unused, Row}
use highway.Pool.Ring.Alike.{Alike, store_prev-Alike, Alike-same, Chain-Alike, Chain-head}

-- A push on a worker that has had none leaves nothing free.
push_work-Unused :
    (m : Member) (fresh func arg : ℕ)
    → Unused m
    → (w : Worker) × (push_work m.work fresh func arg ≡ ret w) × (w.work_free ≡ null)
unfolding push_work work_new put
push_work-Unused m fresh func arg (free, last) =
    let w = put m.work fresh (record { func = func; arg = arg; next = null }) in
    (
      record w { work_next = fresh; work_last = fresh },
      >>=-ret _ _ (fresh, w)
            (if_true (m.work.work_free == null) _ _ ((==_iff m.work.work_free null).1 free))
          ∙ if_true (m.work.work_last == null) _ _ ((==_iff m.work.work_last null).1 last),
      free,
    )

-- The workers once the first has moved to the end.
record Moved (pool pool' : Pool) (qs : List ℕ) : Type 0 where
  first : Member
  first_found : pool'.members pool.worker_first ≡ some first
  first_unused : Unused first
  first_next : first.next ≡ pool'.worker_first
  last : Member
  last_found : pool'.members pool.worker_last ≡ some last
  last_unused : Unused last
  last_next : last.next ≡ pool.worker_first
  between : Chain Unused pool'.members pool'.worker_first qs pool.worker_last
  before : Chain Unused pool.members pool'.worker_first qs pool.worker_last

rotate-Moved :
    (pool : Pool) (p : ℕ) (qs : List ℕ)
    → Row pool (p ∷ qs)
    → Lacks pool.worker_first qs
    → (pool' : Pool) × (rotate pool ≡ ret (pool.worker_first, pool')) × Moved pool pool' qs
unfolding rotate
rotate-Moved pool p qs row lacks =
    let wf = pool.worker_first in
    let l = pool.worker_last in
    let (here, ne, (m, found, unused, rest)) = row.chain in
    let wf_ne : wf ≢ null = λ e. ne (sym here ∙ e) in
    let wf_found : pool.members wf ≡ some m = ap pool.members here ∙ found in
    let wf_l : wf ≢ l = λ e. row.alone.0 (sym here ∙ e) in
    let n = m.next in
    let (n_ne, (f, n_found)) =
      Chain-head pool.members n qs l row.member rest row.exists row.found in
    let pool1 = store pool n (some (record f { prev = null })) in
    let alike : (q : ℕ) → Alike pool.members pool1.members q =
      λ q. store_prev-Alike pool n null f q n_found in
    let (l1, l1_found, l1_next, l1_work) = alike l row.member row.found in
    let linked : Member = record l1 { next = wf } in
    let pool2 = store pool1 l (some linked) in
    let (m1, m1_found, m1_next, m1_work) = alike wf m wf_found in
    let moved : Member = record m1 { prev = l } in
    let moved_found = store-KeepsBut pool1 l (some linked) wf wf_l ∙ m1_found in
    let pool3 = store pool2 wf (some moved) in
    let pool' = record pool3 { worker_first = n; worker_last = wf } in
    (
      pool',
      >>=-ret _ _ m (get_found pool wf m wf_ne wf_found)
          ∙ >>=-ret _ _ f (get_found pool n f n_ne n_found)
          ∙ >>=-ret _ _ l1 (get_found pool1 l l1 row.exists l1_found)
          ∙ >>=-ret _ _ m1 (get_found pool2 wf m1 wf_ne moved_found),
      record {
        first = moved;
        first_found = store_self pool2 wf (some moved);
        first_unused =
            (ap (λ w. w.work_free) m1_work ∙ unused.0, ap (λ w. w.work_last) m1_work ∙ unused.1);
        first_next = m1_next;
        last = linked;
        last_found =
            store-KeepsBut pool2 wf (some moved) l (λ e. wf_l (sym e))
            ∙ store_self pool1 l (some linked);
        last_unused = (
          ap (λ w. w.work_free) l1_work ∙ row.unused.0,
          ap (λ w. w.work_last) l1_work ∙ row.unused.1,
        );
        last_next = refl;
        between =
            Chain-Alike pool.members pool'.members n qs l
              (All-both (λ q. q ≢ wf) (λ q. q ≢ l) (Alike pool.members pool'.members) qs
                (λ q q_wf q_l.
                  Alike-same pool.members pool1.members pool'.members q
                    (store-KeepsBut pool2 wf (some moved) q q_wf
                      ∙ store-KeepsBut pool1 l (some linked) q q_l)
                    (alike q))
                lacks row.alone.1)
              rest;
        before = rest;
      },
    )

-- The workers behind a push: the first of them stands last, and is still linked to the next, which
-- is the first now.
pub record Circle (pool pool' : Pool) (qs : List ℕ) : Type 0 where
  pub begins : Chain Unused pool.members pool'.worker_first qs pool.worker_last
  pub circle :
      Chain NoneFree pool'.members pool'.worker_first
        (qs ++ pool.worker_last ∷ pool.worker_first ∷ [])
        pool'.worker_first

pub pool_push-Circle :
    (pool : Pool) (p : ℕ) (qs : List ℕ) (fresh func arg : ℕ)
    → Row pool (p ∷ qs)
    → Lacks pool.worker_first qs
    → (pool' : Pool) × (pool_push pool fresh func arg ≡ ret pool') × Circle pool pool' qs
unfolding pool_push store
pool_push-Circle pool p qs fresh func arg row lacks =
    let wf = pool.worker_first in
    let l = pool.worker_last in
    let (pool', rotated, moved) = rotate-Moved pool p qs row lacks in
    let n = pool'.worker_first in
    let (w, pushed, none_free) = push_work-Unused moved.first fresh func arg moved.first_unused in
    let busy : Member = record (moved.first) { work = w } in
    let pool4 = store pool' wf (some busy) in
    let wf_ne : wf ≢ null = λ e. row.chain.1 (sym row.chain.0 ∙ e) in
    let l_wf : l ≢ wf = λ e. row.alone.0 (sym row.chain.0 ∙ sym e) in
    (
      pool4,
      >>=-ret _ _ (wf, pool') rotated
          ∙ >>=-ret _ _ moved.first (get_found pool' wf moved.first wf_ne moved.first_found)
          ∙ >>=-ret _ _ w pushed,
      record {
        begins = moved.before;
        circle =
            Chain-append NoneFree pool4.members n qs (l ∷ wf ∷ []) l n
              (Chain-same NoneFree pool'.members pool4.members n qs l
                (Lacks-KeepsBut wf pool'.members pool4.members qs
                  (store-KeepsBut pool' wf (some busy)) lacks)
                (Chain-map Unused NoneFree pool'.members n qs l (λ m u. u.0) moved.between))
              (
                refl,
                row.exists,
                (
                  moved.last,
                  store-KeepsBut pool' wf (some busy) l l_wf ∙ moved.last_found,
                  moved.last_unused.0,
                  (
                    moved.last_next,
                    wf_ne,
                    (busy, store_self pool' wf (some busy), none_free, moved.first_next),
                  ),
                ),
              );
      },
    )
