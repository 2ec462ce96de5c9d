-- ===== src/Request/Body/Account.antt =====
-- What a read leaves of the content length.
use mathlib.Core.Path.{subst}
use highway.Prelude.{
  ret-injective, ℕ, zero, suc, ◌+◌, ◌-◌, ◌≤◌, ◌≡◌, refl, sym, ap, ◌∙◌, false, Bytes, length, take,
  drop, Option, none, some, Outcome, ret, fault, hang, ◌>>=◌, >>=-eq-ret, arith, ltb, ◌==◌,
  if◌then◌else◌, inl, inr, Bool-cases,
}
use highway.Prelude.Int.{ℤ, pos, negsuc, ◌-ℤ◌, ◌≤ℤ◌, eqb_ℤ, leb_ℤ, int_laws}
use highway.Memory.{mempy}
use highway.Env.{Env, Laws}
use highway.Client.{client_recv}
use highway.Client.Receive.{client_recv-le}
use highway.Request.{Request}
use highway.Request.Body.{
  copy_ahead, take_read_ahead, take_socket, account, clamp, counted, request_recv,
}

-- What is taken and what is left to take add up, and the content length is as before.
Taken : Request → ℕ → ℕ × ℕ × Bytes × Request → Type 0
Taken req n (result, left, dest, req') =
    (result + left ≡ n) × (req'.content_length_remaining ≡ req.content_length_remaining)

copied-Taken :
    (req req1 : Request) (n k : ℕ) (w : Outcome (Option ℕ × Bytes)) (r : ℕ × ℕ × Bytes × Request)
    → k ≤ n
    → req1.content_length_remaining ≡ req.content_length_remaining
    → ◌>>=◌ {B = ℕ × ℕ × Bytes × Request} w (λ (to, dest'). ret (k, n - k, dest', req1)) ≡ ret r
    → Taken req n r
unfolding Taken
copied-Taken req req1 n k (ret (to, dest')) (a, b, d, req2) le same e =
    let e1 : k ≡ a = cc in
    let e2 : n - k ≡ b = cc in
    let e3 : req1 ≡ req2 = cc in (omega arith, ap (λ q. q.content_length_remaining) (sym e3) ∙ same)
copied-Taken req req1 n k fault r le same e = cc
copied-Taken req req1 n k hang r le same e = cc

copy_ahead-Taken :
    (req : Request) (dest : Bytes) (n k : ℕ) (r : ℕ × ℕ × Bytes × Request)
    → k ≤ n
    → copy_ahead req dest n k ≡ ret r
    → Taken req n r
unfolding copy_ahead
copy_ahead-Taken req dest n k r le e =
    elim (Bool-cases (ltb (length req.memory.ptr) (req.read_ahead + k))) [
      | inl t ↦ let e' : ◌≡◌ {A = Outcome (ℕ × ℕ × Bytes × Request)} fault (ret r) = rw t at e in cc
      | inr f ↦
          copied-Taken req
            (record req {
              read_ahead_length = req.read_ahead_length - k;
              read_ahead = req.read_ahead + k;
            })
            n k (mempy (take k (drop req.read_ahead req.memory.ptr)) dest 0 n) r le refl (rw f at e)
    ]

take_read_ahead-Taken :
    (req : Request) (dest : Bytes) (n : ℕ) (r : ℕ × ℕ × Bytes × Request)
    → take_read_ahead req dest n ≡ ret r
    → Taken req n r
unfolding take_read_ahead Taken
take_read_ahead-Taken req dest n r e = elim (Bool-cases (req.read_ahead_length == 0)) [
  | inl t ↦
      subst (Taken req n)
        (ret-injective (
          let e' : ◌≡◌ {A = Outcome (ℕ × ℕ × Bytes × Request)} (ret (0, n, dest, req)) (ret r) =
            rw t at e in
          e'))
        (omega arith, refl)
  | inr t ↦
      let k = if ltb n req.read_ahead_length then n else req.read_ahead_length in
      copy_ahead-Taken req dest n k r (ground arith) (rw t at e)
]

clamp-le :
    (remaining : ℤ) (n : ℕ)
    → leb_ℤ remaining (pos 0) ≡ false
    → (clamp remaining n ≤ n) × (pos (clamp remaining n) ≤ℤ remaining)
unfolding clamp
clamp-le (pos k) n h = (ground arith, ground arith)
clamp-le (negsuc k) n h = (ground arith, ground arith)

-- What a read that answers `r` for a request for `n` leaves of the content length.
unfoldable pub Accounts : Request → ℕ → ℕ → Request → Type 0
Accounts req n r req' =
    (r ≤ n)
    × (pos r ≤ℤ req.content_length_remaining)
    × (req'.content_length_remaining ≡ req.content_length_remaining -ℤ pos r)

module _ (env : Env) (laws : Laws env) where
  read_counted :
      (req : Request) (n result left : ℕ) (req1 : Request)
      (m : Outcome (Option ℕ × Bytes × env.Conn)) (r : ℕ) (dest' : Bytes) (req' : Request)
      (c' : env.Conn)
      → result + suc left ≡ n
      → req1.content_length_remaining ≡ req.content_length_remaining
      → ((k : ℕ) (block' : Bytes) (c1 : env.Conn) → m ≡ ret (some k, block', c1) → k ≤ suc left)
      → (m >>= λ got. ret (counted env result req1 got)) ≡ ret (some r, dest', req', c')
      → (r ≤ n) × (req'.content_length_remaining ≡ req.content_length_remaining)
  unfolding counted
  read_counted req n result left req1 (ret (some k, block', c1)) r dest' req' c' adds same fits e =
      let e1 : result + k ≡ r = cc in
      let e2 : req1 ≡ req' = cc in
      (omega (arith, fits k block' c1 refl), ap (λ q. q.content_length_remaining) (sym e2) ∙ same)
  read_counted req n result left req1 (ret (none, block', c1)) r dest' req' c' adds same fits e = cc
  read_counted req n result left req1 fault r dest' req' c' adds same fits e = cc
  read_counted req n result left req1 hang r dest' req' c' adds same fits e = cc

  -- `take_socket` for a copy that took `result` and left `left`.
  take_socket-le :
      (req : Request) (n : ℕ) (t : ℕ × ℕ × Bytes × Request) (c : env.Conn) (r : ℕ) (dest' : Bytes)
      (req' : Request) (c' : env.Conn)
      → Taken req n t
      → take_socket env t c ≡ ret (some r, dest', req', c')
      → (r ≤ n) × (req'.content_length_remaining ≡ req.content_length_remaining)
  unfolding take_socket Taken
  take_socket-le req n (result, zero, dest, req1) c r dest' req' c' (adds, same) e =
      let e1 : result ≡ r = cc in
      let e2 : req1 ≡ req' = cc in
      (omega arith, ap (λ q. q.content_length_remaining) (sym e2) ∙ same)
  take_socket-le req n (result, suc left, dest, req1) c r dest' req' c' (adds, same) e =
      read_counted req n result left req1 (client_recv env c dest 0 (suc left)) r dest' req' c' adds
        same (λ k block' c1 got. client_recv-le env laws c dest 0 (suc left) k block' c1 got) e

  accounted :
      (req : Request) (n m : ℕ) (w : Outcome (Option ℕ × Bytes × Request × env.Conn)) (r : ℕ)
      (dest' : Bytes) (req' : Request) (c' : env.Conn)
      → (m ≤ n) × (pos m ≤ℤ req.content_length_remaining)
      → ((r1 : ℕ) (d1 : Bytes) (q1 : Request) (c1 : env.Conn)
          → w ≡ ret (some r1, d1, q1, c1)
          → (r1 ≤ m) × (q1.content_length_remaining ≡ req.content_length_remaining))
      → (w >>= λ x. ret (account env x)) ≡ ret (some r, dest', req', c')
      → Accounts req n r req'
  unfolding account Accounts
  accounted req n m (ret (some r1, d1, q1, c1)) r dest' req' c' (le, below) fits e =
      let e1 : r1 ≡ r = cc in
      let e2 : record q1 { content_length_remaining = q1.content_length_remaining -ℤ pos r1 }
          ≡ req' =
        cc in
      let (fit, same) = fits r1 d1 q1 c1 refl in
      (
        omega arith,
        omega int_laws,
        ap (λ q. q.content_length_remaining) (sym e2)
            ∙ ap (λ z. z -ℤ pos r1) same
            ∙ ap (λ k. req.content_length_remaining -ℤ pos k) e1,
      )
  accounted req n m (ret (none, d1, q1, c1)) r dest' req' c' h fits e = cc
  accounted req n m fault r dest' req' c' h fits e = cc
  accounted req n m hang r dest' req' c' h fits e = cc

  -- A read that answers a positive number or 0 answers no more than it was asked for and no more
  -- than the content length has left, and takes as much off the content length.
  pub request_recv-Accounts :
      (req : Request) (c : env.Conn) (dest : Bytes) (n r : ℕ) (dest' : Bytes) (req' : Request)
      (c' : env.Conn)
      → request_recv env req c dest (pos (suc n)) ≡ ret (some r, dest', req', c')
      → Accounts req (suc n) r req'
  unfolding request_recv
  request_recv-Accounts req c dest n r dest' req' c' e =
      elim (Bool-cases (eqb_ℤ req.content_length (pos 0))) [
        | inl t ↦
            let e' : ◌≡◌ {A = Outcome (Option ℕ × Bytes × Request × env.Conn)}
                (ret (none, dest, req, c)) (ret (some r, dest', req', c')) =
              rw t at e in
            cc
        | inr t ↦ elim (Bool-cases (leb_ℤ req.content_length_remaining (pos 0))) [
          | inl u ↦
              let e' : ◌≡◌ {A = Outcome (Option ℕ × Bytes × Request × env.Conn)}
                  (ret (none, dest, req, c)) (ret (some r, dest', req', c')) =
                rw (t, u) at e in
              cc
          | inr u ↦
              let k = clamp req.content_length_remaining (suc n) in
              let (t1, copied, e1) =
                >>=-eq-ret {B = Option ℕ × Bytes × Request × env.Conn} (take_read_ahead req dest k)
                  (λ t1. take_socket env t1 c >>= λ x. ret (account env x)) (rw (t, u) at e) in
              accounted req (suc n) k (take_socket env t1 c) r dest' req' c'
                (clamp-le req.content_length_remaining (suc n) u)
                (λ r1 d1 q1 c1.
                  take_socket-le req k t1 c r1 d1 q1 c1
                    (take_read_ahead-Taken req dest k t1 copied))
                e1
        ]
      ]
