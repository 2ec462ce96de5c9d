-- ===== src/Request/Body/ReadAhead.antt =====
-- A read that the read-ahead data serves, and one that it serves in part.
use highway.Prelude.{
  ℕ, zero, suc, ◌+◌, ◌-◌, ◌≤◌, ◌<◌, ◌≡◌, ◌≢◌, refl, sym, ap, ◌∙◌, false, Bytes, length, take, drop,
  some, ret, ◌>>=◌, arith, ap_at, ltb, ==-ne, lt→leb, le→ltb, length-take, length-drop,
  if◌then◌else◌,
}
use highway.Prelude.Int.{ℤ, pos, negsuc, ◌-ℤ◌, eqb_ℤ, leb_ℤ}
use highway.Memory.Write.{overwrite, mempy-overwrite, length-overwrite}
use highway.Env.{Env}
use highway.Client.Receive.{client_recv-some}
use highway.Request.{Request}
use highway.Request.Body.{copy_ahead, take_read_ahead, take_socket, account, clamp, request_recv}

-- The read-ahead data that is left lies in the memory.
pub record HasReadAhead (req : Request) : Type 0 where
  pub inside : req.read_ahead + req.read_ahead_length ≤ length req.memory.ptr

-- The next `k` bytes that were read ahead.
abbrev pub ahead : Request → ℕ → Bytes
ahead req k = take k (drop req.read_ahead req.memory.ptr)

-- The request once they are read.
abbrev pub advance : Request → ℕ → Request
advance req k = record req {
  read_ahead_length = req.read_ahead_length - k;
  read_ahead = req.read_ahead + k;
}

length-ahead :
    (req : Request) (k : ℕ)
    → HasReadAhead req
    → k ≤ req.read_ahead_length
    → length (ahead req k) ≡ k
length-ahead req k h le = omega (
  arith,
  length-take k (drop req.read_ahead req.memory.ptr),
  length-drop req.read_ahead req.memory.ptr,
  h.inside,
)

take_read_ahead-part :
    (req : Request) (dest : Bytes) (n k : ℕ)
    → HasReadAhead req
    → 0 < k
    → k ≡ (if ltb n req.read_ahead_length then n else req.read_ahead_length)
    → k ≤ n
    → k ≤ req.read_ahead_length
    → k ≤ length dest
    → take_read_ahead req dest n ≡ ret (k, n - k, overwrite dest 0 (ahead req k), advance req k)
unfolding take_read_ahead copy_ahead
take_read_ahead-part req dest n k h some_byte e le lr ld =
    let size = length-ahead req k h lr in
    let inside : ltb (length req.memory.ptr) (req.read_ahead + k) ≡ false =
      le→ltb _ _ (omega (arith, h.inside, lr)) in
    rw (==-ne req.read_ahead_length 0 (omega arith), ← e, inside)
      (rw (mempy-overwrite (ahead req k) dest 0 n (omega arith) (omega arith) (omega arith)))

eqb_ne : (a : ℤ) → a ≢ pos 0 → eqb_ℤ a (pos 0) ≡ false
eqb_ne (pos zero) h = absurd (h refl)
eqb_ne (pos (suc n)) h = ==-ne _ _ (omega arith)
eqb_ne (negsuc n) h = ==-ne _ _ (omega arith)

clamp_pos : (remaining n m : ℕ) → m ≡ clamp (pos (suc remaining)) (suc n) → 0 < m
unfolding clamp
clamp_pos remaining n m e = ground arith

le→if : (n k : ℕ) → n ≤ k → (if ltb n k then n else k) ≡ n
le→if n k h = ground arith

lt→if : (n k : ℕ) → k < n → (if ltb n k then n else k) ≡ k
lt→if n k h = ground arith

module _ (env : Env) where
  -- A read of `n` bytes, of which the content length leaves `m`, all of them read ahead: it answers
  -- `m`, the destination starts with the next `m` bytes, they are taken from the read-ahead data
  -- and from what remains, and the socket is not read.
  pub request_recv-ahead :
      (req : Request) (c : env.Conn) (dest : Bytes) (n remaining m : ℕ)
      → HasReadAhead req
      → req.content_length ≢ pos 0
      → req.content_length_remaining ≡ pos (suc remaining)
      → m ≡ clamp (pos (suc remaining)) (suc n)
      → m ≤ req.read_ahead_length
      → m ≤ length dest
      → request_recv env req c dest (pos (suc n))
        ≡ ret (
          some m,
          overwrite dest 0 (ahead req m),
          record (advance req m) {
            content_length_remaining = req.content_length_remaining -ℤ pos m;
          },
          c,
        )
  unfolding request_recv take_socket account
  request_recv-ahead req c dest n remaining m h cl e em lr ld =
      let open_length = eqb_ne req.content_length cl in
      let left : leb_ℤ req.content_length_remaining (pos 0) ≡ false =
        ap (λ z. leb_ℤ z (pos 0)) e ∙ lt→leb (suc remaining + 0) (0 + 0) (omega arith) in
      let clamped : clamp req.content_length_remaining (suc n) ≡ m =
        ap (λ z. clamp z (suc n)) e ∙ sym em in
      let some_byte = clamp_pos remaining n m em in
      let copied =
        take_read_ahead-part req dest m m h some_byte (sym (le→if m req.read_ahead_length lr))
          (omega arith) lr ld in
      rw (open_length, left, clamped, copied)
        (ap_at
          (λ k. take_socket env (m, k, overwrite dest 0 (ahead req m), advance req m) c >>= λ x.
            ret (account env x))
          (m - m) 0 (omega arith))

  take_socket-reads :
      (result n : ℕ) (dest bs : Bytes) (req : Request) (c c' : env.Conn)
      → 0 < n
      → env.recv c n ≡ (some bs, c')
      → length bs ≤ length dest
      → take_socket env (result, n, dest, req) c
        ≡ ret (some (result + length bs), overwrite dest 0 bs, req, c')
  unfolding take_socket
  take_socket-reads result zero dest bs req c c' some_byte r fits = absurd (omega arith)
  take_socket-reads result (suc n) dest bs req c c' some_byte r fits =
      rw (client_recv-some env c dest 0 (suc n) bs c' some_byte r (omega arith))

  -- A read of which the first `k` bytes were read ahead, and the rest come from the socket: the
  -- socket's bytes are written over the start of the destination, where the first `k` bytes were
  -- put, and are counted as if they stood behind them.
  pub request_recv-mixed :
      (req : Request) (c c' : env.Conn) (dest bs : Bytes) (n remaining m k : ℕ)
      → HasReadAhead req
      → req.content_length ≢ pos 0
      → req.content_length_remaining ≡ pos (suc remaining)
      → m ≡ clamp (pos (suc remaining)) (suc n)
      → k ≡ req.read_ahead_length
      → 0 < k
      → k < m
      → m ≤ length dest
      → env.recv c (m - k) ≡ (some bs, c')
      → length bs ≤ m - k
      → request_recv env req c dest (pos (suc n))
        ≡ ret (
          some (k + length bs),
          overwrite (overwrite dest 0 (ahead req k)) 0 bs,
          record (advance req k) {
            content_length_remaining = req.content_length_remaining -ℤ pos (k + length bs);
          },
          c',
        )
  unfolding request_recv account
  request_recv-mixed req c c' dest bs n remaining m k h cl e em ek some_byte lt ld r fits =
      let open_length = eqb_ne req.content_length cl in
      let left : leb_ℤ req.content_length_remaining (pos 0) ≡ false =
        ap (λ z. leb_ℤ z (pos 0)) e ∙ lt→leb (suc remaining + 0) (0 + 0) (omega arith) in
      let clamped : clamp req.content_length_remaining (suc n) ≡ m =
        ap (λ z. clamp z (suc n)) e ∙ sym em in
      let copied =
        take_read_ahead-part req dest m k h some_byte
          (ek ∙ sym (lt→if m req.read_ahead_length (omega arith))) (omega arith) (omega arith)
          (omega arith) in
      let size =
        length-overwrite dest 0 (ahead req k) (omega (arith, length-ahead req k h (omega arith))) in
      rw (open_length, left, clamped, copied)
        (rw (
          take_socket-reads k (m - k) (overwrite dest 0 (ahead req k)) bs (advance req k) c c'
            (omega arith) r (omega arith)))
