-- ===== src/Client/Whole.antt =====
-- `hiw_socket_recv_all`, which reads until it has all that it was asked for.
use highway.Prelude.{
  ℕ, zero, suc, ◌-◌, ◌≤◌, ◌<◌, ◌≡◌, refl, sym, ap, ◌∙◌, inl, inr, [], ◌++◌, append-nil,
  append_assoc, Bytes, length, length-append, Option, none, some, Outcome, ret, hang, arith, ◌==◌,
  ==-ne, if_true, if_false, Bool-cases,
}
use highway.Env.{Env, Laws}
use highway.Client.{recv_all_loop}

module _ (env : Env) where
  open env use {Conn, recv}

  -- The peer has always more to send.
  abbrev pub KeepsSending : Type 0
  KeepsSending =
      (c : Conn) (n : ℕ)
      → 0 < n
      → (bs : Bytes) × (c' : Conn) × (recv c n ≡ (some bs, c')) × (0 < length bs)

  -- Nothing comes from the peer, and the socket stays as it is: the peer has closed the connection.
  abbrev pub IsClosed : Conn → Type 0
  IsClosed c = (n : ℕ) → recv c n ≡ (some [], c)

  -- One round that reads something, or nothing.
  recv_all_loop-step :
      (rounds : ℕ) (c : Conn) (len bytes_left : ℕ) (dest bs : Bytes) (c' : Conn)
      → 0 < bytes_left
      → recv c bytes_left ≡ (some bs, c')
      → recv_all_loop env (suc rounds) c len bytes_left dest
        ≡ recv_all_loop env rounds c' len (bytes_left - length bs) (dest ++ bs)
  unfolding recv_all_loop
  recv_all_loop-step rounds c len bytes_left dest bs c' missing read =
      if_false (bytes_left == 0) _ _ (==-ne bytes_left 0 (omega arith))
      ∙ ap
          (λ (r : Option Bytes × Conn). elim r.0 as (λ o. Outcome (ℕ × Bytes × Conn)) [
            | none ↦ ret (len - bytes_left, dest, r.1)
            | some got ↦ recv_all_loop env rounds r.1 len (bytes_left - length got) (dest ++ got)
          ])
          read

  -- After the peer has closed the connection, no number of rounds ends the loop of
  -- `hiw_socket_recv_all` while bytes are missing.
  pub recv_all_loop-hang :
      (rounds : ℕ) (c : Conn) (len bytes_left : ℕ) (dest : Bytes)
      → IsClosed c
      → 0 < bytes_left
      → recv_all_loop env rounds c len bytes_left dest ≡ hang
  unfolding recv_all_loop
  recv_all_loop-hang zero c len bytes_left dest closed missing = refl
  recv_all_loop-hang (suc rounds) c len bytes_left dest closed missing =
      recv_all_loop-step rounds c len bytes_left dest [] c missing (closed bytes_left)
      ∙ recv_all_loop-hang rounds c len (bytes_left - 0) (dest ++ []) closed (omega arith)

  module _ (laws : Laws env) (sending : KeepsSending) where
    -- From a peer that has always more to send, `hiw_socket_recv_all` reads as many bytes as it is
    -- asked for, in one round more than that at most.
    pub recv_all_loop-whole :
        (rounds : ℕ) (c : Conn) (len bytes_left : ℕ) (dest : Bytes)
        → bytes_left < rounds
        → (got : Bytes) × (c' : Conn) × (recv_all_loop env rounds c len bytes_left dest
            ≡ ret (len, dest ++ got, c'))
          × (length got ≡ bytes_left)
    unfolding recv_all_loop
    recv_all_loop-whole zero c len bytes_left dest enough = absurd (omega arith)
    recv_all_loop-whole (suc rounds) c len bytes_left dest enough =
        elim (Bool-cases (bytes_left == 0)) [
          | inl t ↦ (
            [],
            c,
            if_true (bytes_left == 0) _ _ t ∙ ap (λ b. ret (len, b, c)) (sym (append-nil dest)),
            ground (arith, t),
          )
          | inr f ↦
              let missing : 0 < bytes_left = ground (arith, f) in
              let (bs, c', read, some_bytes) = sending c bytes_left missing in
              let fits : length bs ≤ bytes_left = laws.recv_le c bytes_left bs c' read in
              let (rest, c'', later, size) =
                recv_all_loop-whole rounds c' len (bytes_left - length bs) (dest ++ bs)
                  (omega arith) in
              (
                bs ++ rest,
                c'',
                recv_all_loop-step rounds c len bytes_left dest bs c' missing read
                    ∙ later
                    ∙ ap (λ b. ret (len, b, c'')) (append_assoc dest bs rest),
                omega (arith, size, length-append bs rest),
              )
        ]
