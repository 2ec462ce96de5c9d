-- ===== src/Client/Receive.antt =====
-- What `hiw_client_recv` reads.
use highway.Prelude.{
  ◌∷◌, zero, suc, Ends, >>=-Ends, [], fault, hang, ℕ, ◌+◌, ◌≤◌, ◌<◌, ◌≡◌, refl, ap, ◌∙◌, Bytes,
  length, Option, none, some, Outcome, ret, ◌>>=◌, arith, ==-ne, ◌==◌, some, Bool-cases, inl, inr,
}
use highway.Memory.{write}
use highway.Memory.Write.{overwrite, write-overwrite}
use highway.Env.{Env, Laws}
use highway.Client.{socket_recv, receive, client_recv}

module _ (env : Env) where
  -- A `recv` that gets bytes which fit the block puts them there, and changes nothing else.
  pub client_recv-some :
      (c : env.Conn) (block : Bytes) (dest n : ℕ) (bs : Bytes) (c' : env.Conn)
      → 0 < n
      → env.recv c n ≡ (some bs, c')
      → dest + length bs ≤ length block
      → client_recv env c block dest n ≡ ret (some (length bs), overwrite block dest bs, c')
  unfolding client_recv socket_recv receive
  client_recv-some c block dest n bs c' some_byte r fits =
      let got : socket_recv env c n ≡ (some bs, c') = rw (==-ne n 0 (omega arith)) r in
      ap (receive env block dest) got ∙ rw (write-overwrite block dest bs fits)

module _ (env : Env) (laws : Laws env) where
  socket_recv-le :
      (c : env.Conn) (n : ℕ) (bs : Bytes) (c' : env.Conn)
      → socket_recv env c n ≡ (some bs, c')
      → length bs ≤ n
  unfolding socket_recv
  socket_recv-le c n bs c' e = elim (Bool-cases (n == 0)) [
    | inl t ↦
        let e' : ◌≡◌ {A = Option Bytes × env.Conn} (some [], c) (some bs, c') = rw t at e in
        let same : [] ≡ bs = cc in let none_read : 0 ≡ length bs = ap length same in omega arith
    | inr t ↦ laws.recv_le c n bs c' (rw t at e)
  ]

  written_count :
      (written : Outcome Bytes) (count k : ℕ) (block' : Bytes) (c1 c' : env.Conn)
      → ◌>>=◌ {B = Option ℕ × Bytes × env.Conn} written (λ after. ret (some count, after, c1))
        ≡ ret (some k, block', c')
      → count ≡ k
  written_count (ret after) count k block' c1 c' e = cc
  written_count fault count k block' c1 c' e = cc
  written_count hang count k block' c1 c' e = cc

  receive-le :
      (block : Bytes) (dest n k : ℕ) (block' : Bytes) (c' : env.Conn)
      (got : Option Bytes × env.Conn)
      → ((bs : Bytes) (c1 : env.Conn) → got ≡ (some bs, c1) → length bs ≤ n)
      → receive env block dest got ≡ ret (some k, block', c')
      → k ≤ n
  unfolding receive
  receive-le block dest n k block' c' (none, c1) fits e = cc
  receive-le block dest n k block' c' (some bs, c1) fits e =
      let same = written_count (write block dest bs) (length bs) k block' c1 c' e in
      omega (arith, fits bs c1 refl, same)

  -- It answers at most the room that it is given.
  pub client_recv-le :
      (c : env.Conn) (block : Bytes) (dest n k : ℕ) (block' : Bytes) (c' : env.Conn)
      → client_recv env c block dest n ≡ ret (some k, block', c')
      → k ≤ n
  unfolding client_recv
  client_recv-le c block dest n k block' c' =
      receive-le block dest n k block' c' (socket_recv env c n) (socket_recv-le c n)

write-same_length :
    (block : Bytes) (i : ℕ) (src : Bytes) → Ends (λ b. length b ≡ length block) (write block i src)
unfolding write
write-same_length block i [] = refl
write-same_length [] i (c ∷ src) = tt
write-same_length (b ∷ block) (suc i) (c ∷ src) =
    >>=-Ends (λ r. length r ≡ length block) (λ r. length r ≡ suc (length block))
      (write block i (c ∷ src)) (λ rest. ret (b ∷ rest)) (write-same_length block i (c ∷ src))
      (λ r h. omega arith)
write-same_length (b ∷ block) zero (c ∷ src) =
    >>=-Ends (λ r. length r ≡ length block) (λ r. length r ≡ suc (length block))
      (write block zero src) (λ rest. ret (c ∷ rest)) (write-same_length block zero src)
      (λ r h. omega arith)

-- What is answered fits the room that was given, and the block is as long as before.
abbrev pub Received : (C : Type 0) → Bytes → ℕ → Option ℕ × Bytes × C → Type 0
Received C block n (none, block', c) = length block' ≡ length block
Received C block n (some k, block', c) = (k ≤ n) × (length block' ≡ length block)

module _ (env : Env) (laws : Laws env) where
  receive-Received :
      (block : Bytes) (dest n : ℕ) (got : Option Bytes × env.Conn)
      → ((bs : Bytes) (c : env.Conn) → got ≡ (some bs, c) → length bs ≤ n)
      → Ends (Received env.Conn block n) (receive env block dest got)
  unfolding receive
  receive-Received block dest n (none, c) fits = refl
  receive-Received block dest n (some bs, c) fits =
      >>=-Ends (λ b. length b ≡ length block) (Received env.Conn block n) (write block dest bs)
        (λ b. ret (some (length bs), b, c)) (write-same_length block dest bs)
        (λ b h. (fits bs c refl, h))

  pub client_recv-Received :
      (c : env.Conn) (block : Bytes) (dest n : ℕ)
      → Ends (Received env.Conn block n) (client_recv env c block dest n)
  unfolding client_recv
  client_recv-Received c block dest n =
      receive-Received block dest n (socket_recv env c n) (socket_recv-le env laws c n)
