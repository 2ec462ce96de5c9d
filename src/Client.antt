-- ===== src/Client.antt =====
-- The sockets' reads and writes (core/src/hiw_socket.c) and those of a client
-- (core/src/hiw_server.c). The pointers that are given are not NULL.
pub mod Delivery
pub mod Receive
pub mod Whole
use highway.Prelude.{
  ℕ, zero, suc, ◌-◌, Bool, true, false, [], ◌++◌, Bytes, length, take, Option, none, some, Outcome,
  ret, hang, ◌>>=◌, ◌==◌, if◌then◌else◌,
}
use highway.Env.{Env}
use highway.Memory.{write}

module _ (env : Env) where
  open env use {Conn, recv, send}

  unfoldable pub socket_recv : Conn → ℕ → Option Bytes × Conn
  socket_recv s len = if len == 0 then (some [], s) else recv s len

  -- `len` is `length src`
  unfoldable pub socket_send : Conn → Bytes → Option ℕ × Conn
  socket_send s src = if length src == 0 then (some 0, s) else send s src

  -- `hiw_socket_recv_all` with a number of rounds: the bytes read so far, and the result.
  pub recv_all_loop : ℕ → Conn → ℕ → ℕ → Bytes → Outcome (ℕ × Bytes × Conn)
  recv_all_loop zero s len bytes_left dest = hang
  recv_all_loop (suc rounds) s len bytes_left dest =
      let (got, s') = recv s bytes_left in
      if bytes_left == 0 then ret (len, dest, s) else elim got [
        | none ↦ ret (len - bytes_left, dest, s')
        | some bs ↦ recv_all_loop rounds s' len (bytes_left - length bs) (dest ++ bs)
      ]

  -- What `recv` wrote to a block at offset `dest`.
  unfoldable pub receive : Bytes → ℕ → Option Bytes × Conn → Outcome (Option ℕ × Bytes × Conn)
  receive block dest (none, c) = ret (none, block, c)
  receive block dest (some bs, c) = do
    block' ← write block dest bs
    ret (some (length bs), block', c)

  -- `hiw_client_recv` into a block of memory at offset `dest`, with what is returned.
  unfoldable pub client_recv : Conn → Bytes → ℕ → ℕ → Outcome (Option ℕ × Bytes × Conn)
  unfolding receive
  client_recv c block dest len = receive block dest (socket_recv c len)

  -- `while (bytes_left > 0)`, with a number of rounds; `src` does not move.
  pub sendall_loop : ℕ → Conn → Bytes → ℕ → Outcome (Bool × Conn)
  unfolding socket_send
  sendall_loop zero c src bytes_left = hang
  sendall_loop (suc rounds) c src bytes_left =
      let (took, c') = socket_send c (take bytes_left src) in
      if bytes_left == 0 then ret (true, c) else elim took [
        | none ↦ ret (false, c')
        | some zero ↦ ret (false, c')
        | some (suc n) ↦ sendall_loop rounds c' src (bytes_left - suc n)
      ]

  -- `hiw_client_sendall`: `true` is the answer `len`, the length of `src`, and `false` is -1.
  unfoldable pub client_sendall : Conn → Bytes → Outcome (Bool × Conn)
  unfolding sendall_loop
  client_sendall c src = sendall_loop (suc (length src)) c src (length src)
