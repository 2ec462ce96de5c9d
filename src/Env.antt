-- ===== src/Env.antt =====
-- What the build options and the operating system fix: parameters of the model.
use highway.Prelude.{ℕ, ◌≤◌, ◌≡◌, ◌++◌, Bytes, length, take, Option, none, some}
use highway.Prelude.Int.{ℤ}

pub record Env : Type 1 where
  -- HIW_MAX_HEADER_SIZE and HIW_MAX_HEADERS_COUNT
  pub max_header_size : ℕ
  pub max_headers_count : ℕ
  -- `realloc`; `none` is NULL
  pub realloc : Bytes → ℤ → Option Bytes
  -- a connected socket, as the operating system holds it
  pub Conn : Type 0
  -- `recv(s, dest, len, 0)`: the bytes that it writes to `dest`; `none` is -1
  pub recv : Conn → ℕ → Option Bytes × Conn
  -- `send(s, src, len, 0)`: how many bytes it takes; `none` is -1
  pub send : Conn → Bytes → Option ℕ × Conn

-- What is documented of `recv` and `send`.
pub record Laws (env : Env) : Type 0 where
  -- all that the socket has taken for the peer
  pub sent : env.Conn → Bytes
  -- no more than the room that is given
  pub recv_le :
      (c : env.Conn) (n : ℕ) (bs : Bytes) (c' : env.Conn)
      → env.recv c n ≡ (some bs, c')
      → length bs ≤ n
  pub recv_keeps : (c : env.Conn) (n : ℕ) → sent (env.recv c n).1 ≡ sent c
  -- the first bytes of what is given
  pub send_takes :
      (c : env.Conn) (bs : Bytes) (k : ℕ) (c' : env.Conn)
      → env.send c bs ≡ (some k, c')
      → (k ≤ length bs) × (sent c' ≡ sent c ++ take k bs)
  pub send_fails :
      (c : env.Conn) (bs : Bytes) (c' : env.Conn) → env.send c bs ≡ (none, c') → sent c' ≡ sent c
