-- ===== src/Request/Body.antt =====
-- `hiw_request_recv` of servlet/src/hiw_servlet.c.
pub mod Account
pub mod ReadAhead
use highway.Prelude.{
  ℕ, zero, suc, ◌+◌, ◌-◌, Bytes, length, take, drop, Option, none, some, Outcome, ret, fault, ◌>>=◌,
  ltb, ◌==◌, if◌then◌else◌,
}
use highway.Prelude.Int.{ℤ, pos, negsuc, eqb_ℤ, leb_ℤ, ltb_ℤ, ◌-ℤ◌, pos_part}
use highway.Memory.{mempy}
use highway.Env.{Env}
use highway.Client.{client_recv}
use highway.Request.{Request}

-- `hiw_std_mempy` of `read_bytes` of the read-ahead data, and what follows.
pub copy_ahead : Request → Bytes → ℕ → ℕ → Outcome (ℕ × ℕ × Bytes × Request)
copy_ahead req dest n read_bytes =
    if ltb (length req.memory.ptr) (req.read_ahead + read_bytes) then fault else do
      (to, dest') ← mempy (take read_bytes (drop req.read_ahead req.memory.ptr)) dest 0 n
      ret (
        read_bytes,
        n - read_bytes,
        dest',
        record req {
          read_ahead_length = req.read_ahead_length - read_bytes;
          read_ahead = req.read_ahead + read_bytes;
        },
      )

-- The copy of read-ahead data: `result`, the `n` that is left, the destination and the request.
pub take_read_ahead : Request → Bytes → ℕ → Outcome (ℕ × ℕ × Bytes × Request)
unfolding copy_ahead
take_read_ahead req dest n =
    if req.read_ahead_length == 0
    then ret (0, n, dest, req)
    else copy_ahead req dest n (if ltb n req.read_ahead_length then n else req.read_ahead_length)

-- `n > req->content_length_remaining ? req->content_length_remaining : n`
unfoldable pub clamp : ℤ → ℕ → ℕ
clamp remaining n = if ltb_ℤ remaining (pos n) then pos_part remaining else n

module _ (env : Env) where
  open env use {Conn}

  -- `result += count;` for what the socket answered.
  unfoldable pub counted : ℕ → Request → Option ℕ × Bytes × Conn → Option ℕ × Bytes × Request × Conn
  counted result req (none, dest, c) = (none, dest, req, c)
  counted result req (some count, dest, c) = (some (result + count), dest, req, c)

  -- The rest from the socket: it is written to the start of `dest` too.
  pub take_socket : ℕ × ℕ × Bytes × Request → Conn → Outcome (Option ℕ × Bytes × Request × Conn)
  unfolding counted
  take_socket (result, zero, dest, req) c = ret (some result, dest, req, c)
  take_socket (result, suc n, dest, req) c = do
    got ← client_recv env c dest 0 (suc n)
    ret (counted result req got)

  -- `req->content_length_remaining -= result;`, unless -1 is returned before it.
  pub account : Option ℕ × Bytes × Request × Conn → Option ℕ × Bytes × Request × Conn
  account (none, dest, req, c) = (none, dest, req, c)
  account (some result, dest, req, c) = (
    some result,
    dest,
    record req { content_length_remaining = req.content_length_remaining -ℤ pos result },
    c,
  )

  -- `none` is -1, and `dest` is given by the bytes that it points at.
  pub request_recv : Request → Conn → Bytes → ℤ → Outcome (Option ℕ × Bytes × Request × Conn)
  unfolding take_read_ahead take_socket account clamp
  request_recv req c dest (negsuc n) = ret (none, dest, req, c)
  request_recv req c dest (pos zero) = ret (some 0, dest, req, c)
  request_recv req c dest (pos (suc n)) =
      if eqb_ℤ req.content_length (pos 0)
      then ret (none, dest, req, c)
      else if leb_ℤ req.content_length_remaining (pos 0)
      then ret (none, dest, req, c)
      else do
        copied ← take_read_ahead req dest (clamp req.content_length_remaining (suc n))
        (result, dest', req', c') ← take_socket copied c
        ret (account (result, dest', req', c'))
