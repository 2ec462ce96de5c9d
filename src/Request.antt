-- ===== src/Request.antt =====
-- The request of servlet/src/hiw_servlet.c: its state, how it is reset, and the status line.
pub mod StatusLine
pub mod Headers
pub mod Body
use highway.Prelude.{
  ℕ, ◌+◌, Bool, true, false, List, [], ◌∷◌, Bytes, length, codes, Option, none, some, Outcome, ret,
  fault, ◌>>=◌, ◌==◌, if◌then◌else◌,
}
use highway.Prelude.Int.{ℤ, pos, negsuc}
use highway.Text.{HiwString, empty, rtrim, split, cmpc}
use highway.Memory.{Memory, fixed_init, reset}

-- `hiw_header`
pub record Header : Type 0 where
  pub name : HiwString
  pub value : HiwString

-- `struct hiw_request`, without the pointers to the thread and the client: the client's connection
-- is passed beside it. `headers.count` is the length of the list. `read_ahead` is a distance from
-- the start of the memory.
pub record Request : Type 0 where
  pub method : HiwString
  pub uri : HiwString
  pub headers : List Header
  pub content_length : ℤ
  pub memory : Memory
  pub read_ahead : ℕ
  pub read_ahead_length : ℕ
  pub connection_close : Bool
  pub content_length_remaining : ℤ

-- What `hiw_internal_request_init` leaves unset is taken as empty: `request_reset` sets it.
unfoldable pub request_init : Bytes → Request
unfolding fixed_init
request_init memory_fixed = record {
  method = empty;
  uri = empty;
  headers = [];
  content_length = pos 0;
  memory = fixed_init memory_fixed;
  read_ahead = 0;
  read_ahead_length = 0;
  connection_close = true;
  content_length_remaining = pos 0;
}

unfoldable pub request_reset : Request → Request
unfolding reset
request_reset req = record req {
  headers = [];
  uri = record (req.uri) { length = 0 };
  method = record (req.method) { length = 0 };
  read_ahead = 0;
  read_ahead_length = 0;
  connection_close = true;
  content_length = negsuc 0;
  content_length_remaining = pos 0;
  memory = reset req.memory;
}

-- The method, the URI and the version of a split status line.
pub parse_parts : Request → List HiwString → Outcome (Bool × Request)
parse_parts req (method ∷ uri ∷ version ∷ []) = do
  http_version ← rtrim version
  supported ← cmpc http_version (codes "HTTP/1.1") 8
  if supported
      then (do m ← rtrim method; u ← rtrim uri; ret (true, record req { method = m; uri = u }))
      else ret (false, req)
parse_parts req _ = ret (false, req)

unfoldable pub parse_status_line : Request → HiwString → Outcome (Bool × Request)
unfolding parse_parts
parse_status_line req line =
    if line.length == 0
    then ret (false, req)
    else do parts ← split line b' ' 3; parse_parts req parts
