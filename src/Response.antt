-- ===== src/Response.antt =====
-- The response of servlet/src/hiw_servlet.c: its state, and the headers that are written to memory.
pub mod Send
pub mod Wire
use highway.Prelude.{
  ℕ, ◌+◌, ◌-◌, Bool, true, false, ◌||◌, List, [], ◌∷◌, ◌++◌, Bytes, length, codes, Option, none,
  some, Outcome, ret, fault, ◌>>=◌, leb, ◌==◌, if◌then◌else◌, access,
}
use highway.Prelude.Int.{ℤ, pos, negsuc, eqb_ℤ}
use highway.Text.{HiwString, bytes, string_const, string_set, cmp}
use highway.Number.{uitoc, uint_mod}
use highway.Memory
use highway.Memory.{Memory, fixed_init, reset, mempy}
use highway.Env.{Env}
use highway.Request.{Header}

-- `struct hiw_response`, without the pointers to the thread and the client. The bits of `flags` are
-- the fields from `error` to `status_code_set`.
pub record Response : Type 0 where
  pub headers : List Header
  pub memory : Memory
  pub error : Bool
  pub headers_sent : Bool
  pub content_length_set : Bool
  pub connection_set : Bool
  pub status_code_set : Bool
  pub connection_close : Bool
  pub status_code : ℤ
  pub content_length : ℤ
  pub content_bytes_left : ℤ

-- What `hiw_internal_response_init` leaves unset is taken as zero: `response_reset` sets it.
unfoldable pub response_init : Bytes → Response
unfolding fixed_init
response_init memory_fixed = record {
  headers = [];
  memory = fixed_init memory_fixed;
  error = false;
  headers_sent = false;
  content_length_set = false;
  connection_set = false;
  status_code_set = false;
  connection_close = true;
  status_code = pos 0;
  content_length = pos 0;
  content_bytes_left = pos 0;
}

unfoldable pub response_reset : Response → Response
unfolding reset
response_reset resp = record {
  headers = [];
  memory = reset resp.memory;
  error = false;
  headers_sent = false;
  content_length_set = false;
  connection_set = false;
  status_code_set = false;
  connection_close = true;
  status_code = pos 0;
  content_length = negsuc 0;
  content_bytes_left = pos 0;
}

-- `hiw_internal_response_error`, and `hiw_internal_response_out_of_memory`, which also logs.
abbrev pub response_error : Response → Bool × Response
response_error resp = (false, record resp { error = true })

-- `if (!call) return hiw_internal_response_error(resp);`
abbrev pub or_error :
    Outcome (Bool × Response) → (Response → Outcome (Bool × Response)) → Outcome (Bool × Response)
or_error call k = do (done, resp) ← call; if done then k resp else ret (response_error resp)

-- What `*s` reads, all of the view.
pub load : HiwString → Outcome Bytes
load s = if leb s.length (length s.begin) then ret (bytes s) else fault

abbrev pub status_text : ℤ → Bytes
status_text status =
    if eqb_ℤ status (pos 200)
    then codes "200 OK\r\n"
    else if eqb_ℤ status (pos 400)
    then codes "400 Bad Request\r\n"
    else if eqb_ℤ status (pos 404)
    then codes "404 Not Found\r\n"
    else codes "418 I'm a teapot\r\n"

-- `hiw_string_cmp` with each header's name in turn
unfoldable pub already_added : List Header → HiwString → Outcome Bool
already_added [] name = ret false
already_added (h ∷ headers) name =
    let rest = already_added headers name in
    do same ← cmp h.name name; if same then ret true else rest

module _ (env : Env) where
  open env use {realloc, max_headers_count}

  -- `dest = hiw_memory_get(&resp->memory, n)`, and the copy of `src`'s `n` bytes to it. With no
  -- memory the answer is `hiw_internal_response_out_of_memory`.
  pub write_raw : Response → Bytes → Outcome (Bool × Response)
  unfolding mempy
  write_raw resp src = do
    (dest, memory) ← Memory.get realloc resp.memory (length src)
    elim dest [
      | none ↦ ret (response_error (record resp { memory = memory }))
      | some at_pos ↦ do
        (end, block) ← mempy src memory.ptr at_pos (length src)
        ret (true, record resp { memory = record memory { ptr = block } })
    ]

  pub write_status_code : Response → Outcome (Bool × Response)
  unfolding write_raw
  write_status_code resp =
      or_error (write_raw resp (codes "HTTP/1.1 ")) λ r. write_raw r (status_text r.status_code)

  -- `if (!hiw_bit_test(…, status_code_set))`
  pub write_status_once : Response → Outcome (Bool × Response)
  unfolding write_status_code
  write_status_once resp =
      if resp.status_code_set
      then ret (true, resp)
      else or_error (write_status_code resp) λ r. ret (true, record r { status_code_set = true })

  -- The value of a header, and the entry in the list of headers.
  pub write_value : Response → Header → Outcome (Bool × Response)
  unfolding load write_raw
  write_value resp header = do
    value ← load header.value
    or_error (write_raw resp (value ++ codes "\r\n"))
        λ r. ret (true, record r { headers = r.headers ++ header ∷ [] })

  -- A header from its name on.
  pub write_pair : Response → Header → Outcome (Bool × Response)
  unfolding write_value
  write_pair resp header = do
    name ← load header.name
    or_error (write_raw resp name)
        λ r1. or_error (write_raw r1 (codes ": ")) λ r2. write_value r2 header

  -- A header that is not refused.
  pub write_line : Response → Header → Outcome (Bool × Response)
  unfolding write_status_once write_pair
  write_line resp header = or_error (write_status_once resp) λ r. write_pair r header

  pub write_header : Response → Header → Outcome (Bool × Response)
  unfolding write_line already_added
  write_header resp header =
      if resp.headers_sent
      then ret (response_error resp)
      else if leb max_headers_count (length resp.headers)
      then ret (response_error resp)
      else do
        added ← already_added resp.headers header.name
        if added
            then ret (response_error resp)
            else if eqb_ℤ resp.status_code (pos 0)
            then ret (response_error resp)
            else write_line resp header

  pub set_content_type : Response → HiwString → Outcome (Bool × Response)
  unfolding write_header
  set_content_type resp mime_type =
      write_header resp (record { name = string_const (codes "Content-Type"); value = mime_type })

  -- `(unsigned int)len`
  pub to_uint : ℤ → ℕ
  to_uint (pos n) = n
  to_uint (negsuc n) = uint_mod - 1 - n

  unfoldable pub set_content_length : Response → ℤ → Outcome (Bool × Response)
  unfolding write_header to_uint
  set_content_length resp len = if resp.content_length_set then ret (true, resp) else do
    temp ← access (uitoc 10 (to_uint len))
    or_error
        (write_header resp
          (record { name = string_const (codes "Content-Length"); value = string_const temp }))
        λ r. ret (
          true,
          record r { content_length = len; content_bytes_left = len; content_length_set = true },
        )

  unfoldable pub set_connection_close : Response → Bool → Outcome (Bool × Response)
  unfolding write_header
  set_connection_close resp close =
      if resp.connection_set
      then ret (true, resp)
      else or_error
          (write_header resp (record {
            name = string_const (codes "Connection");
            value =
                if close then string_const (codes "close") else string_const (codes "keep-alive");
          }))
          λ r. ret (true, record r { connection_set = true; connection_close = close })

unfoldable pub set_status_code : Response → ℤ → Bool × Response
set_status_code resp status =
    if resp.headers_sent
    then response_error resp
    else if resp.status_code_set
    then response_error resp
    else (true, record resp { status_code = status })
