-- ===== src/Request/Headers.antt =====
-- `hiw_internal_request_read_headers` of servlet/src/hiw_servlet.c. Its outer loops take a number
-- of rounds.
pub mod LineEnds
pub mod AddHeader
pub mod OneLine
pub mod Fields
pub mod Chunk
pub mod RoundTrip
pub mod Ending
use highway.Prelude.{
  ℕ, zero, suc, ◌+◌, ◌-◌, Bool, true, false, List, [], ◌∷◌, ◌++◌, Bytes, length, drop, codes,
  Option, none, some, Outcome, ret, fault, hang, ◌>>=◌, access, ltb, leb, ◌==◌, if◌then◌else◌,
}
use highway.Prelude.Int.{ℤ}
use highway.Text.{HiwString, empty, string_set, readline, split, trim, cmpc, at}
use highway.Number.{toi}
use highway.Memory
use highway.Memory.{Memory}
use highway.Env.{Env}
use highway.Client.{client_recv}
use highway.Request.{Request, parse_status_line}

-- The loop's variables: `pos` by its distance from `memory->ptr`, and the two header values.
pub record Scan : Type 0 where
  pub request : Request
  pub pos : ℕ
  pub header_connection_close : Bool
  pub header_content_length : ℤ

-- How the lines of a chunk end: more data is wanted, the header ends, or it is refused.
pub data Lines : Type 0 where
  more : Scan → Lines
  done : Scan → Lines
  refused : Scan → Lines

-- `hiw_string_toi(header->value, &req->content_length)`
store_length : Option ℤ → Request → Request
store_length none req = req
store_length (some n) req = record req { content_length = n }

-- A line of two parts. The header is written to `headers[headers.count]`.
pub add_header : ℕ → Scan → HiwString → HiwString → HiwString → Outcome Scan
unfolding store_length
add_header max_headers_count s line name_part value_part =
    if ltb (length s.request.headers) max_headers_count
    then (do
      name ← trim name_part
      value ← trim value_part
      let req = record (s.request) {
        headers = s.request.headers ++ record { name = name; value = value } ∷ [];
      }
      let s' = record s { request = req; pos = s.pos + line.length + 1 }
      is_connection ← cmpc name (codes "Connection") 10
      is_content_length ← cmpc name (codes "Content-Length") 14
      if is_connection
          then (do
            close ← cmpc value (codes "close") 5
            ret (record s' { header_connection_close = close }))
          else if is_content_length
          then (do
            parsed ← toi value
            let req' = store_length parsed.stored req
            ret (record s' { request = req'; header_content_length = req'.content_length }))
          else ret s')
    else fault

-- `if (bytes_left > 0 && *pos == c) { pos++; bytes_left--; }`
pub skip_byte : ℕ → Bytes → ℕ → ℕ → Outcome (ℕ × ℕ)
skip_byte c block pos zero = ret (pos, 0)
skip_byte c block pos (suc left) = do
  b ← at block pos
  ret (if b == c then (pos + 1, left) else (pos, suc left))

-- The header-body separator: what is behind it in memory is read-ahead.
pub end_headers : ℕ → ℕ → Scan → Outcome Scan
unfolding skip_byte
end_headers bytes_read bytes_left s = do
  (pos1, left1) ← skip_byte b'\r' s.request.memory.ptr s.pos bytes_left
  (pos2, left2) ← skip_byte b'\n' s.request.memory.ptr pos1 left1
  ret (record s {
    request = record (s.request) { read_ahead = pos2; read_ahead_length = bytes_read - pos2 };
    pos = pos2;
  })

-- The body of the `while` for a line, and `k` for the rounds behind it.
pub header_line :
    ℕ → ℕ → ℕ → Scan → HiwString → List HiwString → (Scan → Outcome Lines) → Outcome Lines
unfolding add_header end_headers
header_line max_headers_count bytes_read bytes_left s line (name ∷ value ∷ []) k = do
  s' ← add_header max_headers_count s line name value
  k s'
header_line max_headers_count bytes_read bytes_left s line _ k =
    if leb line.length 1
    then (do s' ← end_headers bytes_read bytes_left s; ret (done s'))
    else ret (refused s)

-- `while (hiw_string_readline(…, &line))`
pub scan_lines : ℕ → ℕ → ℕ → Scan → Outcome Lines
unfolding header_line
scan_lines max_headers_count zero bytes_read s = hang
scan_lines max_headers_count (suc rounds) bytes_read s = do
  let bytes_left = bytes_read - s.pos
  (found, line) ← readline (string_set (drop s.pos s.request.memory.ptr) bytes_left) empty
  if found
      then (if ltb max_headers_count (length s.request.headers) then ret (refused s) else do
        parts ← split line b':' 2
        header_line max_headers_count bytes_read bytes_left s line parts
            (λ s'. scan_lines max_headers_count rounds bytes_read s'))
      else ret (more s)

-- `done:`
pub finish : Scan → Request
finish s = record (s.request) {
  connection_close = s.header_connection_close;
  content_length = s.header_content_length;
  content_length_remaining = s.header_content_length;
}

-- `count <= 0`
abbrev pub received : Option ℕ → Option ℕ
received none = none
received (some zero) = none
received (some (suc n)) = some (suc n)

module _ (env : Env) where
  open env use {Conn, max_header_size, max_headers_count, realloc}

  -- A round of the first loop from the answer of `hiw_client_recv` on, and `k` for the next rounds:
  -- the status line, how much is read, and the state after it.
  pub chunk_read :
      ℕ
      → Conn
      → Request
      → (Conn → Request → ℕ → Outcome (Option (HiwString × ℕ) × Request × Conn))
      → Option ℕ
      → Outcome (Option (HiwString × ℕ) × Request × Conn)
  chunk_read bytes_read c req k none = ret (none, req, c)
  chunk_read bytes_read c req k (some count) = do
    (found, line) ← readline (string_set req.memory.ptr count) empty
    if found
        then ret (some (line, bytes_read + count), req, c)
        else if leb max_header_size (bytes_read + count)
        then ret (none, req, c)
        else k c req (bytes_read + count)

  -- The first loop.
  pub read_status_line :
      ℕ → Conn → Request → ℕ → ℕ → Outcome (Option (HiwString × ℕ) × Request × Conn)
  unfolding chunk_read
  read_status_line zero c req pos bytes_read = hang
  read_status_line (suc rounds) c req pos bytes_read = do
    (got, block, c') ←
        client_recv env c req.memory.ptr (pos + bytes_read) (max_header_size - bytes_read)
    chunk_read bytes_read c' (record req { memory = record (req.memory) { ptr = block } })
        (λ c1 req1 n. read_status_line rounds c1 req1 pos n) (received got)

  -- A round of the second loop behind the receipt of a further chunk.
  pub more_read :
      ℕ
      → Conn
      → Scan
      → (Conn → Scan → ℕ → Outcome (Bool × Request × Conn))
      → Option ℕ
      → Outcome (Bool × Request × Conn)
  more_read bytes_read c s k none = ret (false, s.request, c)
  more_read bytes_read c s k (some count) = k c s (bytes_read + count)

  -- A round of the second loop from the end of its lines on, and `k` for the next rounds.
  pub lines_read :
      ℕ
      → Conn
      → (Conn → Scan → ℕ → Outcome (Bool × Request × Conn))
      → Lines
      → Outcome (Bool × Request × Conn)
  unfolding finish more_read
  lines_read bytes_read c k (refused s) = ret (false, s.request, c)
  lines_read bytes_read c k (done s) = ret (true, finish s, c)
  lines_read bytes_read c k (more s) =
      if max_header_size - bytes_read == 0 then ret (false, s.request, c) else do
        (got, block, c') ←
            client_recv env c s.request.memory.ptr s.pos (max_header_size - bytes_read)
        let req = record (s.request) { memory = record (s.request.memory) { ptr = block } }
        more_read bytes_read c' (record s { request = req }) k (received got)

  -- The second loop.
  pub read_lines : ℕ → Conn → Scan → ℕ → Outcome (Bool × Request × Conn)
  unfolding scan_lines lines_read
  read_lines zero c s bytes_read = hang
  read_lines (suc rounds) c s bytes_read = do
    lines ← scan_lines max_headers_count (suc (bytes_read - s.pos)) bytes_read s
    lines_read bytes_read c (λ c1 s1 n. read_lines rounds c1 s1 n) lines

  -- What follows the status line.
  pub after_status_line :
      ℕ → Option (HiwString × ℕ) × Request × Conn → Outcome (Bool × Request × Conn)
  unfolding read_lines
  after_status_line pos (none, req, c) = ret (false, req, c)
  after_status_line pos (some (line, bytes_read), req, c) = do
    (parsed, req') ← parse_status_line req line
    if parsed
        then (if leb max_header_size bytes_read
            then ret (true, req', c)
            else read_lines (suc max_header_size) c
                (record {
                  request = req';
                  pos = pos + line.length + 1;
                  header_connection_close = req'.connection_close;
                  header_content_length = req'.content_length;
                })
                bytes_read)
        else ret (false, req', c)

  unfoldable pub read_headers : Conn → Request → Outcome (Bool × Request × Conn)
  unfolding read_status_line after_status_line
  read_headers c req = do
    (at_pos, memory) ← Memory.get realloc req.memory max_header_size
    pos ← access at_pos
    got ←
        read_status_line (suc max_header_size) c (record req { headers = []; memory = memory }) pos
          0
    after_status_line pos got
