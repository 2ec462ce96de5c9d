-- ===== src/Request/Headers/Ending.antt =====
-- The outer loops of `hiw_internal_request_read_headers`, and what they leave to `hiw_request_recv`.
use highway.Request.StatusLine.{KeepsMemory, parse_status_line-KeepsMemory}
use highway.Prelude.{
  ℕ, zero, suc, ◌+◌, ◌-◌, ◌≤◌, ◌<◌, ◌≡◌, refl, ap, ◌∙◌, Bool, true, false, [], Bytes, length,
  Option, none, some, Outcome, ret, arith, leb, ◌==◌, Ends, >>=-Ends, if-Ends,
}
use highway.Text.{HiwString, empty, string_set, readline}
use highway.Text.Ends.{readline-Ends}
use highway.Env.{Env, Laws}
use highway.Client.{client_recv}
use highway.Client.Receive.{Received, client_recv-Received}
use highway.Memory.Overrun.{get_room}
use highway.Request.{Request, parse_status_line}
use highway.Request.Headers.{
  Scan, Lines, more, done, refused, scan_lines, finish, received, chunk_read, read_status_line,
  more_read, lines_read, read_lines, after_status_line, read_headers,
}
use highway.Request.Headers.LineEnds.{Inside, Outcomes, scan_lines-Outcomes}
use highway.Request.Body.ReadAhead.{HasReadAhead}

-- With the answer `true`, what is read ahead lies in the memory.
abbrev pub LeavesReadAhead : (C : Type 0) → Bool × Request × C → Type 0
LeavesReadAhead C (true, req, c) = HasReadAhead req
LeavesReadAhead C (false, req, c) = Unit

-- What is received, where the loops go on.
received_bounds :
    (C : Type 0) (block : Bytes) (n : ℕ) (got : Option ℕ) (block' : Bytes) (c' : C)
    → Received C block n (got, block', c')
    → (length block' ≡ length block) × ((k : ℕ) → received got ≡ some k → (0 < k) × (k ≤ n))
received_bounds C block n none block' c' h = (h, λ k e. cc)
received_bounds C block n (some zero) block' c' h = (h.1, λ k e. cc)
received_bounds C block n (some (suc j)) block' c' h =
    (h.1, λ k e. let same : suc j ≡ k = cc in (omega arith, omega (arith, h.0)))

module _ (env : Env) (laws : Laws env) where
  open env use {Conn, max_header_size}

  more_read-Ends :
      (bytes_read : ℕ) (c : Conn) (s : Scan) (k : Conn → Scan → ℕ → Outcome (Bool × Request × Conn))
      (got : Option ℕ)
      → ((n : ℕ) → got ≡ some n → Ends (LeavesReadAhead Conn) (k c s (bytes_read + n)))
      → Ends (LeavesReadAhead Conn) (more_read env bytes_read c s k got)
  unfolding more_read
  more_read-Ends bytes_read c s k none next = tt
  more_read-Ends bytes_read c s k (some n) next = next n refl

  -- The memory as the chunk leaves it.
  abbrev with_block : Scan → Bytes → Scan
  with_block s block = record s {
    request = record (s.request) { memory = record (s.request.memory) { ptr = block } };
  }

  lines_read-Ends :
      (bytes_read : ℕ) (c : Conn) (k : Conn → Scan → ℕ → Outcome (Bool × Request × Conn))
      (lines : Lines)
      → Outcomes max_header_size bytes_read lines
      → ((c1 : Conn) (s1 : Scan) (n : ℕ)
          → Inside max_header_size n s1
          → bytes_read < n
          → Ends (LeavesReadAhead Conn) (k c1 s1 n))
      → Ends (LeavesReadAhead Conn) (lines_read env bytes_read c k lines)
  unfolding lines_read finish
  lines_read-Ends bytes_read c k (refused s) h next = tt
  lines_read-Ends bytes_read c k (done s) h next = record { inside = h.inside }
  lines_read-Ends bytes_read c k (more s) h next =
      if-Ends _ (max_header_size - bytes_read == 0) (ret (false, s.request, c)) _ (λ t. tt)
        (λ t.
          >>=-Ends (Received Conn s.request.memory.ptr (max_header_size - bytes_read)) _
            (client_recv env c s.request.memory.ptr s.pos (max_header_size - bytes_read)) _
            (client_recv-Received env laws c s.request.memory.ptr s.pos
              (max_header_size - bytes_read))
            (λ (got, block, c') h'.
              let (same, bounds) =
                received_bounds Conn s.request.memory.ptr (max_header_size - bytes_read) got block
                  c' h' in
              more_read-Ends bytes_read c' (with_block s block) k (received got) (λ n e.
                next c' (with_block s block) (bytes_read + n)
                  (record {
                    position = omega (arith, h.position);
                    read = omega (arith, h.read, bounds n e);
                    memory = omega (arith, h.memory);
                    ahead = record { inside = omega (arith, h.ahead.inside) };
                  })
                  (omega (arith, bounds n e)))))

  read_lines-Ends :
      (rounds : ℕ) (c : Conn) (s : Scan) (bytes_read : ℕ)
      → Inside max_header_size bytes_read s
      → max_header_size - bytes_read < rounds
      → Ends (LeavesReadAhead Conn) (read_lines env rounds c s bytes_read)
  unfolding read_lines
  read_lines-Ends zero c s bytes_read h lt = absurd (omega arith)
  read_lines-Ends (suc rounds) c s bytes_read h lt =
      >>=-Ends (Outcomes max_header_size bytes_read) _
        (scan_lines env.max_headers_count (suc (bytes_read - s.pos)) bytes_read s) _
        (scan_lines-Outcomes env.max_headers_count max_header_size (suc (bytes_read - s.pos))
          bytes_read s h (omega arith))
        (λ lines h'.
          lines_read-Ends bytes_read c (λ c1 s1 n. read_lines env rounds c1 s1 n) lines h'
            (λ c1 s1 n h1 further. read_lines-Ends rounds c1 s1 n h1 (omega (arith, h1.read))))

  -- What the first loop leaves: a line that ends in what is read, which is inside the room.
  abbrev LineRead : Request → Option (HiwString × ℕ) × Request × Conn → Type 0
  LineRead req (none, req', c) = Unit
  LineRead req (some (line, bytes_read), req', c) =
      (line.length < bytes_read)
      × (bytes_read ≤ max_header_size)
      × (length req'.memory.ptr ≡ length req.memory.ptr)
      × (req'.read_ahead ≡ req.read_ahead)
      × (req'.read_ahead_length ≡ req.read_ahead_length)

  chunk_read-Ends :
      (req : Request) (bytes_read : ℕ) (c : Conn) (req1 : Request)
      (k : Conn → Request → ℕ → Outcome (Option (HiwString × ℕ) × Request × Conn)) (got : Option ℕ)
      → length req1.memory.ptr ≡ length req.memory.ptr
      → req1.read_ahead ≡ req.read_ahead
      → req1.read_ahead_length ≡ req.read_ahead_length
      → ((n : ℕ) → got ≡ some n → bytes_read + n ≤ max_header_size)
      → ((n : ℕ)
          → got ≡ some n
          → bytes_read + n < max_header_size
          → Ends (LineRead req) (k c req1 (bytes_read + n)))
      → Ends (LineRead req) (chunk_read env bytes_read c req1 k got)
  unfolding chunk_read
  chunk_read-Ends req bytes_read c req1 k none m r l fits next = tt
  chunk_read-Ends req bytes_read c req1 k (some n) m r l fits next =
      >>=-Ends (λ a. a.0 ≡ true → a.1.length < n) _ (readline (string_set req1.memory.ptr n) empty)
        _ (readline-Ends (string_set req1.memory.ptr n) empty)
        (λ (found, line) shorter.
          if-Ends _ found (ret (some (line, bytes_read + n), req1, c)) _
            (λ t. (omega (arith, shorter t), fits n refl, m, r, l))
            (λ t.
              if-Ends _ (leb max_header_size (bytes_read + n)) (ret (none, req1, c)) _ (λ u. tt)
                (λ u. next n refl (ground arith))))

  read_status_line-Ends :
      (req : Request) (rounds : ℕ) (c : Conn) (req1 : Request) (bytes_read : ℕ)
      → length req1.memory.ptr ≡ length req.memory.ptr
      → req1.read_ahead ≡ req.read_ahead
      → req1.read_ahead_length ≡ req.read_ahead_length
      → max_header_size - bytes_read < rounds
      → bytes_read ≤ max_header_size
      → Ends (LineRead req) (read_status_line env rounds c req1 0 bytes_read)
  unfolding read_status_line
  read_status_line-Ends req zero c req1 bytes_read m r l lt le = absurd (omega arith)
  read_status_line-Ends req (suc rounds) c req1 bytes_read m r l lt le =
      >>=-Ends (Received Conn req1.memory.ptr (max_header_size - bytes_read)) _
        (client_recv env c req1.memory.ptr (0 + bytes_read) (max_header_size - bytes_read)) _
        (client_recv-Received env laws c req1.memory.ptr (0 + bytes_read)
          (max_header_size - bytes_read))
        (λ (got, block, c') h'.
          let (same, bounds) =
            received_bounds Conn req1.memory.ptr (max_header_size - bytes_read) got block c' h' in
          chunk_read-Ends req bytes_read c'
            (record req1 { memory = record (req1.memory) { ptr = block } })
            (λ c2 req2 n. read_status_line env rounds c2 req2 0 n) (received got) (same ∙ m) r l
            (λ n e. omega (arith, bounds n e))
            (λ n e lt'.
              read_status_line-Ends req rounds c'
                (record req1 { memory = record (req1.memory) { ptr = block } }) (bytes_read + n)
                (same ∙ m) r l (omega (arith, bounds n e)) (omega arith)))

  after_status_line-Ends :
      (req0 : Request) (got : Option (HiwString × ℕ) × Request × Conn)
      → HasReadAhead req0
      → max_header_size ≤ length req0.memory.ptr
      → LineRead req0 got
      → Ends (LeavesReadAhead Conn) (after_status_line env 0 got)
  unfolding after_status_line
  after_status_line-Ends req0 (none, req, c) ahead room h = tt
  after_status_line-Ends req0 (some (line, bytes_read), req, c) ahead room
        (shorter, fits, m, r, l) =
      >>=-Ends (KeepsMemory req) _ (parse_status_line req line) _
        (parse_status_line-KeepsMemory req line)
        (λ (parsed, req1) (m1, r1, l1).
          let size : length req1.memory.ptr ≡ length req0.memory.ptr =
            ap (λ x. length x.ptr) m1 ∙ m in
          if-Ends _ parsed _ (ret (false, req1, c))
            (λ t.
              if-Ends _ (leb max_header_size bytes_read) (ret (true, req1, c)) _
                (λ u. record { inside = omega (arith, ahead.inside) })
                (λ u.
                  read_lines-Ends (suc max_header_size) c
                    (record {
                      request = req1;
                      pos = 0 + line.length + 1;
                      header_connection_close = req1.connection_close;
                      header_content_length = req1.content_length;
                    })
                    bytes_read
                    (record {
                      position = omega arith;
                      read = fits;
                      memory = omega arith;
                      ahead = record { inside = omega (arith, ahead.inside) };
                    })
                    (omega arith)))
            (λ t. tt))

  -- Of a request whose memory is reset and has room for the headers, and whose read-ahead data lies in
  -- it, the reading of the headers comes to an end, be it in undefined behaviour, whatever the peer
  -- sends and in whatever chunks; and where it returns `true`, what is read ahead lies in the memory.
  pub read_headers-Ends :
      (c : Conn) (req : Request)
      → HasReadAhead req
      → req.memory.pos ≡ 0
      → max_header_size ≤ length req.memory.ptr
      → Ends (LeavesReadAhead Conn) (read_headers env c req)
  unfolding read_headers
  read_headers-Ends c req ahead start room =
      let req1 : Request = record req {
        headers = [];
        memory = record (req.memory) { pos = 0 + max_header_size };
      } in
      rw (get_room env.realloc req.memory max_header_size (omega arith), start)
        (>>=-Ends (LineRead req1) _ (read_status_line env (suc max_header_size) c req1 0 0) _
          (read_status_line-Ends req1 (suc max_header_size) c req1 0 refl refl refl (omega arith)
            (omega arith))
          (λ got h. after_status_line-Ends req1 got (record { inside = ahead.inside }) room h))
