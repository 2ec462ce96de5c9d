-- ===== src/Request/Headers/LineEnds.antt =====
-- The loop of `hiw_internal_request_read_headers` over the lines of a chunk.
use highway.Prelude.{
  get_elem?, ℕ, zero, suc, ◌+◌, ◌-◌, ◌≤◌, ◌<◌, ◌≡◌, refl, ap, true, List, [], ◌∷◌, ◌++◌, Bytes,
  length, drop, codes, Option, none, some, Outcome, ret, fault, ◌>>=◌, arith, ltb, leb,
  if◌then◌else◌, Ends, Any, >>=-Ends, if-Ends, access-Ends,
}
use highway.Prelude.Int.{ℤ}
use highway.Text.{HiwString, empty, string_set, readline, split, trim, cmpc, at}
use highway.Text.Ends.{readline-Ends, split-Ends, trim-Ends, cmpc-Ends}
use highway.Number.{toi}
use highway.Number.Signed.{toi-Ends}
use highway.Request.Headers.{
  Scan, Lines, more, done, refused, store_length, add_header, skip_byte, end_headers, header_line,
  scan_lines,
}
use highway.Request.Body.ReadAhead.{HasReadAhead}

-- The position lies in what is read, which lies in the room for headers in the memory.
pub record Inside (room bytes_read : ℕ) (s : Scan) : Type 0 where
  pub position : s.pos ≤ bytes_read
  pub read : bytes_read ≤ room
  pub memory : room ≤ length s.request.memory.ptr
  pub ahead : HasReadAhead s.request

-- As long a memory, the same read-ahead data, and the position behind the line.
record Advanced (s : Scan) (line_length : ℕ) (s' : Scan) : Type 0 where
  moved : s'.pos ≡ s.pos + line_length + 1
  memory : s'.request.memory ≡ s.request.memory
  read_ahead : s'.request.read_ahead ≡ s.request.read_ahead
  read_ahead_length : s'.request.read_ahead_length ≡ s.request.read_ahead_length

store_length-Advanced :
    (s s' : Scan) (n : ℕ) (o : Option ℤ) (v : ℤ)
    → Advanced s n s'
    → Advanced s n (record s' { request = store_length o s'.request; header_content_length = v })
unfolding store_length
store_length-Advanced s s' n none v h = record {
  moved = h.moved;
  memory = h.memory;
  read_ahead = h.read_ahead;
  read_ahead_length = h.read_ahead_length;
}
store_length-Advanced s s' n (some k) v h = record {
  moved = h.moved;
  memory = h.memory;
  read_ahead = h.read_ahead;
  read_ahead_length = h.read_ahead_length;
}

add_header-Advanced :
    (max : ℕ) (s : Scan) (line name_part value_part : HiwString)
    → Ends (Advanced s line.length) (add_header max s line name_part value_part)
unfolding add_header
add_header-Advanced max s line name_part value_part =
    if-Ends _ (ltb (length s.request.headers) max) _ fault
      (λ t. >>=-Ends Any _ (trim name_part) _ (trim-Ends name_part) (λ name h1.
        >>=-Ends Any _ (trim value_part) _ (trim-Ends value_part) (λ value h2.
          >>=-Ends Any _ (cmpc name (codes "Connection") 10) _
            (cmpc-Ends name (codes "Connection") 10)
            (λ is_connection h3.
              >>=-Ends Any _ (cmpc name (codes "Content-Length") 14) _
                (cmpc-Ends name (codes "Content-Length") 14)
                (λ is_length h4.
                  if-Ends _ is_connection _ _
                    (λ u.
                      >>=-Ends Any _ (cmpc value (codes "close") 5) _
                        (cmpc-Ends value (codes "close") 5)
                        (λ close h5. record {
                          moved = refl;
                          memory = refl;
                          read_ahead = refl;
                          read_ahead_length = refl;
                        }))
                    (λ u.
                      if-Ends _ is_length _ _
                        (λ v. >>=-Ends Any _ (toi value) _ (toi-Ends value) (λ parsed h5.
                          store_length-Advanced s
                            (record s {
                              request = record (s.request) {
                                headers =
                                    s.request.headers ++ record { name = name; value = value } ∷ [];
                              };
                              pos = s.pos + line.length + 1;
                            })
                            line.length parsed.stored _
                            (record {
                              moved = refl;
                              memory = refl;
                              read_ahead = refl;
                              read_ahead_length = refl;
                            })))
                        (λ v. record {
                          moved = refl;
                          memory = refl;
                          read_ahead = refl;
                          read_ahead_length = refl;
                        })))))))
      (λ t. tt)

-- What the lines of a chunk come to.
abbrev pub Outcomes : ℕ → ℕ → Lines → Type 0
Outcomes room bytes_read (more s) = Inside room bytes_read s
Outcomes room bytes_read (done s) = HasReadAhead s.request
Outcomes room bytes_read (refused s) = Unit

Advanced-Inside :
    (room bytes_read n : ℕ) (s s' : Scan)
    → Inside room bytes_read s
    → Advanced s n s'
    → n < bytes_read - s.pos
    → Inside room bytes_read s'
Advanced-Inside room bytes_read n s s' h a lt =
    let same_size : length s'.request.memory.ptr ≡ length s.request.memory.ptr =
      ap (λ m. length m.ptr) a.memory in
    record {
      position = omega (arith, a.moved);
      read = h.read;
      memory = omega (arith, h.memory, same_size);
      ahead = record {
        inside = omega (arith, h.ahead.inside, same_size, a.read_ahead, a.read_ahead_length);
      };
    }

skip_byte-adds :
    (c : ℕ) (block : Bytes) (i left : ℕ)
    → Ends (λ r. r.0 + r.1 ≡ i + left) (skip_byte c block i left)
unfolding skip_byte
skip_byte-adds c block i zero = refl
skip_byte-adds c block i (suc left) =
    >>=-Ends Any _ (at block i) _ (access-Ends (get_elem? block i)) (λ b h. ground arith)

end_headers-HasReadAhead :
    (room bytes_read : ℕ) (s : Scan)
    → Inside room bytes_read s
    → Ends (λ s'. HasReadAhead s'.request) (end_headers bytes_read (bytes_read - s.pos) s)
unfolding end_headers
end_headers-HasReadAhead room bytes_read s h =
    >>=-Ends _ _ (skip_byte b'\r' s.request.memory.ptr s.pos (bytes_read - s.pos)) _
      (skip_byte-adds b'\r' s.request.memory.ptr s.pos (bytes_read - s.pos))
      (λ (pos1, left1) h1.
        >>=-Ends _ _ (skip_byte b'\n' s.request.memory.ptr pos1 left1) _
          (skip_byte-adds b'\n' s.request.memory.ptr pos1 left1)
          (λ (pos2, left2) h2. record {
            inside = omega (arith, h.position, h.read, h.memory, h1, h2);
          }))

-- A line that is not two parts ends the headers or is refused.
other_line :
    (room bytes_read : ℕ) (s : Scan) (line : HiwString)
    → Inside room bytes_read s
    → Ends (Outcomes room bytes_read) (
        if leb line.length 1
        then (do s' ← end_headers bytes_read (bytes_read - s.pos) s; ret (done s'))
        else ret (refused s))
other_line room bytes_read s line h =
    if-Ends _ (leb line.length 1) _ (ret (refused s))
      (λ t.
        >>=-Ends (λ s'. HasReadAhead s'.request) _ (end_headers bytes_read (bytes_read - s.pos) s)
          (λ s'. ret (done s')) (end_headers-HasReadAhead room bytes_read s h) (λ s' h'. h'))
      (λ t. tt)

header_line-Outcomes :
    (max room bytes_read : ℕ) (s : Scan) (line : HiwString) (parts : List HiwString)
    (k : Scan → Outcome Lines)
    → Inside room bytes_read s
    → line.length < bytes_read - s.pos
    → ((s' : Scan)
        → Inside room bytes_read s'
        → s.pos < s'.pos
        → Ends (Outcomes room bytes_read) (k s'))
    → Ends
        (Outcomes room bytes_read)
        (header_line max bytes_read (bytes_read - s.pos) s line parts k)
unfolding header_line
header_line-Outcomes max room bytes_read s line [] k h lt next = other_line room bytes_read s line h
header_line-Outcomes max room bytes_read s line (x ∷ []) k h lt next =
    other_line room bytes_read s line h
header_line-Outcomes max room bytes_read s line (name ∷ value ∷ []) k h lt next =
    >>=-Ends (Advanced s line.length) _ (add_header max s line name value) k
      (add_header-Advanced max s line name value)
      (λ s' a.
        next s' (Advanced-Inside room bytes_read line.length s s' h a lt) (omega (arith, a.moved)))
header_line-Outcomes max room bytes_read s line (x ∷ y ∷ z ∷ ws) k h lt next =
    other_line room bytes_read s line h

-- The lines of a chunk come to an end in one round more than it has bytes behind the position: more
-- is wanted with the position inside what is read, or the headers end with read-ahead data that lies
-- in the memory, or they are refused.
pub scan_lines-Outcomes :
    (max room rounds bytes_read : ℕ) (s : Scan)
    → Inside room bytes_read s
    → bytes_read - s.pos < rounds
    → Ends (Outcomes room bytes_read) (scan_lines max rounds bytes_read s)
unfolding scan_lines
scan_lines-Outcomes max room zero bytes_read s h lt = absurd (omega arith)
scan_lines-Outcomes max room (suc rounds) bytes_read s h lt =
    let view = string_set (drop s.pos s.request.memory.ptr) (bytes_read - s.pos) in
    >>=-Ends (λ r. r.0 ≡ true → r.1.length < bytes_read - s.pos) _ (readline view empty) _
      (readline-Ends view empty)
      (λ (found, line) shorter.
        if-Ends _ found _ (ret (more s))
          (λ t.
            if-Ends _ (ltb max (length s.request.headers)) (ret (refused s)) _ (λ u. tt)
              (λ u. >>=-Ends Any _ (split line b':' 2) _ (split-Ends line b':' 2) (λ parts h'.
                header_line-Outcomes max room bytes_read s line parts
                  (λ s'. scan_lines max rounds bytes_read s') h (shorter t)
                  (λ s' h'' further.
                    scan_lines-Outcomes max room rounds bytes_read s' h''
                      (omega (arith, shorter t, h''.position))))))
          (λ t. h))
