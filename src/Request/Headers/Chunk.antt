-- ===== src/Request/Headers/Chunk.antt =====
-- The first chunk of a request in `hiw_internal_request_read_headers`.
use highway.Prelude.{
  ◌≢◌, ℕ, zero, suc, ◌+◌, ◌-◌, ◌≤◌, ◌<◌, ◌≡◌, refl, ap, ◌∙◌, true, List, [], ◌∷◌, ◌++◌,
  append_assoc, Bytes, length, All, drop, codes, Option, some, Outcome, ret, arith, ap_at,
  All-append, Lacks, length-append, >>=-ret,
}
use highway.Text.{HiwString, empty, string_set}
use highway.Text.Seek.{readline_found}
use highway.Text.Split.{join}
use highway.Text.Trim.{EndsInk}
use highway.Memory.Write.{overwrite}
use highway.Env.{Env}
use highway.Client.Receive.{client_recv-some}
use highway.Request.{Request}
use highway.Request.StatusLine.{version}
use highway.Request.Headers.{
  Scan, done, finish, received, chunk_read, read_status_line, lines_read, read_lines,
}
use highway.Request.Headers.OneLine.{WellFormed}
use highway.Request.Headers.Fields.{field_lines, FieldsRead, scan_lines-FieldsRead}

-- A method and a URI that a status line may hold.
pub record IsWord (word : Bytes) : Type 0 where
  pub no_space : Lacks b' ' word
  pub no_newline : Lacks b'\n' word
  pub ends : EndsInk word

abbrev pub request_line : Bytes → Bytes → Bytes
request_line method uri = join b' ' (method ∷ uri ∷ version ∷ [])

-- The bytes of a request.
abbrev pub request_text : Bytes → Bytes → List (Bytes × Bytes) → Bytes → Bytes
request_text method uri fields body =
    request_line method uri ++ b'\n' ∷ (field_lines fields ++ (codes "\r\n" ++ body))

pub request_line-Lacks :
    (method uri : Bytes) → IsWord method → IsWord uri → Lacks b'\n' (request_line method uri)
request_line-Lacks method uri m u =
    All-append (λ c. c ≢ b'\n') method (b' ' ∷ (uri ++ b' ' ∷ version)) m.no_newline
      (
        (λ e. omega arith),
        All-append (λ c. c ≢ b'\n') uri (b' ' ∷ version) u.no_newline (ground arith),
      )

length_fields-le : (fields : List (Bytes × Bytes)) → length fields ≤ length (field_lines fields)
length_fields-le [] = omega arith
length_fields-le (field ∷ fields) = omega (
  arith,
  length_fields-le fields,
  length-append (field.0 ++ b':' ∷ (b' ' ∷ (field.1 ++ codes "\r"))) (b'\n' ∷ field_lines fields),
)

module _ (env : Env) where
  open env use {Conn, max_header_size, max_headers_count}

  -- The request once the chunk is in its memory, which is `block` then.
  abbrev pub with_block : Request → Bytes → Request
  with_block req block = record req {
    headers = [];
    memory = record (req.memory) { ptr = block; pos = 0 + max_header_size };
  }

  pub received-some : (n : ℕ) → 0 < n → received (some n) ≡ some n
  received-some zero h = absurd (omega arith)
  received-some (suc n) h = refl

  -- The first chunk gives the status line.
  pub first_chunk :
      (c c' : Conn) (req : Request) (line rest : Bytes)
      → let chunk = line ++ b'\n' ∷ rest in
        Lacks b'\n' line
        → length chunk ≤ max_header_size
        → max_header_size ≤ length req.memory.ptr
        → env.recv c max_header_size ≡ (some chunk, c')
        → read_status_line env
            (suc max_header_size)
            c
            (record req {
              headers = [];
              memory = record (req.memory) { pos = 0 + max_header_size };
            })
            0
            0
          ≡ ret (
            some (
              string_set
                  (line ++ b'\n' ∷ (rest ++ drop (length chunk) req.memory.ptr))
                  (length line),
              length chunk,
            ),
            with_block req (line ++ b'\n' ∷ (rest ++ drop (length chunk) req.memory.ptr)),
            c',
          )
  unfolding read_status_line chunk_read
  first_chunk c c' req line rest no_newline fits room r =
      let chunk = line ++ b'\n' ∷ rest in
      let n = length chunk in
      let block = line ++ b'\n' ∷ (rest ++ drop n req.memory.ptr) in
      let size = length-append line (b'\n' ∷ rest) in
      let k : Conn → Request → ℕ → Outcome (Option (HiwString × ℕ) × Request × Conn) =
        λ c1 req1 m. read_status_line env max_header_size c1 req1 0 m in
      let written : overwrite req.memory.ptr 0 chunk ≡ block =
        ap_at (λ m. chunk ++ drop m req.memory.ptr) (0 + n) n (omega arith)
        ∙ append_assoc line (b'\n' ∷ rest) (drop n req.memory.ptr) in
      >>=-ret _ _ (some n, overwrite req.memory.ptr 0 chunk, c')
        (client_recv-some env c req.memory.ptr 0 (max_header_size - 0) chunk c'
          (omega (arith, size))
          (ap_at (λ m. env.recv c m) (max_header_size - 0) max_header_size (omega arith) ∙ r)
          (omega arith))
      ∙ ap (λ b. chunk_read env 0 c' (with_block req b) k (received (some n))) written
      ∙ ap (λ o. chunk_read env 0 c' (with_block req block) k o)
          (received-some n (omega (arith, size)))
      ∙ >>=-ret _ _ (true, string_set block (length line))
          (readline_found (string_set block n) empty line (rest ++ drop n req.memory.ptr) refl
            no_newline (omega (arith, size)))
      ∙ ap_at (λ m. ret (some (string_set block (length line), m), with_block req block, c'))
          (0 + n) n (omega arith)

  -- The lines of the chunk, from the one behind the status line on.
  pub fields_chunk :
      (c : Conn) (s : Scan) (fields : List (Bytes × Bytes)) (bytes_read : ℕ) (rest : Bytes)
      → drop s.pos s.request.memory.ptr ≡ field_lines fields ++ (codes "\r\n" ++ rest)
      → s.pos + length (field_lines fields) + 2 ≤ bytes_read
      → length s.request.headers + length fields ≤ max_headers_count
      → All WellFormed fields
      → (s' : Scan) × (read_lines env (suc max_header_size) c s bytes_read
          ≡ ret (true, finish s', c))
        × FieldsRead bytes_read s fields s'
  unfolding read_lines lines_read
  fields_chunk c s fields bytes_read rest e fits few well =
      let (s', scanned, r) =
        scan_lines-FieldsRead max_headers_count (suc (bytes_read - s.pos)) bytes_read s fields rest
          e fits (omega (arith, length_fields-le fields)) few well in
      (s', >>=-ret _ _ (done s') scanned, r)
