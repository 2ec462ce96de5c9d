-- ===== src/Request/Headers/RoundTrip.antt =====
-- `hiw_internal_request_read_headers` of a request that comes in one chunk.
use highway.Prelude.{
  ℕ, ◌+◌, ◌≤◌, ◌<◌, ◌≡◌, refl, sym, ap, ◌∙◌, true, List, [], ◌∷◌, ◌++◌, append_assoc, map, Bytes,
  length, All, take, drop, codes, some, ret, arith, ap_at, length-append, take-length-append,
  drop-length-append, lt→leb, leb, if_false, >>=-ret,
}
use mathlib.Core.Path.{subst}
use highway.Text.{IsView, bytes, string_set}
use highway.Text.Split.{join}
use highway.Memory
use highway.Memory.Overrun.{get_room}
use highway.Env.{Env}
use highway.Request.{Request}
use highway.Request.StatusLine.{version, parse_status_line-join}
use highway.Request.Headers.{Scan, finish, after_status_line, read_headers}
use highway.Request.Headers.OneLine.{WellFormed, spelled}
use highway.Request.Headers.Fields.{drop-drop, field_lines, close_of, length_of, FieldsRead}
use highway.Request.Headers.Chunk.{
  IsWord, request_line, request_text, request_line-Lacks, with_block, first_chunk, fields_chunk,
}

-- A request that has taken this text in.
pub record Holds (req : Request) (method uri : Bytes) (fields : List (Bytes × Bytes)) (body : Bytes)
    (req' : Request) : Type 0 where
  pub method_read : bytes req'.method ≡ method
  pub uri_read : bytes req'.uri ≡ uri
  pub uri_inside : IsView req'.uri
  pub headers_read : map spelled req'.headers ≡ fields
  pub body_ahead : take req'.read_ahead_length (drop req'.read_ahead req'.memory.ptr) ≡ body
  pub body_length : req'.read_ahead_length ≡ length body
  pub close : req'.connection_close ≡ close_of req.connection_close fields
  pub content_length : req'.content_length ≡ length_of req.content_length fields
  pub remaining : req'.content_length_remaining ≡ length_of req.content_length fields

module _ (env : Env) where
  open env use {Conn, max_header_size, max_headers_count}

  finish-Holds :
      (req : Request) (s s' : Scan) (method uri : Bytes) (fields : List (Bytes × Bytes))
      (body old : Bytes) (bytes_read : ℕ)
      → bytes s.request.method ≡ method
      → bytes s.request.uri ≡ uri
      → IsView s.request.uri
      → s.request.headers ≡ []
      → s.request.memory.ptr ≡ request_text method uri fields body ++ old
      → s.pos ≡ length (request_line method uri) + 1
      → bytes_read ≡ length (request_text method uri fields body)
      → s.header_connection_close ≡ req.connection_close
      → s.header_content_length ≡ req.content_length
      → FieldsRead bytes_read s fields s'
      → Holds req method uri fields body (finish s')
  unfolding finish
  finish-Holds req s s' method uri fields body old bytes_read m u inside none_yet block at_line read
        close len r =
      let status = request_line method uri in
      let head = status ++ b'\n' ∷ (field_lines fields ++ codes "\r\n") in
      let size1 = length-append status (b'\n' ∷ (field_lines fields ++ (codes "\r\n" ++ body))) in
      let size2 = length-append (field_lines fields) (codes "\r\n" ++ body) in
      let size3 = length-append status (b'\n' ∷ (field_lines fields ++ codes "\r\n")) in
      let size4 = length-append (field_lines fields) (codes "\r\n") in
      let split_block : s'.request.memory.ptr ≡ head ++ (body ++ old) =
        ap (λ x. x.ptr) r.memory
        ∙ block
        ∙ ap (λ x. (status ++ b'\n' ∷ x) ++ old)
            (sym (append_assoc (field_lines fields) (codes "\r\n") body))
        ∙ ap (λ x. x ++ old)
            (sym (append_assoc status (b'\n' ∷ (field_lines fields ++ codes "\r\n")) body))
        ∙ append_assoc head body old in
      let head_length : s'.request.read_ahead ≡ length head =
        omega (arith, r.read_ahead, at_line, size3, size4) in
      let left : s'.request.read_ahead_length ≡ length body =
        omega (arith, r.read_ahead_length, read, at_line, size1, size2) in
      record {
        method_read = ap bytes r.method ∙ m;
        uri_read = ap bytes r.uri ∙ u;
        uri_inside = subst IsView (sym r.uri) inside;
        headers_read =
            ap (λ hs. map spelled hs) (r.headers ∙ ap (λ hs. hs ++ r.added) none_yet) ∙ r.spells;
        body_ahead =
            ap_at (λ k. take k (drop s'.request.read_ahead s'.request.memory.ptr))
              s'.request.read_ahead_length (length body) left
            ∙ ap_at (λ k. take (length body) (drop k s'.request.memory.ptr)) s'.request.read_ahead
                (length head) head_length
            ∙ ap (λ b. take (length body) (drop (length head) b)) split_block
            ∙ ap (take (length body)) (drop-length-append head (body ++ old))
            ∙ take-length-append body old;
        body_length = left;
        close = r.close ∙ ap (λ x. close_of x fields) close;
        content_length = r.content_length ∙ ap (λ x. length_of x fields) len;
        remaining = r.content_length ∙ ap (λ x. length_of x fields) len;
      }

  -- A request that comes in one chunk, shorter than the room for headers, is read as it was written:
  -- the answer is `true`, with its method, its URI and its headers in their order, what its
  -- `Connection` and `Content-Length` headers say, and its body as the data that is read ahead. The
  -- method and the URI hold no space or newline and end in no white space, the headers are well
  -- formed and no more than there is room for, and the memory is reset and has that room.
  pub read_headers-Holds :
      (c c' : Conn) (req : Request) (method uri : Bytes) (fields : List (Bytes × Bytes))
      (body : Bytes)
      → req.memory.pos ≡ 0
      → max_header_size ≤ length req.memory.ptr
      → IsWord method
      → IsWord uri
      → All WellFormed fields
      → length fields ≤ max_headers_count
      → length (request_text method uri fields body) < max_header_size
      → env.recv c max_header_size ≡ (some (request_text method uri fields body), c')
      → (req' : Request) × (read_headers env c req ≡ ret (true, req', c'))
        × Holds req method uri fields body req'
  unfolding read_headers after_status_line
  read_headers-Holds c c' req method uri fields body start room m u well few short r =
      let status = request_line method uri in
      let rest = field_lines fields ++ (codes "\r\n" ++ body) in
      let n = length (request_text method uri fields body) in
      let old = drop n req.memory.ptr in
      let block = status ++ b'\n' ∷ (rest ++ old) in
      let size1 = length-append status (b'\n' ∷ rest) in
      let size2 = length-append (field_lines fields) (codes "\r\n" ++ body) in
      let method_view =
        string_set (method ++ b' ' ∷ (join b' ' (uri ∷ version ∷ []) ++ (b'\n' ∷ (rest ++ old))))
          (length method) in
      let uri_view = string_set (uri ++ b' ' ∷ (version ++ (b'\n' ∷ (rest ++ old)))) (length uri) in
      let parsed : Request = record (with_block env req block) {
        method = method_view;
        uri = uri_view;
      } in
      let s : Scan = record {
        request = parsed;
        pos = 0 + length status + 1;
        header_connection_close = req.connection_close;
        header_content_length = req.content_length;
      } in
      let (s', scanned, fr) =
        fields_chunk env c' s fields n (body ++ old)
          (ap_at (λ k. drop k block) (0 + length status + 1) (length status + 1) (omega arith)
            ∙ drop-drop (length status) 1 block
            ∙ ap (drop 1) (drop-length-append status (b'\n' ∷ (rest ++ old)))
            ∙ append_assoc (field_lines fields) (codes "\r\n" ++ body) old)
          (omega (arith, size1, size2)) (omega arith) well in
      (
        finish s',
        >>=-ret _ _ (some 0, record (req.memory) { pos = 0 + max_header_size })
              (from_start req start room)
            ∙ >>=-ret _ _ (some (string_set block (length status), n), with_block env req block, c')
                (first_chunk env c c' req status rest (request_line-Lacks method uri m u)
                  (omega arith) room r)
            ∙ >>=-ret _ _ (true, parsed)
                (parse_status_line-join (with_block env req block) method uri
                  (b'\n' ∷ (rest ++ old)) m.no_space u.no_space m.ends u.ends)
            ∙ if_false (leb max_header_size n) _ _ (lt→leb _ _ short)
            ∙ scanned,
        finish-Holds req s s' method uri fields body old n (take-length-append method _)
            (take-length-append uri _)
            (omega (arith, length-append uri (b' ' ∷ (version ++ (b'\n' ∷ (rest ++ old)))))) refl
            (sym (append_assoc status (b'\n' ∷ rest) old)) (omega arith) refl refl refl fr,
      )
    where
      from_start :
          (req : Request)
          → req.memory.pos ≡ 0
          → max_header_size ≤ length req.memory.ptr
          → Memory.get env.realloc req.memory max_header_size
            ≡ ret (some 0, record (req.memory) { pos = 0 + max_header_size })
      from_start req start room =
          get_room env.realloc req.memory max_header_size (omega arith)
          ∙ ap_at (λ k. ret (some k, record (req.memory) { pos = k + max_header_size }))
              req.memory.pos 0 start
