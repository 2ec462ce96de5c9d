-- ===== src/Request/Headers/Fields.antt =====
-- The header lines of a chunk that holds the whole header, up to the empty line.
use highway.Prelude.{
  access, ℕ, zero, suc, ◌+◌, ◌-◌, ◌≤◌, ◌<◌, ◌≡◌, refl, sym, ap, ◌∙◌, Bool, true, List, [], ◌∷◌,
  ◌++◌, append_assoc, append-nil, map, Bytes, length, All, drop, get_elem?, codes, some, ret, ◌>>=◌,
  arith, ap_at, Lacks, length-append, drop-length-append, ltb, le→ltb, ◌==◌, ==-self, if_true,
  if_false, >>=-ret,
}
use highway.Prelude.Int.{ℤ}
use highway.Text.{empty, string_set, at, readline, split}
use highway.Text.Seek.{readline_found}
use highway.Text.Split.{split-join}
use highway.Request.{Header}
use highway.Request.Headers.{Scan, Lines, done, skip_byte, end_headers, header_line, scan_lines}
use highway.Request.Headers.AddHeader.{close_after, length_after}
use highway.Request.Headers.OneLine.{
  field_line, WellFormed, spelled, field_line-Lacks, Advances, header_line-Advances,
}

-- The lines of the fields, each with its newline.
abbrev pub field_lines : List (Bytes × Bytes) → Bytes
field_lines [] = []
field_lines (field ∷ fields) = field_line field ++ b'\n' ∷ field_lines fields

-- The connection header and the content length after all of them.
unfoldable pub close_of : Bool → List (Bytes × Bytes) → Bool
close_of close [] = close
close_of close ((name, text) ∷ fields) = close_of (close_after close name text) fields

unfoldable pub length_of : ℤ → List (Bytes × Bytes) → ℤ
length_of len [] = len
length_of len ((name, text) ∷ fields) = length_of (length_after len name text) fields

pub drop-drop : (i j : ℕ) (xs : Bytes) → drop (i + j) xs ≡ drop j (drop i xs)
drop-drop zero j xs = ap_at (λ k. drop k xs) (0 + j) j (omega arith)
drop-drop (suc i) zero [] = ap_at (λ k. drop {A = ℕ} k []) (suc i + 0) (suc i) (omega arith)
drop-drop (suc i) (suc j) [] =
    ap_at (λ k. drop {A = ℕ} k []) (suc i + suc j) (suc (i + suc j)) (omega arith)
drop-drop (suc i) j (x ∷ xs) =
    ap_at (λ k. drop k (x ∷ xs)) (suc i + j) (suc (i + j)) (omega arith) ∙ drop-drop i j xs

get_elem?-drop :
    (i : ℕ) (xs : Bytes) (y : ℕ) (ys : Bytes) → drop i xs ≡ y ∷ ys → get_elem? xs i ≡ some y
get_elem?-drop zero [] y ys e = cc
get_elem?-drop zero (x ∷ xs) y ys e = cc
get_elem?-drop (suc i) [] y ys e = cc
get_elem?-drop (suc i) (x ∷ xs) y ys e = get_elem?-drop i xs y ys e

-- What a scan finds at its position.
abbrev Ahead : Scan → Bytes → Type 0
Ahead s text = drop s.pos s.request.memory.ptr ≡ text

-- A line that is found and split.
line_step :
    (max rounds bytes_read : ℕ) (s : Scan) (line rest : Bytes)
    → Ahead s (line ++ b'\n' ∷ rest)
    → Lacks b'\n' line
    → length line < bytes_read - s.pos
    → length s.request.headers ≤ max
    → scan_lines max (suc rounds) bytes_read s
      ≡ ◌>>=◌ {B = Lines} (split (string_set (line ++ b'\n' ∷ rest) (length line)) b':' 2) (λ parts.
        header_line max bytes_read
          (bytes_read - s.pos)
          s
          (string_set (line ++ b'\n' ∷ rest) (length line))
          parts
          (λ s'. scan_lines max rounds bytes_read s'))
unfolding scan_lines
line_step max rounds bytes_read s line rest e no_newline fits few =
    >>=-ret _ _ (true, string_set (line ++ b'\n' ∷ rest) (length line))
      (ap (λ x. readline (string_set x (bytes_read - s.pos)) empty) e
        ∙ readline_found (string_set (line ++ b'\n' ∷ rest) (bytes_read - s.pos)) empty line rest
            refl no_newline fits)
    ∙ if_false (ltb max (length s.request.headers)) _ _ (le→ltb _ _ few)

skip_byte-found :
    (c : ℕ) (block : Bytes) (i left : ℕ) (rest : Bytes)
    → drop i block ≡ c ∷ rest
    → 0 < left
    → skip_byte c block i left ≡ ret (i + 1, left - 1)
unfolding skip_byte
skip_byte-found c block i zero rest e pos_left = absurd (omega arith)
skip_byte-found c block i (suc left) rest e pos_left =
    >>=-ret (at block i) _ c (ap (λ o. access o) (get_elem?-drop i block c rest e))
    ∙ ap ret (if_true (c == c) _ _ (==-self c))
    ∙ ap_at (λ k. ret (i + 1, k)) left (suc left - 1) (omega arith)

drop_next :
    (i : ℕ) (block : Bytes) (c : ℕ) (rest : Bytes)
    → drop i block ≡ c ∷ rest
    → drop (i + 1) block ≡ rest
drop_next i block c rest e = drop-drop i 1 block ∙ ap (drop 1) e

-- The scan at the end of the headers, whose body is what was read behind it.
abbrev pub ended : ℕ → Scan → Scan
ended bytes_read s = record s {
  request = record (s.request) {
    read_ahead = s.pos + 1 + 1;
    read_ahead_length = bytes_read - (s.pos + 1 + 1);
  };
  pos = s.pos + 1 + 1;
}

empty_line :
    (max rounds bytes_read : ℕ) (s : Scan) (rest : Bytes)
    → Ahead s (codes "\r\n" ++ rest)
    → s.pos + 2 ≤ bytes_read
    → length s.request.headers ≤ max
    → scan_lines max (suc rounds) bytes_read s ≡ ret (done (ended bytes_read s))
unfolding header_line end_headers
empty_line max rounds bytes_read s rest e fits few =
    line_step max rounds bytes_read s (codes "\r") rest e (ground arith) (omega arith) few
    ∙ >>=-ret _ _ (string_set (codes "\r\n" ++ rest) 1 ∷ [])
        (split-join b':' 1 (codes "\r" ∷ []) (b'\n' ∷ rest) (ground arith) (omega arith))
    ∙ >>=-ret _ _ (ended bytes_read s) (
        >>=-ret _ _ (s.pos + 1, bytes_read - s.pos - 1)
          (skip_byte-found b'\r' s.request.memory.ptr s.pos (bytes_read - s.pos) (b'\n' ∷ rest) e
            (omega arith))
        ∙ >>=-ret _ _ (s.pos + 1 + 1, bytes_read - s.pos - 1 - 1)
            (skip_byte-found b'\n' s.request.memory.ptr (s.pos + 1) (bytes_read - s.pos - 1) rest
              (drop_next s.pos s.request.memory.ptr b'\r' (b'\n' ∷ rest) e) (omega arith)))

-- What the scan that ends the headers says of the fields that were in front of it.
pub record FieldsRead (bytes_read : ℕ) (s : Scan) (fields : List (Bytes × Bytes)) (s' : Scan)
    : Type 0 where
  pub added : List Header
  pub headers : s'.request.headers ≡ s.request.headers ++ added
  pub spells : map spelled added ≡ fields
  pub memory : s'.request.memory ≡ s.request.memory
  pub method : s'.request.method ≡ s.request.method
  pub uri : s'.request.uri ≡ s.request.uri
  pub read_ahead : s'.request.read_ahead ≡ s.pos + length (field_lines fields) + 2
  pub read_ahead_length :
      s'.request.read_ahead_length ≡ bytes_read - (s.pos + length (field_lines fields) + 2)
  pub close : s'.header_connection_close ≡ close_of s.header_connection_close fields
  pub content_length : s'.header_content_length ≡ length_of s.header_content_length fields

no_fields : (bytes_read : ℕ) (s : Scan) → FieldsRead bytes_read s [] (ended bytes_read s)
unfolding close_of length_of
no_fields bytes_read s = record {
  added = [];
  headers = sym (append-nil s.request.headers);
  spells = refl;
  memory = refl;
  method = refl;
  uri = refl;
  read_ahead = omega arith;
  read_ahead_length = omega arith;
  close = refl;
  content_length = refl;
}

more_fields :
    (bytes_read : ℕ) (s s1 s' : Scan) (field : Bytes × Bytes) (fields : List (Bytes × Bytes))
    → Advances s field s1
    → FieldsRead bytes_read s1 fields s'
    → FieldsRead bytes_read s (field ∷ fields) s'
unfolding close_of length_of
more_fields bytes_read s s1 s' (name, text) fields a r =
    let size = length-append (field_line (name, text)) (b'\n' ∷ field_lines fields) in
    record {
      added = a.header ∷ r.added;
      headers =
          r.headers
          ∙ ap (λ hs. hs ++ r.added) a.took.headers
          ∙ append_assoc s.request.headers (a.header ∷ []) r.added;
      spells = ap (λ x. x ∷ map spelled r.added) a.spells ∙ ap (λ xs. (name, text) ∷ xs) r.spells;
      memory = r.memory ∙ a.took.memory;
      method = r.method ∙ a.took.method;
      uri = r.uri ∙ a.took.uri;
      read_ahead = omega (arith, r.read_ahead, a.took.position, size);
      read_ahead_length = omega (arith, r.read_ahead_length, a.took.position, size);
      close = r.close ∙ ap (λ c. close_of c fields) a.took.close;
      content_length = r.content_length ∙ ap (λ l. length_of l fields) a.took.content_length;
    }

-- A chunk that holds the fields and the empty line behind them is read to its end, each field is
-- added in turn, and what is behind the empty line is what is read ahead.
pub scan_lines-FieldsRead :
    (max rounds bytes_read : ℕ) (s : Scan) (fields : List (Bytes × Bytes)) (rest : Bytes)
    → Ahead s (field_lines fields ++ (codes "\r\n" ++ rest))
    → s.pos + length (field_lines fields) + 2 ≤ bytes_read
    → length fields < rounds
    → length s.request.headers + length fields ≤ max
    → All WellFormed fields
    → (s' : Scan) × (scan_lines max rounds bytes_read s ≡ ret (done s'))
      × FieldsRead bytes_read s fields s'
scan_lines-FieldsRead max zero bytes_read s fields rest e fits enough few well =
    absurd (omega arith)
scan_lines-FieldsRead max (suc rounds) bytes_read s [] rest e fits enough few well = (
  ended bytes_read s,
  empty_line max rounds bytes_read s rest e (omega arith) (omega arith),
  no_fields bytes_read s,
)
scan_lines-FieldsRead max (suc rounds) bytes_read s (field ∷ fields) rest e fits enough few
      (w, ws) =
    let behind = field_lines fields ++ (codes "\r\n" ++ rest) in
    let line = field_line field in
    let size = length-append line (b'\n' ∷ field_lines fields) in
    let here : Ahead s (line ++ b'\n' ∷ behind) =
      e ∙ append_assoc line (b'\n' ∷ field_lines fields) (codes "\r\n" ++ rest) in
    let (s1, stepped, a) =
      header_line-Advances max bytes_read (bytes_read - s.pos) s field (b'\n' ∷ behind)
        (λ s1. scan_lines max rounds bytes_read s1) w (omega arith) in
    let next : Ahead s1 behind =
      ap (λ m. drop s1.pos m.ptr) a.took.memory
      ∙ ap_at (λ k. drop k s.request.memory.ptr) s1.pos (s.pos + (length line + 1))
          (omega (arith, a.took.position))
      ∙ drop-drop s.pos (length line + 1) s.request.memory.ptr
      ∙ ap (drop (length line + 1)) here
      ∙ drop-drop (length line) 1 (line ++ b'\n' ∷ behind)
      ∙ ap (drop 1) (drop-length-append line (b'\n' ∷ behind)) in
    let counted : length s1.request.headers ≡ length s.request.headers + 1 =
      ap length a.took.headers ∙ length-append s.request.headers (a.header ∷ []) in
    let (s', scanned, r) =
      scan_lines-FieldsRead max rounds bytes_read s1 fields rest next
        (omega (arith, a.took.position, size)) (omega arith) (omega (arith, counted)) ws in
    (
      s',
      line_step max rounds bytes_read s line behind here (field_line-Lacks field w)
            (omega (arith, size)) (omega arith)
          ∙ stepped
          ∙ scanned,
      more_fields bytes_read s s1 s' field fields a r,
    )
