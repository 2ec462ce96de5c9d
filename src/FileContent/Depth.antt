-- ===== src/FileContent/Depth.antt =====
-- The depth of a traversal.
use highway.Prelude.{
  ℕ, zero, suc, ◌-◌, ◌≤◌, ◌<◌, Bool, true, false, List, [], ◌∷◌, Bytes, codes, length, Option, none,
  some, Outcome, ret, ◌>>=◌, access, arith, Ends, Any, >>=-Ends, if-Ends, ◌==◌, if◌then◌else◌,
}
use highway.Memory.{copy}
use highway.FileContent.{
  TraverseError, success, not_found, path_len, aborted, Entry, File, max_path, ignored, c_string,
  place, file_at, on_success, on_answer, round_directory, round_file, scan, opened, Traversal,
  traverse1, traverse, depths,
}
use highway.FileContent.Ends.{copy-then-Ends, ignored-Ends, c_string-Ends, file_at-Ends, place-Ends}

module _ {S : Type 0} where
  on_success-Ends :
      (r : TraverseError × S × Bytes) (next : S → Bytes → Traversal S)
      → ((s : S) (path : Bytes) → Ends Any (next s path))
      → Ends Any (on_success r next)
  on_success-Ends (success, s, path) next h = h s path
  on_success-Ends (not_found, s, path) next h = tt
  on_success-Ends (path_len, s, path) next h = tt
  on_success-Ends (aborted, s, path) next h = tt

  on_answer-Ends :
      (r : Bool × S) (path : Bytes) (next : S → Bytes → Traversal S)
      → ((s : S) (path : Bytes) → Ends Any (next s path))
      → Ends Any (on_answer r path next)
  on_answer-Ends (true, s) path next h = h s path
  on_answer-Ends (false, s) path next h = tt

module _ {S : Type 0} (opendir : Bytes → Option (List Entry)) (func : File → S → Bool × S) where
  -- A recursive call that ends, from this far in the path on.
  abbrev Ending : ℕ → (Bytes → ℕ → S → Traversal S) → Type 0
  Ending least descend =
      (path : Bytes) (path0 : ℕ) (s : S)
      → least ≤ path0
      → path0 ≤ max_path
      → Ends Any (descend path path0 s)

  round_directory-Ends :
      (descend : Bytes → ℕ → S → Traversal S) (name path : Bytes) (path2 : ℕ) (s : S)
      (next : S → Bytes → Traversal S)
      → Ends Any (descend path path2 s)
      → ((s : S) (path : Bytes) → Ends Any (next s path))
      → Ends Any (round_directory opendir func descend name path path2 s next)
  unfolding round_directory
  round_directory-Ends descend name path path2 s next d h =
      >>=-Ends Any Any (ignored name (length name))
        (λ skipped.
          if skipped then next s path else (do r ← descend path path2 s; on_success r next))
        (ignored-Ends name (length name))
        (λ skipped t.
          if-Ends Any skipped (next s path) (do r ← descend path path2 s; on_success r next)
            (λ e. h s path)
            (λ e.
              >>=-Ends Any Any (descend path path2 s) (λ r. on_success r next) d
                (λ r t'. on_success-Ends r next h)))

  round_file-Ends :
      (name path : Bytes) (path2 : ℕ) (s : S) (next : S → Bytes → Traversal S)
      → ((s : S) (path : Bytes) → Ends Any (next s path))
      → Ends Any (round_file opendir func name path path2 s next)
  unfolding round_file
  round_file-Ends name path path2 s next h =
      >>=-Ends Any Any (file_at path path2 (length name))
        (λ file. on_answer (func file s) path next) (file_at-Ends path path2 (length name))
        (λ file t. on_answer-Ends (func file s) path next h)

  scan-Ends :
      (descend : Bytes → ℕ → S → Traversal S) (entries : List Entry) (path : Bytes) (path1 : ℕ)
      (s : S)
      → Ending path1 descend
      → path1 ≤ max_path
      → Ends Any (scan opendir func descend entries path path1 s)
  unfolding scan
  scan-Ends descend [] path path1 s d room = tt
  scan-Ends descend (entry ∷ entries) path path1 s d room =
      let next : S → Bytes → Traversal S = λ s1 p. scan opendir func descend entries p path1 s1 in
      let rest : (s1 : S) (p : Bytes) → Ends Any (next s1 p) =
        λ s1 p. scan-Ends descend entries p path1 s1 d room in
      >>=-Ends (λ r. (path1 ≤ r.0) × (r.0 ≤ max_path)) Any (place entry.d_name path path1)
        (λ (path2, placed).
          if entry.is_directory
          then round_directory opendir func descend entry.d_name placed path2 s next
          else round_file opendir func entry.d_name placed path2 s next)
        (place-Ends entry.d_name path path1 room)
        (λ r at.
          if-Ends Any entry.is_directory
            (round_directory opendir func descend entry.d_name r.1 r.0 s next)
            (round_file opendir func entry.d_name r.1 r.0 s next)
            (λ t.
              round_directory-Ends descend entry.d_name r.1 r.0 s next (d r.1 r.0 s at.0 at.1) rest)
            (λ t. round_file-Ends entry.d_name r.1 r.0 s next rest))

  opened-Ends :
      (descend : Bytes → ℕ → S → Traversal S) (listed : Option (List Entry)) (path : Bytes)
      (path1 : ℕ) (s : S)
      → Ending path1 descend
      → path1 ≤ max_path
      → Ends Any (opened opendir func descend listed path path1 s)
  opened-Ends descend none path path1 s d room = tt
  opened-Ends descend (some entries) path path1 s d room =
      scan-Ends descend entries path path1 s d room

  traverse1-Ends : (depth : ℕ) → Ending (suc max_path - depth) (traverse1 opendir func depth)
  unfolding traverse1
  traverse1-Ends zero path path0 s long room = absurd (omega arith)
  traverse1-Ends (suc depth) path path0 s long room =
      let open_path : Bytes → ℕ → Traversal S = λ dotted path1. (do
        name ← c_string dotted
        opened opendir func (traverse1 opendir func depth) (opendir name) dotted path1 s) in
      let dot : ℕ → Bytes → Traversal S = λ path1 slashed. (do
        (end2, dotted) ← copy (b'.' ∷ 0 ∷ []) slashed path1 (max_path - path1)
        path2 ← access end2
        if path2 - path1 == 2 then open_path dotted path1 else ret (path_len, s, dotted)) in
      copy-then-Ends Any (codes "/") path path0 (max_path - path0) dot
        (λ path1 slashed lo hi behind.
          let deeper : path0 < path1 = behind (omega arith) in
          copy-then-Ends Any (b'.' ∷ 0 ∷ []) slashed path1 (max_path - path1)
            (λ path2 dotted.
              if path2 - path1 == 2 then open_path dotted path1 else ret (path_len, s, dotted))
            (λ path2 dotted lo2 hi2 behind2.
              if-Ends Any (path2 - path1 == 2) (open_path dotted path1) (ret (path_len, s, dotted))
                (λ t.
                  >>=-Ends Any Any (c_string dotted)
                    (λ name.
                      opened opendir func (traverse1 opendir func depth) (opendir name) dotted path1
                        s)
                    (c_string-Ends dotted)
                    (λ name h.
                      opened-Ends (traverse1 opendir func depth) (opendir name) dotted path1 s
                        (λ p p0 s' long' room'. traverse1-Ends depth p p0 s' (omega arith) room')
                        (omega arith)))
                (λ t. tt)))

  -- `hiw_file_traverse` comes to an end, be it in undefined behaviour, whatever the system lists,
  -- even for a directory that holds itself, as long as every listing does.
  pub traverse-Ends : (root path : Bytes) (s : S) → Ends Any (traverse opendir func root path s)
  unfolding traverse
  traverse-Ends root path s =
      let from_root : ℕ → Bytes → Outcome (TraverseError × S) = λ path0 rooted. (do
        (err, s', path') ← traverse1 opendir func depths rooted path0 s
        ret (err, s')) in
      copy-then-Ends Any root path 0 max_path from_root (λ path0 rooted lo hi behind.
        >>=-Ends Any Any (traverse1 opendir func depths rooted path0 s) (λ r. ret (r.0, r.1))
          (traverse1-Ends depths rooted path0 s (omega arith) (omega arith)) (λ r h. tt))
