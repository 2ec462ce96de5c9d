-- ===== src/FileContent.antt =====
-- The traversal of a file tree, servlet/src/hiw_file_content.c in the build for POSIX systems, and
-- servlet/include/hiw_file_content.h.
pub mod Fits
pub mod Files
pub mod Walk
pub mod Rounds
pub mod InOrder
pub mod Ends
pub mod Depth
pub mod Room
use highway.Prelude.{
  ℕ, zero, suc, ◌-◌, Bool, true, false, List, [], ◌∷◌, Bytes, codes, length, drop, Option, none,
  some, Outcome, ret, fault, hang, access, ◌>>=◌, ltb, ◌==◌, if◌then◌else◌,
}
use highway.Text.{HiwString, string_set, at, suffix}
use highway.Memory.{copy}

-- `hiw_file_traverse_error`
pub data TraverseError : Type 0 where
  success : TraverseError
  not_found : TraverseError
  path_len : TraverseError
  aborted : TraverseError

-- `hiw_file`
pub record File : Type 0 where
  pub path : HiwString
  pub filename : HiwString
  pub suffix : HiwString

-- `struct dirent`: the name up to its zero byte, and whether `d_type` is `DT_DIR`.
pub record Entry : Type 0 where
  pub d_name : Bytes
  pub is_directory : Bool

-- `HIW_MAX_PATH`
abbrev pub max_path : ℕ
max_path = 1024

-- `hiw_file_ignored`
pub ignored : Bytes → ℕ → Outcome Bool
ignored filename len =
    if ltb 2 len
    then ret false
    else if ltb 1 len
    then (do
      c ← at filename 0
      if c == b'.' then (do d ← at filename 1; ret (d == b'.')) else ret false)
    else if len == 1
    then (do c ← at filename 0; ret (c == b'.'))
    else ret false

-- The string that starts at a pointer: its bytes up to the first zero.
unfoldable pub c_string : Bytes → Outcome Bytes
c_string [] = fault
c_string (c ∷ s) = let rest = (do bs ← c_string s; ret (c ∷ bs)) in if c == 0 then ret [] else rest

-- The name of an entry behind the directory's path, and a zero behind it if there is room: `path2`,
-- and the path. The pointer to the path is an offset into it.
pub place : Bytes → Bytes → ℕ → Outcome (ℕ × Bytes)
place d_name path path1 = do
  (end, named) ← copy d_name path path1 (max_path - path1)
  path2 ← access end
  (zero_end, terminated) ← copy (0 ∷ []) named path2 (max_path - path2)
  ret (path2, terminated)

-- The views of the file whose path ends at `path2`. `path2 - len` may not lie before the path.
pub file_at : Bytes → ℕ → ℕ → Outcome File
file_at path path2 len = if ltb path2 len then fault else do
  s ← suffix (string_set (drop (path2 - len) path) len) b'.'
  ret (record {
    path = string_set path path2;
    filename = string_set (drop (path2 - len) path) len;
    suffix = s;
  })

-- Every directory is a byte further into the path at least.
abbrev pub depths : ℕ
depths = suc max_path

-- What a traversal comes to: the error, the callback's state, and what the path holds.
abbrev pub Traversal : Type 0 → Type 0
Traversal S = Outcome (TraverseError × S × Bytes)

module _ {S : Type 0} where
  -- `if (err != HIW_FILE_TRAVERSE_ERROR_SUCCESS) return err;`
  abbrev pub on_success : TraverseError × S × Bytes → (S → Bytes → Traversal S) → Traversal S
  on_success (success, s, path) next = next s path
  on_success (not_found, s, path) next = ret (not_found, s, path)
  on_success (path_len, s, path) next = ret (path_len, s, path)
  on_success (aborted, s, path) next = ret (aborted, s, path)

  -- `if (!func(&file, userdata)) return HIW_FILE_TRAVERSE_ERROR_ABORTED;`
  abbrev pub on_answer : Bool × S → Bytes → (S → Bytes → Traversal S) → Traversal S
  on_answer (true, s) path next = next s path
  on_answer (false, s) path next = ret (aborted, s, path)

-- `S` is what the callback changes. `opendir` gives what `readdir` reads from the directory that it
-- opens, entry by entry; `none` is NULL.
module _ {S : Type 0} (opendir : Bytes → Option (List Entry)) (func : File → S → Bool × S) where
  -- A directory and another entry in the loop, once the path is placed. `descend` is the recursive
  -- call, `next` the rounds that follow.
  pub round_directory :
      (Bytes → ℕ → S → Traversal S)
      → Bytes
      → Bytes
      → ℕ
      → S
      → (S → Bytes → Traversal S)
      → Traversal S
  unfolding ignored
  round_directory descend d_name path path2 s next = do
    skipped ← ignored d_name (length d_name)
    if skipped then next s path else (do r ← descend path path2 s; on_success r next)

  pub round_file : Bytes → Bytes → ℕ → S → (S → Bytes → Traversal S) → Traversal S
  unfolding file_at
  round_file d_name path path2 s next = do
    file ← file_at path path2 (length d_name)
    on_answer (func file s) path next

  -- `while ((entry = readdir(dir)) != NULL)`
  pub scan : (Bytes → ℕ → S → Traversal S) → List Entry → Bytes → ℕ → S → Traversal S
  unfolding place round_directory round_file
  scan descend [] path path1 s = ret (success, s, path)
  scan descend (entry ∷ entries) path path1 s = do
    (path2, placed) ← place entry.d_name path path1
    let next : S → Bytes → Traversal S = λ s1 path3. scan descend entries path3 path1 s1
    if entry.is_directory
        then round_directory descend entry.d_name placed path2 s next
        else round_file entry.d_name placed path2 s next

  abbrev pub opened :
      (Bytes → ℕ → S → Traversal S) → Option (List Entry) → Bytes → ℕ → S → Traversal S
  opened descend none path path1 s = ret (not_found, s, path)
  opened descend (some entries) path path1 s = scan descend entries path path1 s

  -- From `path0` on, for some depth of directories.
  pub traverse1 : ℕ → Bytes → ℕ → S → Traversal S
  unfolding scan c_string
  traverse1 zero path path0 s = hang
  traverse1 (suc depth) path path0 s = do
    (end1, slashed) ← copy (codes "/") path path0 (max_path - path0)
    path1 ← access end1
    (end2, dotted) ← copy (b'.' ∷ 0 ∷ []) slashed path1 (max_path - path1)
    path2 ← access end2
    let open_path = (do
      name ← c_string dotted
      opened (traverse1 depth) (opendir name) dotted path1 s)
    if path2 - path1 == 2 then open_path else ret (path_len, s, dotted)

  -- `path` is what the array on the stack holds at first. From `path0` on the code is that of
  -- `hiw_file_traverse1`: the path that it also takes is for the log.
  unfoldable pub traverse : Bytes → Bytes → S → Outcome (TraverseError × S)
  unfolding traverse1
  traverse root_path path s = do
    (end0, rooted) ← copy root_path path 0 max_path
    path0 ← access end0
    (err, s', path') ← traverse1 depths rooted path0 s
    ret (err, s')
