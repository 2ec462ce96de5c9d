-- ===== src/FileContent/Ends.antt =====
-- The steps of a traversal that do not descend.
use highway.Prelude.{
  ℕ, zero, suc, ◌+◌, ◌-◌, ◌≤◌, ◌<◌, Bool, false, [], ◌∷◌, Bytes, length, get_elem?, take, drop,
  Option, none, some, Outcome, ret, ◌>>=◌, access, arith, Ends, Any, >>=-Ends, if-Ends, access-Ends,
  ltb, ◌==◌, if◌then◌else◌,
}
use highway.Text.{string_set, suffix}
use highway.Text.Ends.{suffix-Ends}
use highway.Memory.{write, mempy, copy}
use highway.FileContent.{max_path, ignored, c_string, place, file_at}

-- A copy ends at most `capacity` bytes behind `dest`, and behind it if there is something to copy.
abbrev Lands : Bytes → ℕ → ℕ → Option ℕ × Bytes → Type 0
Lands src dest capacity (none, block) = Unit
Lands src dest capacity (some end, block) =
    (dest ≤ end) × (end ≤ dest + capacity) × (0 < length src → dest < end)

write-Ends : (block : Bytes) (i : ℕ) (src : Bytes) → Ends Any (write block i src)
unfolding write
write-Ends block i [] = tt
write-Ends [] i (c ∷ src) = tt
write-Ends (b ∷ block) (suc i) (c ∷ src) =
    >>=-Ends Any Any (write block i (c ∷ src)) (λ rest. ret (b ∷ rest))
      (write-Ends block i (c ∷ src)) (λ rest h. tt)
write-Ends (b ∷ block) zero (c ∷ src) =
    >>=-Ends Any Any (write block zero src) (λ rest. ret (c ∷ rest)) (write-Ends block zero src)
      (λ rest h. tt)

copy-Ends :
    (src block : Bytes) (dest capacity : ℕ)
    → Ends (Lands src dest capacity) (copy src block dest capacity)
unfolding copy mempy
copy-Ends src block dest capacity =
    let n = if ltb capacity (length src) then capacity else length src in
    let written : Outcome (Option ℕ × Bytes) = (do
      block' ← write block dest (take n src)
      ret (some (dest + n), block')) in
    if-Ends (Lands src dest capacity) (length src == 0) (ret (some dest, block))
      (if capacity == 0 then ret (none, block) else written)
      (λ t. (omega arith, omega arith, λ h. ground (arith, t, h)))
      (λ t.
        if-Ends (Lands src dest capacity) (capacity == 0) (ret (none, block)) written (λ t'. tt)
          (λ t'.
            >>=-Ends Any (Lands src dest capacity) (write block dest (take n src))
              (λ block'. ret (some (dest + n), block')) (write-Ends block dest (take n src))
              (λ block' h. (omega arith, ground arith, λ h'. ground arith))))

-- A copy whose end is used.
pub copy-then-Ends {ℓ} :
    {A : Type ℓ} (P : A → Type 0) (src block : Bytes) (dest capacity : ℕ)
    (k : ℕ → Bytes → Outcome A)
    → ((end : ℕ) (block' : Bytes)
        → dest ≤ end
        → end ≤ dest + capacity
        → (0 < length src → dest < end)
        → Ends P (k end block'))
    → Ends P (do (end, block') ← copy src block dest capacity; path ← access end; k path block')
copy-then-Ends P src block dest capacity k h =
    >>=-Ends (Lands src dest capacity) P (copy src block dest capacity)
      (λ (end, block'). access end >>= λ path. k path block') (copy-Ends src block dest capacity)
      at_end
  where
    at_end :
        (r : Option ℕ × Bytes)
        → Lands src dest capacity r
        → Ends P (access r.0 >>= λ path. k path r.1)
    at_end (none, block') l = tt
    at_end (some end, block') l = h end block' l.0 l.1 l.2

pub ignored-Ends : (name : Bytes) (len : ℕ) → Ends Any (ignored name len)
unfolding ignored
ignored-Ends [] len =
    if-Ends Any (ltb 2 len) _ _ (λ t. tt)
      (λ t.
        if-Ends Any (ltb 1 len) _ _ (λ t'. tt)
          (λ t'. if-Ends Any (len == 1) _ _ (λ t2. tt) (λ t2. tt)))
ignored-Ends (c ∷ name) len =
    let second : Outcome Bool = access (get_elem? name 0) >>= λ d. ret (d == b'.') in
    if-Ends Any (ltb 2 len) _ _ (λ t. tt)
      (λ t.
        if-Ends Any (ltb 1 len) (if c == b'.' then second else ret false) _
          (λ t'.
            if-Ends Any (c == b'.') second (ret false)
              (λ e.
                >>=-Ends Any Any (access (get_elem? name 0)) (λ d. ret (d == b'.'))
                  (access-Ends (get_elem? name 0)) (λ d h. tt))
              (λ e. tt))
          (λ t'. if-Ends Any (len == 1) _ _ (λ t2. tt) (λ t2. tt)))

pub c_string-Ends : (s : Bytes) → Ends Any (c_string s)
unfolding c_string
c_string-Ends [] = tt
c_string-Ends (c ∷ s) =
    if-Ends Any (c == 0) (ret []) (do bs ← c_string s; ret (c ∷ bs)) (λ t. tt)
      (λ t. >>=-Ends Any Any (c_string s) (λ bs. ret (c ∷ bs)) (c_string-Ends s) (λ bs h. tt))

pub file_at-Ends : (path : Bytes) (path2 len : ℕ) → Ends Any (file_at path path2 len)
unfolding file_at
file_at-Ends path path2 len =
    if-Ends Any (ltb path2 len) _ _ (λ t. tt)
      (λ t.
        >>=-Ends Any Any (suffix (string_set (drop (path2 - len) path) len) b'.')
          (λ s. ret (record {
            path = string_set path path2;
            filename = string_set (drop (path2 - len) path) len;
            suffix = s;
          }))
          (suffix-Ends (string_set (drop (path2 - len) path) len) b'.') (λ s h. tt))

-- The path is placed at or behind `path1`.
pub place-Ends :
    (name path : Bytes) (path1 : ℕ)
    → path1 ≤ max_path
    → Ends (λ r. (path1 ≤ r.0) × (r.0 ≤ max_path)) (place name path path1)
unfolding place
place-Ends name path path1 room =
    copy-then-Ends (λ r. (path1 ≤ r.0) × (r.0 ≤ max_path)) name path path1 (max_path - path1)
      (λ path2 named. do
        (end, terminated) ← copy (0 ∷ []) named path2 (max_path - path2)
        ret (path2, terminated))
      (λ path2 named lo hi behind.
        >>=-Ends (Lands (0 ∷ []) path2 (max_path - path2)) (λ r. (path1 ≤ r.0) × (r.0 ≤ max_path))
          (copy (0 ∷ []) named path2 (max_path - path2)) (λ r. ret (path2, r.1))
          (copy-Ends (0 ∷ []) named path2 (max_path - path2)) (λ r h. (lo, omega arith)))
