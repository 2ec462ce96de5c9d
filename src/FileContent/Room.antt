-- ===== src/FileContent/Room.antt =====
-- Root paths with no room behind them.
use highway.Prelude.{
  ℕ, suc, ◌+◌, ◌-◌, ◌≤◌, ◌<◌, ◌≡◌, refl, ◌∙◌, Bool, inl, inr, List, [], ◌∷◌, ◌++◌, Bytes, codes,
  length, take, length-take, length-append, ap_at, Option, none, some, ret, fault, >>=-ret,
  >>=-fault, arith, ltb, ltb→lt, ltb-le, ◌==◌, ==-ne, ==_iff, if◌then◌else◌, if_true, if_false,
  Bool-cases,
}
use highway.Memory.{mempy, copy}
use highway.Memory.Write.{overwrite, write-overwrite}
use highway.FileContent.{Entry, File, max_path, traverse1, traverse}
use highway.FileContent.Fits.{Starts, copy-Starts}

copy-none :
    (src block : Bytes) (dest capacity : ℕ)
    → 0 < length src
    → capacity ≡ 0
    → copy src block dest capacity ≡ ret (none, block)
unfolding copy mempy
copy-none src block dest capacity some_bytes none_left =
    if_false (length src == 0) _ _ (==-ne (length src) 0 (omega arith))
    ∙ if_true (capacity == 0) _ _ ((==_iff capacity 0).1 none_left)

copy_cut :
    (src block : Bytes) (capacity : ℕ)
    → 0 < capacity
    → capacity ≤ length src
    → capacity ≤ length block
    → (block' : Bytes) × (copy src block 0 capacity ≡ ret (some capacity, block'))
unfolding copy mempy
copy_cut src block capacity some_room long fits =
    let n = if ltb capacity (length src) then capacity else length src in
    let same : n ≡ capacity = ground arith in
    let short : 0 + length (take n src) ≤ length block = omega (arith, same, length-take n src) in
    (
      overwrite block 0 (take n src),
      if_false (length src == 0) _ _ (==-ne (length src) 0 (omega arith))
          ∙ if_false (capacity == 0) _ _ (==-ne capacity 0 (omega arith))
          ∙ >>=-ret _ _ _ (write-overwrite block 0 (take n src) short)
          ∙ ap_at (λ k. ret (some k, overwrite block 0 (take n src))) (0 + n) capacity
              (omega (arith, same)),
    )

module _ {S : Type 0} (opendir : Bytes → Option (List Entry)) (func : File → S → Bool × S) where
  no_slash :
      (depth : ℕ) (path : Bytes) (path0 : ℕ) (s : S)
      → max_path ≤ path0
      → traverse1 opendir func (suc depth) path path0 s ≡ fault
  unfolding traverse1
  no_slash depth path path0 s full =
      >>=-ret _ _ _
        (copy-none (codes "/") path path0 (max_path - path0) (omega arith) (omega arith))

  no_dot :
      (depth : ℕ) (root path : Bytes) (s : S)
      → length root + 1 ≡ max_path
      → Starts path root
      → traverse1 opendir func (suc depth) path (length root) s ≡ fault
  unfolding traverse1
  no_dot depth root path s full st =
      let front = root ++ codes "/" in
      let (slashed, eq1, st1) = copy-Starts path root (codes "/") st (omega arith) in
      >>=-ret _ _ _ eq1
      ∙ >>=-ret _ _ _ (
          copy-none (b'.' ∷ 0 ∷ []) slashed (length front) (max_path - length front) (omega arith)
            (omega (arith, length-append root (codes "/"))))

  -- A root path that leaves no room for a byte behind its slash is not refused: the pointer that a
  -- copy answers is NULL, and pointers are counted from it.
  pub traverse_too_long :
      (root path : Bytes) (s : S)
      → length path ≡ max_path
      → max_path ≤ length root + 1
      → traverse opendir func root path s ≡ fault
  unfolding traverse
  traverse_too_long root path s size long = elim (Bool-cases (ltb (length root) max_path)) [
    | inl t ↦
        let (rooted, eq, st) =
          copy-Starts path [] root (record { size = size; spells = refl })
            (omega (arith, ltb→lt _ _ t)) in
        >>=-ret _ _ _ eq
        ∙ >>=-fault _ _ (no_dot max_path root rooted s (omega (arith, ltb→lt _ _ t)) st)
    | inr f ↦
        let (rooted, eq) =
          copy_cut root path max_path (omega arith) (ltb-le _ _ f) (omega (arith, size)) in
        >>=-ret _ _ _ eq ∙ >>=-fault _ _ (no_slash max_path rooted max_path s (omega arith))
  ]
