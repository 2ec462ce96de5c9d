-- ===== src/Memory/Write.antt =====
-- What a copy leaves in a block.
use highway.Prelude.{
  ℕ, zero, suc, ◌+◌, ◌≤◌, ◌≡◌, sym, ap, ◌∙◌, [], ◌∷◌, ◌++◌, append_assoc, Bytes, length, take, drop,
  ret, arith, ap_at, length-append, length-take, take-length-append, take-length, ==-ne, le→ltb,
  some, ◌<◌, take-append-drop, length-drop,
}
use highway.Memory.{write, mempy}

-- A block after `src` is written at offset `i`.
abbrev pub overwrite : Bytes → ℕ → Bytes → Bytes
overwrite block i src = take i block ++ (src ++ drop (i + length src) block)

-- A copy that fits the block changes its own bytes only.
pub write-overwrite :
    (block : Bytes) (i : ℕ) (src : Bytes)
    → i + length src ≤ length block
    → write block i src ≡ ret (overwrite block i src)
unfolding write
write-overwrite block i [] h = ap ret (
    sym (take-append-drop i block)
    ∙ ap_at (λ k. take i block ++ drop k block) i (i + 0) (omega arith))
write-overwrite [] i (c ∷ src) h = absurd (omega arith)
write-overwrite (b ∷ block) (suc i) (c ∷ src) h =
    rw (write-overwrite block i (c ∷ src) (omega arith)) (
      ap_at (λ k. ret (b ∷ (take i block ++ c ∷ (src ++ drop k (b ∷ block)))))
        (suc (i + suc (length src))) (suc i + suc (length src)) (omega arith))
write-overwrite (b ∷ block) zero (c ∷ src) h = rw (write-overwrite block 0 src (omega arith)) (
    ap_at (λ k. ret (c ∷ (src ++ drop k (b ∷ block)))) (suc (0 + length src)) (0 + suc (length src))
      (omega arith))

pub length-overwrite :
    (block : Bytes) (i : ℕ) (src : Bytes)
    → i + length src ≤ length block
    → length (overwrite block i src) ≡ length block
length-overwrite block i src h = omega (
  arith,
  length-append (take i block) (src ++ drop (i + length src) block),
  length-append src (drop (i + length src) block),
  length-take i block,
  length-drop (i + length src) block,
)

-- The bytes up to the end of what is written.
pub take-overwrite :
    (block : Bytes) (i : ℕ) (src : Bytes)
    → i + length src ≤ length block
    → take (i + length src) (overwrite block i src) ≡ take i block ++ src
take-overwrite block i src h =
    let size : i + length src ≡ length (take i block ++ src) =
      omega (arith, length-append (take i block) src, length-take i block) in
    ap (take (i + length src)) (sym (append_assoc (take i block) src (drop (i + length src) block)))
    ∙ ap_at (λ k. take k ((take i block ++ src) ++ drop (i + length src) block)) (i + length src)
        (length (take i block ++ src)) size
    ∙ take-length-append (take i block ++ src) (drop (i + length src) block)

-- `hiw_std_mempy` of a source that is not empty and that fits the capacity and the block.
pub mempy-overwrite :
    (src block : Bytes) (dest capacity : ℕ)
    → 0 < length src
    → length src ≤ capacity
    → dest + length src ≤ length block
    → mempy src block dest capacity ≡ ret (some (dest + length src), overwrite block dest src)
unfolding mempy
mempy-overwrite src block dest capacity pos fits room =
    rw
      (
        ==-ne (length src) 0 (omega arith),
        ==-ne capacity 0 (omega arith),
        le→ltb capacity (length src) fits,
      )
      (rw (take-length src, write-overwrite block dest src room))

-- A copy of any source that fits.
pub mempy-appended :
    (src block : Bytes) (i : ℕ)
    → i + length src ≤ length block
    → mempy src block i (length src) ≡ ret (some (i + length src), overwrite block i src)
unfolding mempy
mempy-appended [] block i room =
    ap_at (λ k. ret (some k, block)) i (i + 0) (omega arith)
    ∙ ap (λ b. ret (some (i + 0), b))
        (sym (take-append-drop i block)
          ∙ ap_at (λ k. take i block ++ drop k block) i (i + 0) (omega arith))
mempy-appended (c ∷ src) block i room =
    mempy-overwrite (c ∷ src) block i _ (omega arith) (omega arith) room
