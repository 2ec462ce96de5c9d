-- ===== src/Examples/Static/Regions.antt =====
-- Parts of a block that later writes leave as they are.
use highway.Prelude.{
  zero, suc, ◌+◌, ◌≤◌, ◌≡◌, refl, sym, ap, ◌∙◌, [], ◌∷◌, ◌++◌, Bytes, ℕ, length, take, drop, arith,
  ap_at, length-take, take-length-append, drop-length-append, take-append-drop,
}
use highway.Memory.Write.{overwrite}

-- The first bytes of a text do not depend on what follows.
pub region-append :
    (k a : ℕ) (xs ys : Bytes) → a + k ≤ length xs → take k (drop a (xs ++ ys)) ≡ take k (drop a xs)
region-append zero a xs ys h = refl
region-append (suc k) zero [] ys h = absurd (omega arith)
region-append (suc k) zero (x ∷ xs) ys h =
    ap (λ t. x ∷ t) (region-append k zero xs ys (omega arith))
region-append (suc k) (suc a) [] ys h = absurd (omega arith)
region-append (suc k) (suc a) (x ∷ xs) ys h = region-append (suc k) a xs ys (omega arith)

-- A write behind a part of a block leaves it.
pub region-overwrite :
    (k a : ℕ) (block : Bytes) (i : ℕ) (src : Bytes)
    → a + k ≤ i
    → i ≤ length block
    → take k (drop a (overwrite block i src)) ≡ take k (drop a block)
region-overwrite k a block i src before inside =
    region-append k a (take i block) _ (omega (arith, length-take i block))
    ∙ sym (region-append k a (take i block) (drop i block) (omega (arith, length-take i block)))
    ∙ ap (λ b. take k (drop a b)) (take-append-drop i block)

-- What is written is read back.
pub region-written :
    (block : Bytes) (i : ℕ) (src : Bytes)
    → i ≤ length block
    → take (length src) (drop i (overwrite block i src)) ≡ src
region-written block i src inside =
    let size : i ≡ length (take i block) = omega (arith, length-take i block) in
    ap_at (λ k. take (length src) (drop k (overwrite block i src))) i (length (take i block)) size
    ∙ ap (take (length src))
        (drop-length-append (take i block) (src ++ drop (i + length src) block))
    ∙ take-length-append src (drop (i + length src) block)
