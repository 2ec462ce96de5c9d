-- ===== src/Number/Mirror.antt =====
-- The swaps of `hiw_std_uitoc`.
use mathlib.Core.List.{reverse-append, reverse-cons}
use highway.Prelude.{
  ◌≤◌, ℕ, zero, suc, ◌+◌, ◌-◌, ◌/◌, ◌≡◌, refl, sym, ap, ◌∙◌, [], ◌∷◌, ◌++◌, append-nil,
  append_assoc, reverse, Bytes, length, get_or, set, arith, ap_at, length-append,
}
use highway.Number.{swap, mirror_loop, mirror}

get_or-length : (xs : Bytes) (y : ℕ) (ys : Bytes) → get_or (xs ++ y ∷ ys) (length xs) 0 ≡ y
get_or-length [] y ys = refl
get_or-length (x ∷ xs) y ys = get_or-length xs y ys

set-length : (xs : Bytes) (y v : ℕ) (ys : Bytes) → set (xs ++ y ∷ ys) (length xs) v ≡ xs ++ v ∷ ys
set-length [] y v ys = refl
set-length (x ∷ xs) y v ys = ap (λ u. x ∷ u) (set-length xs y v ys)

-- A swap of two bytes exchanges them.
swap_ends :
    (before : Bytes) (a : ℕ) (middle : Bytes) (b : ℕ) (behind : Bytes) (i j : ℕ)
    → i ≡ length before
    → j ≡ length before + suc (length middle)
    → swap (before ++ a ∷ (middle ++ b ∷ behind)) i j ≡ before ++ b ∷ (middle ++ a ∷ behind)
unfolding swap
swap_ends before a middle b behind i j hi hj =
    let regroup = λ (x : ℕ). append_assoc before (x ∷ middle) (b ∷ behind) in
    let size : j ≡ length (before ++ b ∷ middle) =
      omega (arith, length-append before (b ∷ middle)) in
    let size' : j ≡ length (before ++ a ∷ middle) =
      omega (arith, length-append before (a ∷ middle)) in
    let last : get_or (before ++ a ∷ (middle ++ b ∷ behind)) j 0 ≡ b =
      ap_at (λ k. get_or (before ++ a ∷ (middle ++ b ∷ behind)) k 0) j _ size'
      ∙ ap (λ u. get_or u (length (before ++ a ∷ middle)) 0) (sym (regroup a))
      ∙ get_or-length (before ++ a ∷ middle) b behind in
    let first : get_or (before ++ a ∷ (middle ++ b ∷ behind)) i 0 ≡ a =
      ap_at (λ k. get_or (before ++ a ∷ (middle ++ b ∷ behind)) k 0) i _ hi
      ∙ get_or-length before a (middle ++ b ∷ behind) in
    rw (last, first)
      (ap_at (λ k. set (set (before ++ a ∷ (middle ++ b ∷ behind)) k b) j a) i _ hi
        ∙ ap (λ u. set u j a) (set-length before a b (middle ++ b ∷ behind))
        ∙ ap_at (λ k. set (before ++ b ∷ (middle ++ b ∷ behind)) k a) j _ size
        ∙ ap (λ u. set u (length (before ++ b ∷ middle)) a) (sym (regroup b))
        ∙ set-length (before ++ b ∷ middle) b a behind
        ∙ append_assoc before (b ∷ middle) (a ∷ behind))

-- A text of two bytes or more has a first and a last.
abbrev Ends : Bytes → Type 0
Ends xs = (a : ℕ) × (middle : Bytes) × (b : ℕ) × (xs ≡ a ∷ (middle ++ b ∷ []))

ends : (xs : Bytes) → 2 ≤ length xs → Ends xs
ends [] h = absurd (omega arith)
ends (a ∷ []) h = absurd (omega arith)
ends (a ∷ b ∷ []) h = (a, [], b, refl)
ends (a ∷ b ∷ c ∷ xs) h =
    let (x, middle, y, e) = ends (b ∷ c ∷ xs) (omega arith) in (a, x ∷ middle, y, ap (λ u. a ∷ u) e)

reverse_short : (xs : Bytes) → length xs ≤ 1 → reverse xs ≡ xs
reverse_short [] h = refl
reverse_short (x ∷ []) h = refl
reverse_short (x ∷ y ∷ xs) h = absurd (omega arith)

reverse_ends :
    (a : ℕ) (middle : Bytes) (b : ℕ)
    → reverse (a ∷ (middle ++ b ∷ [])) ≡ b ∷ (reverse middle ++ a ∷ [])
reverse_ends a middle b =
    reverse-cons a (middle ++ b ∷ []) ∙ ap (λ u. u ++ a ∷ []) (reverse-append middle (b ∷ []))

-- The swaps reverse what lies between `i` bytes in front and `i` bytes behind.
mirror_loop-reverse :
    (k i : ℕ) (before middle behind : Bytes)
    → i ≡ length before
    → i ≡ length behind
    → length middle / 2 ≡ k
    → mirror_loop k i (i + length middle + i) (before ++ (middle ++ behind))
      ≡ before ++ (reverse middle ++ behind)
unfolding mirror_loop
mirror_loop-reverse zero i before middle behind hb hr hk =
    ap (λ u. before ++ (u ++ behind)) (sym (reverse_short middle (omega arith)))
mirror_loop-reverse (suc k) i before middle behind hb hr hk =
    let (a, inner, b, e) = ends middle (omega arith) in
    let size : length middle ≡ length inner + 2 =
      omega (arith, ap (λ (u : Bytes). length u) e, length-append inner (b ∷ [])) in
    let text : before ++ (middle ++ behind) ≡ before ++ a ∷ (inner ++ b ∷ behind) =
      ap (λ u. before ++ (u ++ behind)) e
      ∙ ap (λ u. before ++ a ∷ u) (append_assoc inner (b ∷ []) behind) in
    let back : b ∷ (reverse inner ++ a ∷ behind) ≡ reverse middle ++ behind =
      ap (λ u. b ∷ u) (sym (append_assoc (reverse inner) (a ∷ []) behind))
      ∙ ap (λ u. u ++ behind) (sym (ap reverse e ∙ reverse_ends a inner b)) in
    ap
      (λ u.
        mirror_loop k (i + 1) (i + length middle + i) (swap u i (i + length middle + i - i - 1)))
      text
    ∙ ap (mirror_loop k (i + 1) (i + length middle + i)) (
        swap_ends before a inner b behind i (i + length middle + i - i - 1) hb (omega arith)
        ∙ sym (append_assoc before (b ∷ []) (inner ++ a ∷ behind)))
    ∙ ap_at (λ w. mirror_loop k (i + 1) w ((before ++ b ∷ []) ++ (inner ++ a ∷ behind)))
        (i + length middle + i) (i + 1 + length inner + (i + 1)) (omega arith)
    ∙ mirror_loop-reverse k (i + 1) (before ++ b ∷ []) inner (a ∷ behind)
        (omega (arith, length-append before (b ∷ []))) (omega arith) (omega arith)
    ∙ append_assoc before (b ∷ []) (reverse inner ++ a ∷ behind)
    ∙ ap (λ u. before ++ u) back

-- The mirror loop of `hiw_std_uitoc` reverses the digits that are written.
pub mirror-reverse : (dest : Bytes) → mirror dest ≡ reverse dest
unfolding mirror
mirror-reverse dest =
    ap_at (λ w. mirror_loop (length dest / 2) 0 w dest) (length dest) (0 + length dest + 0)
      (omega arith)
    ∙ ap (mirror_loop (length dest / 2) 0 (0 + length dest + 0)) (sym (append-nil dest))
    ∙ mirror_loop-reverse (length dest / 2) 0 [] dest [] refl refl refl
    ∙ append-nil (reverse dest)
