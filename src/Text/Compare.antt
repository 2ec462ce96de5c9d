-- ===== src/Text/Compare.antt =====
-- `hiw_string_cmp` and `hiw_string_cmpc`.
use highway.Prelude.{
  ==-self, ◌&&◌, ℕ, zero, suc, ◌≤◌, ◌≡◌, inl, inr, refl, ap, Bool, true, false, [], ◌∷◌, Bytes,
  length, take, Outcome, ret, arith, ◌==◌, Bool-cases, length-take, take-length, sym, ◌∙◌,
}
use highway.Text.{HiwString, IsView, bytes, cmp_loop, cmp, cmpc}

-- What a comparison of two texts must answer.
abbrev pub Decides : Outcome Bool → Bytes → Bytes → Type 0
Decides o xs ys = (b : Bool) × (o ≡ ret b) × (b ≡ true → xs ≡ ys) × (xs ≡ ys → b ≡ true)

cmp_loop_lem :
    (n : ℕ) (p q : Bytes)
    → n ≤ length p
    → n ≤ length q
    → Decides (cmp_loop n p q) (take n p) (take n q)
unfolding cmp_loop
cmp_loop_lem zero p q hp hq = (true, refl, (λ _. refl), (λ _. refl))
cmp_loop_lem (suc n) [] q hp hq = absurd (omega arith)
cmp_loop_lem (suc n) (a ∷ p) [] hp hq = absurd (omega arith)
cmp_loop_lem (suc n) (a ∷ p) (b ∷ q) hp hq =
    let (r, e, f, g) = cmp_loop_lem n p q (omega arith) (omega arith) in
    elim (Bool-cases (a == b)) [
      | inl t ↦ (r, rw t e, (λ h. ground (arith, f h)), (λ h. g (ground arith)))
      | inr t ↦ (false, rw t, (λ h. cc), (λ h. ground arith))
    ]

text_length : (s : HiwString) → IsView s → length (bytes s) ≡ s.length
text_length s v = omega (arith, length-take s.length s.begin)

-- On two views `hiw_string_cmp` reads inside them, and answers whether they hold the same text.
pub cmp-Decides :
    (s1 s2 : HiwString) → IsView s1 → IsView s2 → Decides (cmp s1 s2) (bytes s1) (bytes s2)
unfolding cmp
cmp-Decides s1 s2 v1 v2 = elim (Bool-cases (s1.length == s2.length)) [
  | inl t ↦
      let e : s1.length ≡ s2.length = ground arith in
      rw t (rw (← e) (cmp_loop_lem s1.length s1.begin s2.begin v1 (omega arith)))
  | inr t ↦ (
    false,
    rw t,
    (λ h. cc),
    (λ h. ground (arith, text_length s1 v1, text_length s2 v2, ap (λ (u : Bytes). length u) h)),
  )
]

-- `hiw_string_cmpc` with the constant's own length.
pub cmpc-Decides :
    (s : HiwString) (c : Bytes) → IsView s → Decides (cmpc s c (length c)) (bytes s) c
unfolding cmpc
cmpc-Decides s c v = elim (Bool-cases (s.length == length c)) [
  | inl t ↦
      let e : s.length ≡ length c = ground arith in
      let (r, f, g, k) = cmp_loop_lem (length c) s.begin c (omega arith) (omega arith) in
      (
        r,
        rw t f,
        (λ h. ap (λ n. take n s.begin) e ∙ g h ∙ take-length c),
        (λ h. k (ap (λ n. take n s.begin) (sym e) ∙ h ∙ sym (take-length c))),
      )
  | inr t ↦ (
    false,
    rw t,
    (λ h. cc),
    (λ h. ground (arith, text_length s v, ap (λ (u : Bytes). length u) h)),
  )
]

-- Whether two texts are the same.
unfoldable pub same_text : Bytes → Bytes → Bool
same_text [] [] = true
same_text [] (b ∷ ys) = false
same_text (a ∷ xs) [] = false
same_text (a ∷ xs) (b ∷ ys) = a == b && same_text xs ys

pub same_text-eq : (xs ys : Bytes) → same_text xs ys ≡ true → xs ≡ ys
unfolding same_text
same_text-eq [] [] e = refl
same_text-eq [] (b ∷ ys) e = cc
same_text-eq (a ∷ xs) [] e = cc
same_text-eq (a ∷ xs) (b ∷ ys) e = ground (arith, same_text-eq xs ys)

same_text_refl : (xs : Bytes) → same_text xs xs ≡ true
unfolding same_text
same_text_refl [] = refl
same_text_refl (a ∷ xs) = rw (==-self a, same_text_refl xs) refl

-- The answer of `hiw_string_cmpc` on a view.
pub cmpc-same_text :
    (s : HiwString) (c : Bytes) → IsView s → cmpc s c (length c) ≡ ret (same_text (bytes s) c)
cmpc-same_text s c v =
    let (b, answer, to, from) = cmpc-Decides s c v in
    answer
    ∙ ap ret (elim (Bool-cases b) [
      | inl t ↦ t ∙ sym (ap (λ x. same_text x c) (to t) ∙ same_text_refl c)
      | inr t ↦ elim (Bool-cases (same_text (bytes s) c)) [
        | inl u ↦ cc (from (same_text-eq (bytes s) c u))
        | inr u ↦ t ∙ sym u
      ]
    ])

-- The answer of `hiw_string_cmp` on two views.
pub cmp-same_text :
    (s1 s2 : HiwString) → IsView s1 → IsView s2 → cmp s1 s2 ≡ ret (same_text (bytes s1) (bytes s2))
cmp-same_text s1 s2 v1 v2 =
    let (b, answer, to, from) = cmp-Decides s1 s2 v1 v2 in
    answer
    ∙ ap ret (elim (Bool-cases b) [
      | inl t ↦ t ∙ sym (ap (λ x. same_text x (bytes s2)) (to t) ∙ same_text_refl (bytes s2))
      | inr t ↦ elim (Bool-cases (same_text (bytes s1) (bytes s2))) [
        | inl u ↦ cc (from (same_text-eq (bytes s1) (bytes s2) u))
        | inr u ↦ t ∙ sym u
      ]
    ])
