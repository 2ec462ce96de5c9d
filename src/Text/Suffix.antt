-- ===== src/Text/Suffix.antt =====
-- `hiw_string_suffix`.
use highway.Prelude.{
  ℕ, zero, suc, ◌+◌, ◌-◌, ◌<◌, ◌≡◌, ◌≢◌, inl, inr, ◌⊎◌, refl, sym, ap, false, [], ◌∷◌, ◌++◌, ◌&&◌,
  Bytes, Lacks, length, get_elem?, drop, ret, ◌>>=◌, Option, none, some, arith, ◌==◌, leb,
  if◌then◌else◌, Bool-cases, ==-ne, ==-self, ==_iff, drop-length-append, take-length-append,
  length-append, append_assoc, ap_at, ◌∙◌, true, if_true,
}
use mathlib.Core.Path.{subst}
use highway.Text.{IsView, HiwString, empty, bytes, string_set, at, suffix_loop, suffix}

abbrev NotAt : ℕ → Bytes → ℕ → Type 0
NotAt d start i = (b : ℕ) × (get_elem? start i ≡ some b) × (b ≢ d)

suffix_loop-found :
    (start : Bytes) (d n j : ℕ)
    → get_elem? start j ≡ some d
    → j < n
    → ((i : ℕ) → j < i → i < n → NotAt d start i)
    → suffix_loop start d n ≡ ret j
unfolding suffix_loop
suffix_loop-found start d zero j hd h others = absurd (omega arith)
suffix_loop-found start d (suc n) j hd h others = elim (Bool-cases (j == n)) [
  | inl t ↦ let e : j ≡ n = ground arith in rw (← e) (rw hd (rw ==-self))
  | inr t ↦
      let (b, hb, ne) = others n (ground arith) (omega arith) in
      rw hb (
        rw (==-ne b d ne)
          (suffix_loop-found start d n j hd (ground arith) (λ i lo hi. others i lo (omega arith))))
]

suffix_loop-missing :
    (start : Bytes) (d n : ℕ) → ((i : ℕ) → i < n → NotAt d start i) → suffix_loop start d n ≡ ret 0
unfolding suffix_loop
suffix_loop-missing start d zero others = refl
suffix_loop-missing start d (suc n) others =
    let (b, hb, ne) = others n (omega arith) in
    rw hb (rw (==-ne b d ne) (suffix_loop-missing start d n (λ i hi. others i (omega arith))))

Lacks-at : (d : ℕ) (xs zs : Bytes) → Lacks d xs → (i : ℕ) → i < length xs → NotAt d (xs ++ zs) i
Lacks-at d [] zs h i lt = absurd (omega arith)
Lacks-at d (x ∷ xs) zs h zero lt = (x, refl, h.0)
Lacks-at d (x ∷ xs) zs h (suc i) lt = Lacks-at d xs zs h.1 i (omega arith)

at-append : (ys zs : Bytes) (i j : ℕ) → j ≡ length ys + i → get_elem? (ys ++ zs) j ≡ get_elem? zs i
at-append [] zs i j e = ap (get_elem? zs) (omega arith)
at-append (y ∷ ys) zs i zero e = absurd (omega arith)
at-append (y ∷ ys) zs i (suc j) e = at-append ys zs i j (omega arith)

leb-one : (n : ℕ) → 1 < n → leb n 1 ≡ false
leb-one n h = ground arith

-- The byte at the start of a longer text can be read, and is `d` if nothing stands before `d`.
suffix-start :
    (xs : Bytes) (d : ℕ) (ys : Bytes) (len : ℕ)
    → (do
      c ← at (xs ++ d ∷ ys) 0
      if length xs == 0 && c == d
          then ret (string_set (xs ++ d ∷ ys) (length xs + suc len))
          else ret (string_set (drop (length xs) (xs ++ d ∷ ys)) (length xs + suc len - length xs)))
      ≡ ret (string_set (d ∷ ys) (suc len))
suffix-start [] d ys len = rw ==-self (ap (λ n. ret (string_set (d ∷ ys) n)) (omega arith))
suffix-start (x ∷ xs) d ys len =
    rw (==-ne (length (x ∷ xs)) 0 (omega arith))
      (rw (drop-length-append xs (d ∷ ys)) (ap (λ n. ret (string_set (d ∷ ys) n)) (omega arith)))

-- `hiw_string_suffix` of a text of two bytes or more is its end from the last delimiter on.
pub suffix_found :
    (xs : Bytes) (d : ℕ) (ys rest : Bytes)
    → Lacks d ys
    → 1 < length xs + suc (length ys)
    → suffix (string_set (xs ++ d ∷ (ys ++ rest)) (length xs + suc (length ys))) d
      ≡ ret (string_set (d ∷ (ys ++ rest)) (suc (length ys)))
unfolding suffix
suffix_found xs d ys rest l h =
    let others = λ (k : ℕ) (lo : length xs < k) (hi : k < length xs + suc (length ys)).
      subst (λ o. (b : ℕ) × (o ≡ some b) × (b ≢ d))
        (sym (at-append xs (d ∷ (ys ++ rest)) (suc (k - length xs - 1)) k (omega arith)))
        (Lacks-at d ys rest l (k - length xs - 1) (omega arith)) in
    rw (leb-one (length xs + suc (length ys)) h) (
      rw
        (suffix_loop-found (xs ++ d ∷ (ys ++ rest)) d (length xs + suc (length ys)) (length xs)
          (at-append xs (d ∷ (ys ++ rest)) 0 (length xs) (omega arith)) (omega arith) others)
        (suffix-start xs d (ys ++ rest) (length ys)))

-- With no delimiter in a text of two bytes or more `hiw_string_suffix` answers the whole text.
pub suffix_missing :
    (xs : Bytes) (d : ℕ) (rest : Bytes)
    → Lacks d xs
    → 1 < length xs
    → suffix (string_set (xs ++ rest) (length xs)) d ≡ ret (string_set (xs ++ rest) (length xs))
unfolding suffix
suffix_missing [] d rest l h = absurd (omega arith)
suffix_missing (x ∷ xs) d rest l h = rw (leb-one (length (x ∷ xs)) h) (
    rw (suffix_loop-missing (x ∷ (xs ++ rest)) d (length (x ∷ xs)) (Lacks-at d (x ∷ xs) rest l))
      (rw (==-ne x d l.0) (ap (λ n. ret (string_set (x ∷ (xs ++ rest)) n)) (omega arith))))

-- The end of a text from the last `d` on.
pub from_last : ℕ → Bytes → Option Bytes
from_last d [] = none
from_last d (x ∷ xs) = elim (from_last d xs) [
  | some end ↦ some end
  | none ↦ if x == d then some (x ∷ xs) else none
]

-- The text of a suffix.
unfoldable pub suffix_text : ℕ → Bytes → Bytes
unfolding from_last
suffix_text d xs =
    if leb (length xs) 1 then [] else elim (from_last d xs) [ some end ↦ end | none ↦ xs ]

-- A text has no `d`, or a last one.
from_last-cases :
    (d : ℕ) (xs : Bytes)
    → ((from_last d xs ≡ none) × Lacks d xs)
      ⊎ ((before after : Bytes) × (xs ≡ before ++ d ∷ after)
          × (from_last d xs ≡ some (d ∷ after))
          × Lacks d after)
unfolding from_last
from_last-cases d [] = inl (refl, tt)
from_last-cases d (x ∷ xs) = elim (from_last-cases d xs) [
  | inl (e, l) ↦ elim (Bool-cases (x == d)) [
    | inl t ↦
        let same : x ≡ d = (==_iff x d).0 t in
        inr ([], xs, ap (λ c. c ∷ xs) same, rw e (rw t (ap (λ c. some (c ∷ xs)) same)), l)
    | inr f ↦ inl (rw e (rw f refl), ((λ same. ground (arith, f, same)), l))
  ]
  | inr (before, after, spelled, e, l) ↦
      inr (x ∷ before, after, ap (λ t. x ∷ t) spelled, rw e refl, l)
]

suffix_short :
    (xs : Bytes) (d : ℕ) (rest : Bytes)
    → leb (length xs) 1 ≡ true
    → suffix (string_set (xs ++ rest) (length xs)) d ≡ ret empty
unfolding suffix
suffix_short xs d rest t = if_true (leb (length xs) 1) _ _ t

-- `hiw_string_suffix` of a view is a view of the text of the suffix.
pub suffix-suffix_text :
    (xs : Bytes) (d : ℕ) (rest : Bytes)
    → (v : HiwString) × (suffix (string_set (xs ++ rest) (length xs)) d ≡ ret v)
      × (bytes v ≡ suffix_text d xs)
      × IsView v
unfolding suffix_text
suffix-suffix_text xs d rest = elim (Bool-cases (leb (length xs) 1)) [
  | inl t ↦ (empty, suffix_short xs d rest t, rw t refl, omega arith)
  | inr f ↦
      let long : 1 < length xs = ground (arith, f) in
      elim (from_last-cases d xs) [
        | inl (e, l) ↦ (
          string_set (xs ++ rest) (length xs),
          suffix_missing xs d rest l long,
          take-length-append xs rest ∙ sym (rw f (rw e refl)),
          omega (arith, length-append xs rest),
        )
        | inr (before, after, spelled, e, l) ↦ (
          string_set (d ∷ (after ++ rest)) (suc (length after)),
          ap (λ t. suffix (string_set (t ++ rest) (length t)) d) spelled
              ∙ ap_at (λ k. suffix (string_set ((before ++ d ∷ after) ++ rest) k) d)
                  (length (before ++ d ∷ after)) (length before + suc (length after))
                  (length-append before (d ∷ after))
              ∙ ap (λ t. suffix (string_set t (length before + suc (length after))) d)
                  (append_assoc before (d ∷ after) rest)
              ∙ suffix_found before d after rest l
                  (omega (arith, long, ap length spelled, length-append before (d ∷ after))),
          take-length-append (d ∷ after) rest ∙ sym (rw f (rw e refl)),
          omega (arith, length-append after rest),
        )
      ]
]
