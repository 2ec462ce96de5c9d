-- ===== src/Text/Trim.antt =====
-- `hiw_string_rtrim` and `hiw_string_trim`.
use highway.Prelude.{
  ℕ, zero, suc, ◌+◌, ◌<◌, ◌≡◌, ◌≢◌, refl, ap, true, false, [], ◌∷◌, ◌++◌, Bytes, All, length,
  get_elem?, Outcome, ret, fault, some, arith, ap_at, access, sym, ◌∙◌, ◌-◌, inl, inr, ◌==◌,
  if◌then◌else◌, Bool-cases, ==-ne,
}
use mathlib.Core.Path.{subst}
use highway.Text.{
  HiwString, string_set, empty, isspace, rtrim_loop, rtrim_from, rtrim, ltrim_loop, trim,
}

abbrev pub IsBlank : Bytes → Type 0
IsBlank = All (λ c. isspace c ≡ true)

-- The first byte, and the last byte, is no white space.
abbrev pub StartsInk : Bytes → Type 0
StartsInk [] = ⊥
StartsInk (c ∷ xs) = isspace c ≡ false

abbrev pub EndsInk : Bytes → Type 0
EndsInk [] = ⊥
EndsInk (c ∷ []) = isspace c ≡ false
EndsInk (c ∷ d ∷ xs) = EndsInk (d ∷ xs)

abbrev BlankAt : Bytes → ℕ → Type 0
BlankAt start i = (b : ℕ) × (get_elem? start i ≡ some b) × (isspace b ≡ true)

rtrim_loop-ink :
    (start : Bytes) (n j c : ℕ)
    → get_elem? start j ≡ some c
    → isspace c ≡ false
    → j < n
    → ((i : ℕ) → j < i → i < n → BlankAt start i)
    → rtrim_loop start n ≡ ret j
unfolding rtrim_loop
rtrim_loop-ink start zero j c hc ink h blank = absurd (omega arith)
rtrim_loop-ink start (suc n) j c hc ink h blank = elim (Bool-cases (j == n)) [
  | inl t ↦ let e : j ≡ n = ground arith in rw (← e) (rw (hc, access) (rw ink))
  | inr t ↦
      let (b, hb, sp) = blank n (ground arith) (omega arith) in
      rw hb (
        rw sp
          (rtrim_loop-ink start n j c hc ink (ground arith) (λ i lo hi. blank i lo (omega arith))))
]

rtrim_loop-blank :
    (start : Bytes) (n : ℕ) → ((i : ℕ) → i < n → BlankAt start i) → rtrim_loop start n ≡ ret 0
unfolding rtrim_loop
rtrim_loop-blank start zero blank = refl
rtrim_loop-blank start (suc n) blank =
    let (b, hb, sp) = blank n (omega arith) in
    rw hb (rw sp (rtrim_loop-blank start n (λ i hi. blank i (omega arith))))

-- The last byte of a text that ends in ink.
EndsInk-at :
    (ys zs : Bytes)
    → EndsInk ys
    → (i : ℕ) × (suc i ≡ length ys)
      × (c : ℕ) × (get_elem? (ys ++ zs) i ≡ some c)
      × (isspace c ≡ false)
EndsInk-at [] zs h = absurd h
EndsInk-at (c ∷ []) zs h = (0, omega arith, c, refl, h)
EndsInk-at (c ∷ d ∷ ys) zs h =
    let (i, n, b, e, ink) = EndsInk-at (d ∷ ys) zs h in (suc i, omega arith, b, e, ink)

IsBlank-at : (xs zs : Bytes) → IsBlank xs → (i : ℕ) → i < length xs → BlankAt (xs ++ zs) i
IsBlank-at [] zs h i lt = absurd (omega arith)
IsBlank-at (x ∷ xs) zs h zero lt = (x, refl, h.0)
IsBlank-at (x ∷ xs) zs h (suc i) lt = IsBlank-at xs zs h.1 i (omega arith)

get_elem?-append :
    (ys zs : Bytes) (i j : ℕ) → j ≡ length ys + i → get_elem? (ys ++ zs) j ≡ get_elem? zs i
get_elem?-append [] zs i j e = ap (get_elem? zs) (omega arith)
get_elem?-append (y ∷ ys) zs i zero e = absurd (omega arith)
get_elem?-append (y ∷ ys) zs i (suc j) e = get_elem?-append ys zs i j (omega arith)

pub rtrim_from-ink :
    (ys blanks rest : Bytes)
    → EndsInk ys
    → IsBlank blanks
    → rtrim_from (ys ++ (blanks ++ rest)) (length ys + length blanks)
      ≡ ret (string_set (ys ++ (blanks ++ rest)) (length ys))
unfolding rtrim_from
rtrim_from-ink ys blanks rest h hb =
    let (i, n, c, e, ink) = EndsInk-at ys (blanks ++ rest) h in
    let inside = λ (k : ℕ) (lo : i < k) (hi : k < length ys + length blanks).
      subst (λ o. (b : ℕ) × (o ≡ some b) × (isspace b ≡ true))
        (sym (get_elem?-append ys (blanks ++ rest) (k - length ys) k (omega arith)))
        (IsBlank-at blanks rest hb (k - length ys) (omega arith)) in
    rw
      (rtrim_loop-ink (ys ++ (blanks ++ rest)) (length ys + length blanks) i c e ink (omega arith)
        inside)
      (rw e (rw ink (ap (λ k. ret (string_set (ys ++ (blanks ++ rest)) k)) (omega arith))))

-- `hiw_string_rtrim` of a text that ends in ink and then white space drops the white space.
pub rtrim_ink :
    (ys blanks rest : Bytes)
    → EndsInk ys
    → IsBlank blanks
    → rtrim (string_set (ys ++ (blanks ++ rest)) (length ys + length blanks))
      ≡ ret (string_set (ys ++ (blanks ++ rest)) (length ys))
unfolding rtrim
rtrim_ink ys blanks rest h hb =
    let (i, n, c, e, ink) = EndsInk-at ys (blanks ++ rest) h in
    rw (==-ne (length ys + length blanks) 0 (omega arith)) (rtrim_from-ink ys blanks rest h hb)

ltrim_loop-ink :
    (blanks : Bytes) (c n m : ℕ) (rest : Bytes)
    → IsBlank blanks
    → isspace c ≡ false
    → m ≡ length blanks + suc n
    → ltrim_loop m (blanks ++ c ∷ rest) ≡ ret (string_set (c ∷ rest) (suc n))
unfolding ltrim_loop
ltrim_loop-ink blanks c n zero rest h ink e = absurd (omega arith)
ltrim_loop-ink [] c n (suc m) rest h ink e =
    rw ink (ap (λ k. ret (string_set (c ∷ rest) k)) (omega arith))
ltrim_loop-ink (b ∷ blanks) c n (suc m) rest h ink e =
    rw h.0 (ltrim_loop-ink blanks c n m rest h.1 ink (omega arith))

ltrim_loop-blank :
    (blanks rest : Bytes)
    → IsBlank blanks
    → ltrim_loop (length blanks) (blanks ++ rest) ≡ ret (string_set rest 0)
unfolding ltrim_loop
ltrim_loop-blank [] rest h = refl
ltrim_loop-blank (b ∷ blanks) rest h = rw h.0 (ltrim_loop-blank blanks rest h.1)

-- `hiw_string_trim` of white space, a text that starts and ends in ink, and white space is the
-- view of that text.
pub trim_ink :
    (before ys after rest : Bytes)
    → IsBlank before
    → StartsInk ys
    → EndsInk ys
    → IsBlank after
    → trim (
        string_set (before ++ (ys ++ (after ++ rest))) (length before + (length ys + length after)))
      ≡ ret (string_set (ys ++ (after ++ rest)) (length ys))
unfolding trim
trim_ink before [] after rest hb hs he ha = absurd hs
trim_ink before (c ∷ ys) after rest hb hs he ha =
    rw (==-ne (length before + (length (c ∷ ys) + length after)) 0 (omega arith)) (
      rw
        (ltrim_loop-ink before c (length ys + length after)
          (length before + (length (c ∷ ys) + length after)) (ys ++ (after ++ rest)) hb hs
          (omega arith))
        (ap_at (λ n. rtrim_from (c ∷ (ys ++ (after ++ rest))) n) (suc (length ys + length after))
            (length (c ∷ ys) + length after) (omega arith)
          ∙ rtrim_from-ink (c ∷ ys) after rest he ha))

-- What the byte behind an all-white view makes of its trim: none there is undefined, a white one
-- gives the empty view, and any other gives a view of that byte, which is outside the text.
abbrev pub trim_behind : Bytes → Outcome HiwString
trim_behind [] = fault
trim_behind (c ∷ rest) = if isspace c then ret empty else ret (string_set (c ∷ rest) 1)

-- `hiw_string_trim` of a text that is white space only reads the byte behind the view.
pub trim_blank :
    (blanks rest : Bytes)
    → IsBlank blanks
    → blanks ≢ []
    → trim (string_set (blanks ++ rest) (length blanks)) ≡ trim_behind rest
unfolding trim rtrim_from rtrim_loop
trim_blank [] rest h ne = absurd (ne refl)
trim_blank (b ∷ blanks) rest h ne =
    rw (==-ne (length (b ∷ blanks)) 0 (omega arith))
      (rw (ltrim_loop-blank (b ∷ blanks) rest h) (behind rest))
  where
    behind : (r : Bytes) → rtrim_from r 0 ≡ trim_behind r
    behind [] = refl
    behind (c ∷ r) =
        ap (λ n. if isspace c then ret empty else ret (string_set (c ∷ r) n)) (omega arith)

-- `hiw_string_rtrim` of a text that is white space only is the empty view.
pub rtrim_blank :
    (blanks rest : Bytes)
    → IsBlank blanks
    → rtrim (string_set (blanks ++ rest) (length blanks)) ≡ ret empty
unfolding rtrim rtrim_from
rtrim_blank [] rest h = refl
rtrim_blank (b ∷ blanks) rest h = rw (==-ne (length (b ∷ blanks)) 0 (omega arith)) (
    rw
      (rtrim_loop-blank (b ∷ (blanks ++ rest)) (length (b ∷ blanks))
        (IsBlank-at (b ∷ blanks) rest h))
      (rw h.0))
