-- ===== src/Number/RoundTrip.antt =====
-- `hiw_string_toui` behind `hiw_std_uitoc`.
use mathlib.Core.List.{reverse-cons}
use native.Mathlib.Nat.{pow-suc}
use highway.Prelude.{
  ℕ, zero, suc, ◌+◌, ◌-◌, ◌*◌, ◌/◌, ◌%◌, ◌^◌, ◌<◌, ◌≡◌, ◌≢◌, refl, sym, ap, ◌∙◌, true, [], ◌∷◌,
  ◌++◌, append_assoc, reverse, Bytes, length, some, ret, arith, ap_at, length-append, ◌==◌,
  Bool-cases, ==-ne, inl, inr,
}
use highway.Text.{string_set}
use highway.Number.{
  finish, uint_mod, isdigit, ctoui_loop, ctoui, toui, digit, digit_loop, mirror, uitoc,
}
use highway.Number.Mirror.{mirror-reverse}

digit_lem : (d : ℕ) → d < 10 → digit d ≡ b'0' + d
unfolding digit
digit_lem zero h = refl
digit_lem (suc zero) h = refl
digit_lem (suc (suc zero)) h = refl
digit_lem (suc (suc (suc zero))) h = refl
digit_lem (suc (suc (suc (suc zero)))) h = refl
digit_lem (suc (suc (suc (suc (suc zero))))) h = refl
digit_lem (suc (suc (suc (suc (suc (suc zero)))))) h = refl
digit_lem (suc (suc (suc (suc (suc (suc (suc zero))))))) h = refl
digit_lem (suc (suc (suc (suc (suc (suc (suc (suc zero)))))))) h = refl
digit_lem (suc (suc (suc (suc (suc (suc (suc (suc (suc zero))))))))) h = refl
digit_lem (suc (suc (suc (suc (suc (suc (suc (suc (suc (suc d)))))))))) h = absurd (omega arith)

-- Reading the last digit of `val` behind the others gives `val`.
ctoui_digit :
    (j val : ℕ) (rest : Bytes)
    → val < uint_mod
    → ctoui_loop (suc j) (digit (val % 10) ∷ rest) (val / 10) ≡ ctoui_loop j rest val
unfolding ctoui_loop
ctoui_digit j val rest h = rw (digit_lem (val % 10) (omega arith)) (
    let step : (val / 10 * 10 % uint_mod + (b'0' + val % 10 - b'0')) % uint_mod ≡ val =
      omega arith in
    let digital : isdigit (b'0' + val % 10) ≡ true = ground arith in
    rw digital (ap_at (ctoui_loop j rest) _ _ step))

digit_loop-zero : (n : ℕ) → digit_loop n 0 ≡ []
unfolding digit_loop
digit_loop-zero zero = refl
digit_loop-zero (suc n) = refl

digit_loop-suc :
    (n val : ℕ) → val ≢ 0 → digit_loop (suc n) val ≡ digit (val % 10) ∷ digit_loop n (val / 10)
unfolding digit_loop
digit_loop-suc n val ne = rw (==-ne val 0 ne)

-- Reading the digits of `val`, most significant first, and then `j` more bytes.
ctoui-digits :
    (n val j m : ℕ) (rest : Bytes)
    → val < 10 ^ n
    → val < uint_mod
    → m ≡ length (digit_loop n val) + j
    → ctoui_loop m (reverse (digit_loop n val) ++ rest) 0 ≡ ctoui_loop j rest val
ctoui-digits zero val j m rest h fits e =
    let nothing : digit_loop 0 val ≡ [] =
      ap_at (digit_loop 0) val 0 (omega arith) ∙ digit_loop-zero 0 in
    ap (λ u. ctoui_loop m (reverse u ++ rest) 0) nothing
    ∙ ap_at (λ k. ctoui_loop k rest 0) m j (omega (arith, ap (λ (u : Bytes). length u) nothing))
    ∙ ap_at (ctoui_loop j rest) 0 val (omega arith)
ctoui-digits (suc n) val j m rest h fits e = elim (Bool-cases (val == 0)) [
  | inl t ↦
      let z : val ≡ 0 = ground arith in
      let nothing : digit_loop (suc n) val ≡ [] =
        ap_at (digit_loop (suc n)) val 0 z ∙ digit_loop-zero (suc n) in
      ap (λ u. ctoui_loop m (reverse u ++ rest) 0) nothing
      ∙ ap_at (λ k. ctoui_loop k rest 0) m j (omega (arith, ap (λ (u : Bytes). length u) nothing))
      ∙ ap_at (ctoui_loop j rest) 0 val (sym z)
  | inr t ↦
      let more = digit_loop-suc n val (ground arith) in
      ap (λ u. ctoui_loop m (reverse u ++ rest) 0) more
      ∙ ap (λ u. ctoui_loop m (u ++ rest) 0)
          (reverse-cons (digit (val % 10)) (digit_loop n (val / 10)))
      ∙ ap (λ u. ctoui_loop m u 0)
          (append_assoc (reverse (digit_loop n (val / 10))) (digit (val % 10) ∷ []) rest)
      ∙ ctoui-digits n (val / 10) (suc j) m (digit (val % 10) ∷ rest) (omega (arith, pow-suc 10 n))
          (omega arith) (omega (arith, ap (λ (u : Bytes). length u) more))
      ∙ ctoui_digit j val rest fits
]

length-reverse : (xs : Bytes) → length (reverse xs) ≡ length xs
length-reverse [] = refl
length-reverse (x ∷ xs) =
    ap (λ (u : Bytes). length u) (reverse-cons x xs)
    ∙ omega (arith, length-append (reverse xs) (x ∷ []), length-reverse xs)

-- What `hiw_std_uitoc` writes in decimal is read back as the same number by `hiw_string_toui`, which
-- stops behind it, if the value has no more digits than the buffer has bytes.
pub toui-uitoc :
    (n val : ℕ) (rest : Bytes)
    → 0 < n
    → val < 10 ^ n
    → val < uint_mod
    → (text : Bytes) × (uitoc n val ≡ some text)
      × (toui (string_set (text ++ rest) (length text)) ≡ ret (finish rest val))
unfolding uitoc toui ctoui
toui-uitoc n val rest pos h fits = elim (Bool-cases (val == 0)) [
  | inl t ↦ (
    digit 0 ∷ [],
    rw (==-ne n 0 (omega arith), t),
    (let z : 0 ≡ val = ground arith in
        ctoui_digit 0 0 rest (omega arith) ∙ ap (λ k. ctoui_loop 0 rest k) z),
  )
  | inr t ↦ (
    mirror (digit_loop n val),
    rw (==-ne n 0 (omega arith), t),
    (let size : length (mirror (digit_loop n val)) ≡ length (digit_loop n val) + 0 =
          ap (λ (u : Bytes). length u) (mirror-reverse (digit_loop n val))
          ∙ length-reverse (digit_loop n val)
          ∙ omega arith in
        ap (λ u. ctoui_loop (length (mirror (digit_loop n val))) (u ++ rest) 0)
          (mirror-reverse (digit_loop n val))
        ∙ ctoui-digits n val 0 (length (mirror (digit_loop n val))) rest h fits size),
  )
]
