-- ===== src/Number/Signed.antt =====
-- `hiw_std_ctoi`: what it reads, and where its sum overflows.
use highway.Prelude.{
  zero, Ends, Any, if-Ends, if◌then◌else◌, ℕ, suc, ◌+◌, ◌-◌, ◌*◌, ◌≤◌, ◌<◌, ◌≡◌, refl, Bool, true,
  false, [], ◌∷◌, ◌++◌, Bytes, All, length, ret, fault, arith, ◌==◌, Bool-cases, inl, inr, ltb,
  le→ltb,
}
use highway.Prelude.Int.{pos}
use highway.Text.{HiwString, string_set}
use highway.Number.{stop, finish, signed, int_max, isdigit, ctoi_loop, ctoi, toi}

abbrev pub AreDigits : Bytes → Type 0
AreDigits = All (λ c. isdigit c ≡ true)

-- The number that digits spell behind `num`, with no bound.
abbrev pub value : ℕ → Bytes → ℕ
value num [] = num
value num (c ∷ s) = value (num * 10 + (c - b'0')) s

le-value : (s : Bytes) (num : ℕ) → num ≤ value num s
le-value [] num = omega arith
le-value (c ∷ s) num = omega (arith, le-value s (num * 10 + (c - b'0')))

ctoi_loop-value :
    (minus : Bool) (s rest : Bytes) (num : ℕ)
    → AreDigits s
    → value num s ≤ int_max
    → ctoi_loop minus (length s) (s ++ rest) num ≡ ret (finish rest (signed minus (value num s)))
unfolding ctoi_loop
ctoi_loop-value minus [] rest num h fits = refl
ctoi_loop-value minus (c ∷ s) rest num h fits = rw h.0 (
    rw (le→ltb int_max (num * 10 + (c - b'0')) (omega (arith, le-value s (num * 10 + (c - b'0')))))
      (ctoi_loop-value minus s rest (num * 10 + (c - b'0')) h.1 fits))

ctoi_loop-overflow :
    (minus : Bool) (s rest : Bytes) (num : ℕ)
    → AreDigits s
    → num ≤ int_max
    → int_max < value num s
    → ctoi_loop minus (length s) (s ++ rest) num ≡ fault
unfolding ctoi_loop
ctoi_loop-overflow minus [] rest num h low big = absurd (omega arith)
ctoi_loop-overflow minus (c ∷ s) rest num h low big =
    elim (Bool-cases (ltb int_max (num * 10 + (c - b'0')))) [
      | inl t ↦ rw h.0 (rw t)
      | inr t ↦
          rw h.0
            (rw t (ctoi_loop-overflow minus s rest (num * 10 + (c - b'0')) h.1 (ground arith) big))
    ]

not_minus : (c : ℕ) → isdigit c ≡ true → (c == b'-') ≡ false
unfolding isdigit
not_minus c h = ground arith

-- `hiw_string_toi` of digits that fit an `int` stores their number and stops behind them; with a
-- minus in front it stores the negated number.
pub toi-value :
    (s rest : Bytes)
    → AreDigits s
    → value 0 s ≤ int_max
    → (toi (string_set (s ++ rest) (length s)) ≡ ret (finish rest (pos (value 0 s))))
      × (toi (string_set (b'-' ∷ (s ++ rest)) (suc (length s)))
          ≡ ret (finish rest (signed true (value 0 s))))
unfolding toi ctoi
toi-value [] rest h fits = (refl, refl)
toi-value (c ∷ s) rest h fits = (
  rw (not_minus c h.0) (ctoi_loop-value false (c ∷ s) rest 0 h fits),
  ctoi_loop-value true (c ∷ s) rest 0 h fits,
)

-- `hiw_string_toi` of digits that spell more than `INT_MAX` overflows an `int`, which C leaves
-- undefined.
pub toi-overflow :
    (s rest : Bytes)
    → AreDigits s
    → int_max < value 0 s
    → toi (string_set (s ++ rest) (length s)) ≡ fault
unfolding toi ctoi
toi-overflow [] rest h big = absurd (omega arith)
toi-overflow (c ∷ s) rest h big =
    rw (not_minus c h.0) (ctoi_loop-overflow false (c ∷ s) rest 0 h (omega arith) big)

ctoi_loop-Ends : (minus : Bool) (n : ℕ) (s : Bytes) (num : ℕ) → Ends Any (ctoi_loop minus n s num)
unfolding ctoi_loop
ctoi_loop-Ends minus zero s num = tt
ctoi_loop-Ends minus (suc n) [] num = tt
ctoi_loop-Ends minus (suc n) (c ∷ s) num =
    if-Ends Any (isdigit c)
      (if ltb int_max (num * 10 + (c - b'0'))
        then fault
        else ctoi_loop minus n s (num * 10 + (c - b'0')))
      (ret (stop (c ∷ s) (suc n)))
      (λ t.
        if-Ends Any (ltb int_max (num * 10 + (c - b'0'))) fault
          (ctoi_loop minus n s (num * 10 + (c - b'0'))) (λ u. tt)
          (λ u. ctoi_loop-Ends minus n s (num * 10 + (c - b'0'))))
      (λ t. tt)

ctoi-Ends : (s : Bytes) (n : ℕ) → Ends Any (ctoi s n)
unfolding ctoi
ctoi-Ends s zero = ctoi_loop-Ends false zero s 0
ctoi-Ends [] (suc n) = tt
ctoi-Ends (c ∷ s) (suc n) =
    if-Ends Any (c == b'-') (ctoi_loop true n s 0) (ctoi_loop false (suc n) (c ∷ s) 0)
      (λ t. ctoi_loop-Ends true n s 0) (λ t. ctoi_loop-Ends false (suc n) (c ∷ s) 0)

pub toi-Ends : (s : HiwString) → Ends Any (toi s)
unfolding toi
toi-Ends s = ctoi-Ends s.begin s.length
