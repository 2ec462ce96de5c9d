-- ===== src/Text/Seek.antt =====
-- The search for a delimiter, and `hiw_string_readline`.
use highway.Prelude.{
  false, ℕ, zero, suc, ◌≤◌, ◌<◌, ◌≡◌, ◌≢◌, ◌⊎◌, inl, inr, refl, true, [], ◌∷◌, ◌++◌, Bytes, length,
  take, Lacks, ret, arith, ◌==◌, Bool-cases, ==-self, ==-ne,
}
use highway.Text.{IsView, bytes, HiwString, string_set, seek, readline}

pub seek_found :
    (d n : ℕ) (xs rest : Bytes)
    → Lacks d xs
    → length xs < n
    → seek d n (xs ++ d ∷ rest) ≡ ret (length xs)
unfolding seek
seek_found d zero xs rest l h = absurd (omega arith)
seek_found d (suc n) [] rest l h = rw ==-self
seek_found d (suc n) (x ∷ xs) rest (ne, l) h =
    rw (==-ne x d ne, seek_found d n xs rest l (omega arith))

pub seek_missing :
    (d : ℕ) (xs rest : Bytes) → Lacks d xs → seek d (length xs) (xs ++ rest) ≡ ret (length xs)
unfolding seek
seek_missing d [] rest l = refl
seek_missing d (x ∷ xs) rest (ne, l) = rw (==-ne x d ne, seek_missing d xs rest l)

pub seek_none : (d n : ℕ) (p : Bytes) → n ≤ length p → Lacks d (take n p) → seek d n p ≡ ret n
unfolding seek
seek_none d zero p h l = refl
seek_none d (suc n) [] h l = absurd (omega arith)
seek_none d (suc n) (x ∷ p) h (ne, l) = rw (==-ne x d ne, seek_none d n p (omega arith) l)

-- A delimiter in the first `n` bytes, with what stands before the first and after it.
abbrev pub Cut : ℕ → ℕ → Bytes → Type 0
Cut d n p = (xs : Bytes) × (rest : Bytes) × (p ≡ xs ++ d ∷ rest) × Lacks d xs × (length xs < n)

pub find-Cut : (d n : ℕ) (p : Bytes) → n ≤ length p → Lacks d (take n p) ⊎ Cut d n p
find-Cut d zero p h = inl tt
find-Cut d (suc n) [] h = absurd (omega arith)
find-Cut d (suc n) (x ∷ p) h = elim (Bool-cases (x == d)) [
  | inl t ↦ let e : x ≡ d = ground arith in inr ([], p, rw e, tt, omega arith)
  | inr t ↦ step (find-Cut d n p (omega arith)) (ground arith)
]
  where
    step :
        Lacks d (take n p) ⊎ Cut d n p
        → x ≢ d
        → Lacks d (take (suc n) (x ∷ p)) ⊎ Cut d (suc n) (x ∷ p)
    step (inl l) ne = inl (ne, l)
    step (inr (xs, rest, e, l, lt)) ne = inr (x ∷ xs, rest, rw e, (ne, l), omega arith)

-- A line is what stands before the first newline of the view, and the answer is `true`.
pub readline_found :
    (s dest : HiwString) (line rest : Bytes)
    → s.begin ≡ line ++ b'\n' ∷ rest
    → Lacks b'\n' line
    → length line < s.length
    → readline s dest ≡ ret (true, string_set s.begin (length line))
unfolding readline
readline_found s dest line rest e l h = rw (
  ==-ne s.length 0 (omega arith),
  e,
  seek_found b'\n' s.length line rest l h,
  ==-ne (length line) s.length (omega arith),
)

-- With no newline in the view the answer is `false`, and `dest` is left empty.
pub readline_none :
    (s dest : HiwString)
    → IsView s
    → 0 < s.length
    → Lacks b'\n' (bytes s)
    → readline s dest ≡ ret (false, string_set s.begin 0)
unfolding readline
readline_none s dest v pos l =
    rw (==-ne s.length 0 (omega arith), seek_none b'\n' s.length s.begin v l, ==-self)
