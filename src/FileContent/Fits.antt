-- ===== src/FileContent/Fits.antt =====
-- The path of a traversal, while what is written to it fits.
use highway.Prelude.{
  ℕ, zero, suc, ◌+◌, ◌-◌, ◌≤◌, ◌<◌, ◌≡◌, ◌≢◌, refl, sym, ap, ◌∙◌, true, false, inl, inr, [], ◌∷◌,
  ◌++◌, append_assoc, append-nil, Bytes, Lacks, codes, length, take, drop, some, ret, arith, ap_at,
  length-append, take-length-append, take-append-drop, ltb, ◌==◌, ==_iff, ==-ne, lt→ltb, if_true,
  if_false, >>=-ret, Bool-cases,
}
use highway.Memory.{copy, mempy}
use highway.Memory.Write.{overwrite, length-overwrite, take-overwrite, mempy-overwrite}
use highway.FileContent.{max_path, ignored, c_string, place}

-- The path holds this text up to its length.
pub record Starts (path text : Bytes) : Type 0 where
  pub size : length path ≡ max_path
  pub spells : take (length text) path ≡ text

take-take : (xs : Bytes) (i j : ℕ) → i ≤ j → take i (take j xs) ≡ take i xs
take-take xs zero j h = refl
take-take xs (suc i) zero h = absurd (omega arith)
take-take [] (suc i) (suc j) h = refl
take-take (x ∷ xs) (suc i) (suc j) h = ap (λ t. x ∷ t) (take-take xs i j (omega arith))

-- What starts with a text starts with the start of the text.
pub Starts-append : (path xs ys : Bytes) → Starts path (xs ++ ys) → Starts path xs
Starts-append path xs ys st = record {
  size = st.size;
  spells =
      sym (take-take path (length xs) (length (xs ++ ys)) (omega (arith, length-append xs ys)))
      ∙ ap (take (length xs)) st.spells
      ∙ take-length-append xs ys;
}

-- A copy behind the text that fits.
pub copy-Starts :
    (path text src : Bytes)
    → Starts path text
    → length text + length src ≤ max_path
    → (path' : Bytes) × (copy src path (length text) (max_path - length text)
        ≡ ret (some (length (text ++ src)), path'))
      × Starts path' (text ++ src)
unfolding copy mempy
copy-Starts path text [] st fits = (
  path,
  ap_at (λ k. ret (some k, path)) (length text) (length (text ++ []))
      (omega (arith, length-append text [])),
  record {
    size = st.size;
    spells = ap (λ t. take (length t) path) (append-nil text) ∙ st.spells ∙ sym (append-nil text);
  },
)
copy-Starts path text (c ∷ src) st fits = (
  overwrite path (length text) (c ∷ src),
  mempy-overwrite (c ∷ src) path (length text) (max_path - length text) (omega arith) (omega arith)
        (omega (arith, st.size))
      ∙ ap_at (λ k. ret (some k, overwrite path (length text) (c ∷ src)))
          (length text + length (c ∷ src)) (length (text ++ c ∷ src))
          (omega (arith, length-append text (c ∷ src))),
  record {
    size = length-overwrite path (length text) (c ∷ src) (omega (arith, st.size)) ∙ st.size;
    spells =
        ap_at (λ k. take k (overwrite path (length text) (c ∷ src))) (length (text ++ c ∷ src))
          (length text + length (c ∷ src)) (length-append text (c ∷ src))
        ∙ take-overwrite path (length text) (c ∷ src) (omega (arith, st.size))
        ∙ ap (λ t. t ++ c ∷ src) st.spells;
  },
)

-- The name of an entry behind a text, with room for its zero.
pub place-Starts :
    (path text name : Bytes)
    → Starts path text
    → length text + length name < max_path
    → (path' : Bytes) × (place name path (length text) ≡ ret (length (text ++ name), path'))
      × Starts path' ((text ++ name) ++ 0 ∷ [])
unfolding place
place-Starts path text name st fits =
    let (named, copied, at_name) = copy-Starts path text name st (omega arith) in
    let (path', ended, at_end) =
      copy-Starts named (text ++ name) (0 ∷ []) at_name (omega (arith, length-append text name)) in
    (path', >>=-ret _ _ _ copied ∙ >>=-ret _ _ _ ended, at_end)

-- A zero ends the string.
pub c_string-zero : (xs rest : Bytes) → Lacks 0 xs → c_string (xs ++ 0 ∷ rest) ≡ ret xs
unfolding c_string
c_string-zero [] rest h = refl
c_string-zero (x ∷ xs) rest h =
    if_false (x == 0) _ _ (==-ne x 0 h.0) ∙ >>=-ret _ _ xs (c_string-zero xs rest h.1)

-- The string that the path holds.
pub c_string-Starts :
    (path text : Bytes) → Starts path (text ++ 0 ∷ []) → Lacks 0 text → c_string path ≡ ret text
c_string-Starts path text st h =
    ap c_string (
      sym (take-append-drop (length (text ++ 0 ∷ [])) path)
      ∙ ap (λ t. t ++ drop (length (text ++ 0 ∷ [])) path) st.spells
      ∙ append_assoc text (0 ∷ []) (drop (length (text ++ 0 ∷ [])) path))
    ∙ c_string-zero text (drop (length (text ++ 0 ∷ [])) path) h

-- `.` and `..` are ignored, and every other name is not.
pub ignored_self : ignored (codes ".") 1 ≡ ret true
unfolding ignored
ignored_self = refl

pub ignored-parent : ignored (codes "..") 2 ≡ ret true
unfolding ignored
ignored-parent = refl

pub ignored-other :
    (name : Bytes) → name ≢ codes "." → name ≢ codes ".." → ignored name (length name) ≡ ret false
unfolding ignored
ignored-other [] n1 n2 = refl
ignored-other (a ∷ []) n1 n2 = ap ret (==-ne a b'.' (λ e. n1 (ap (λ b. b ∷ []) e)))
ignored-other (a ∷ b ∷ []) n1 n2 = elim (Bool-cases (a == b'.')) [
  | inl t ↦
      if_true (a == b'.') _ _ t
      ∙ ap ret (
          ==-ne b b'.'
            (λ e. n2 (ap (λ c. c ∷ b ∷ []) ((==_iff a b'.').0 t) ∙ ap (λ c. b'.' ∷ c ∷ []) e)))
  | inr f ↦ if_false (a == b'.') _ _ f
]
ignored-other (a ∷ b ∷ c ∷ name) n1 n2 =
    if_true (ltb 2 (length (a ∷ b ∷ c ∷ name))) _ _
      (lt→ltb 2 (length (a ∷ b ∷ c ∷ name)) (omega arith))
