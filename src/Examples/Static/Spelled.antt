-- ===== src/Examples/Static/Spelled.antt =====
-- What `static_cache_add` reads of a file.
use highway.Prelude.{
  ℕ, zero, suc, ◌-◌, ◌≤◌, ◌≡◌, refl, sym, ap, ◌∙◌, inl, inr, Bool, [], ◌∷◌, ◌++◌, Lacks, Bytes,
  length, take, drop, get_elem?, Option, none, some, ret, ◌>>=◌, >>=-ret, arith, ap_at,
  length-append, length-drop, ltb, ltb-le, le→ltb, ◌==◌, ==-ne, if_false, Bool-cases,
}
use highway.Prelude.Int.{ℤ}
use highway.Text.{string_set}
use highway.Memory
use highway.Memory.{Memory}
use highway.FileContent.{File, c_string}
use highway.FileContent.Files.{Names}
use highway.Examples.Static.{OpenFile, Cache, copy_path, open_content, static_cache_add}
use highway.Examples.Static.Regions.{region-append}

-- A file of this path, and nothing behind it.
abbrev pub file_of : Bytes → File
file_of path = record {
  path = string_set (path ++ 0 ∷ []) (length path);
  filename = string_set [] 0;
  suffix = string_set [] 0;
}

view_spells :
    (begin : Bytes) (n : ℕ)
    → get_elem? begin n ≡ some 0
    → (rest : Bytes) × (begin ≡ take n begin ++ 0 ∷ rest) × (n ≡ length (take n begin))
view_spells [] n e = cc
view_spells (x ∷ begin) zero e = let same : x ≡ 0 = cc in (begin, ap (λ c. c ∷ begin) same, refl)
view_spells (x ∷ begin) (suc n) e =
    let (rest, spelled, size) = view_spells begin n e in
    (rest, ap (λ t. x ∷ t) spelled, ap suc size)

c_string-stops : (path rest : Bytes) → c_string (path ++ 0 ∷ rest) ≡ c_string (path ++ 0 ∷ [])
unfolding c_string
c_string-stops [] rest = refl
c_string-stops (c ∷ path) rest = rw (c_string-stops path rest) refl

pub c_string-path : (path rest : Bytes) → Lacks 0 path → c_string (path ++ 0 ∷ rest) ≡ ret path
unfolding c_string
c_string-path [] rest l = refl
c_string-path (c ∷ path) rest l =
    if_false (c == 0) _ _ (==-ne c 0 l.0) ∙ >>=-ret _ _ path (c_string-path path rest l.1)

copy_path-same :
    (m : Memory) (p : Option ℕ) (src src' : Bytes) (n : ℕ)
    → n ≤ length src
    → n ≤ length src'
    → take n src ≡ take n src'
    → copy_path m p src n ≡ copy_path m p src' n
unfolding copy_path
copy_path-same m none src src' n h h' e = refl
copy_path-same m (some p) src src' n h h' e = rw (le→ltb _ _ h, le→ltb _ _ h', e) refl

module _ (realloc : Bytes → ℤ → Option Bytes) (fopen : Bytes → Option OpenFile)
    (grows : ℕ → Bool) where
  -- With what stands behind the path in memory.
  abbrev trailed : File → Bytes → Bytes → File
  trailed f path rest = record f { path = string_set (path ++ 0 ∷ rest) (length path) }

  static_cache_add-trailed :
      (cache : Cache) (f : File) (path rest : Bytes)
      → static_cache_add realloc fopen grows cache (trailed f path rest)
        ≡ static_cache_add realloc fopen grows cache (file_of path)
  unfolding static_cache_add
  static_cache_add-trailed cache f path rest =
      let base = cache.base_dir.length in
      let n = length path - base in
      elim (Bool-cases (ltb (length path) base)) [
        | inl t ↦ rw t refl
        | inr f' ↦
            let le : base ≤ length path = ltb-le _ _ f' in
            let size1 = length-drop base (path ++ 0 ∷ rest) in
            let size2 = length-drop base (path ++ 0 ∷ []) in
            let size3 = length-append path (0 ∷ rest) in
            let size4 = length-append path (0 ∷ []) in
            let same : take n (drop base (path ++ 0 ∷ rest)) ≡ take n (drop base (path ++ 0 ∷ [])) =
              region-append n base path (0 ∷ rest) (omega arith)
              ∙ sym (region-append n base path (0 ∷ []) (omega arith)) in
            if_false (ltb (length path) base) _ _ f'
            ∙ ap (λ k. Memory.get realloc cache.memory n >>= k)
                (λ i. λ (copied_at, m).
                  copy_path-same m copied_at (drop base (path ++ 0 ∷ rest))
                    (drop base (path ++ 0 ∷ [])) n (omega arith) (omega arith) same i
                  >>= λ m'. c_string-stops path rest i >>= λ name.
                      open_content realloc fopen grows (record cache { memory = m' }) copied_at n
                        (fopen name))
            ∙ sym (if_false (ltb (length path) base) _ _ f')
      ]

  -- Only the path of the file matters.
  pub static_cache_add-Names :
      (cache : Cache) (f : File) (path name : Bytes)
      → Names f path name
      → static_cache_add realloc fopen grows cache f
        ≡ static_cache_add realloc fopen grows cache (file_of path)
  static_cache_add-Names cache f path name h =
      let (rest, spelled, size) = view_spells f.path.begin f.path.length h.path_ends in
      let begins : f.path.begin ≡ path ++ 0 ∷ rest =
        spelled ∙ ap (λ t. t ++ 0 ∷ rest) h.path_text in
      let long : f.path.length ≡ length path = size ∙ ap length h.path_text in
      ap
        (λ b.
          static_cache_add realloc fopen grows cache
            (record f { path = string_set b f.path.length }))
        begins
      ∙ ap_at
          (λ k.
            static_cache_add realloc fopen grows cache
              (record f { path = string_set (path ++ 0 ∷ rest) k }))
          f.path.length (length path) long
      ∙ static_cache_add-trailed cache f path rest
