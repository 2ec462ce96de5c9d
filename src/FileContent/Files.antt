-- ===== src/FileContent/Files.antt =====
-- The file that a traversal gives to its callback.
use highway.Prelude.{
  ℕ, ◌+◌, ◌-◌, ◌≡◌, refl, sym, ap, ◌∙◌, [], ◌∷◌, ◌++◌, append_assoc, Bytes, length, take, drop,
  get_elem?, some, ret, arith, ap_at, length-append, take-length-append, drop-length-append,
  take-append-drop, ltb, le→ltb, if_false, >>=-ret,
}
use highway.Text.{bytes, string_set, suffix}
use highway.Text.Suffix.{suffix_text, suffix-suffix_text}
use highway.FileContent.{File, file_at}
use highway.FileContent.Fits.{Starts}

-- A file of this path and this name: its views hold them, and a zero stands behind both.
pub record Names (file : File) (path name : Bytes) : Type 0 where
  pub path_text : bytes file.path ≡ path
  pub path_ends : get_elem? file.path.begin file.path.length ≡ some 0
  pub name_text : bytes file.filename ≡ name
  pub name_ends : get_elem? file.filename.begin file.filename.length ≡ some 0
  pub suffix_of_name : bytes file.suffix ≡ suffix_text b'.' name

get_elem?-length : (xs rest : Bytes) (c : ℕ) → get_elem? (xs ++ c ∷ rest) (length xs) ≡ some c
get_elem?-length [] rest c = refl
get_elem?-length (x ∷ xs) rest c = get_elem?-length xs rest c

-- The views of a path that is all spelled out.
file_at-spelled :
    (front name rest : Bytes)
    → (file : File) × (file_at
          (front ++ (name ++ 0 ∷ rest))
          (length front + length name)
          (length name)
        ≡ ret file)
      × Names file (front ++ name) name
unfolding file_at
file_at-spelled front name rest =
    let path = front ++ (name ++ 0 ∷ rest) in
    let path2 = length front + length name in
    let (v, cut, text, view) = suffix-suffix_text name b'.' (0 ∷ rest) in
    let from_name : drop (path2 - length name) path ≡ name ++ 0 ∷ rest =
      ap_at (λ k. drop k path) (path2 - length name) (length front) (omega arith)
      ∙ drop-length-append front (name ++ 0 ∷ rest) in
    let whole : path ≡ (front ++ name) ++ 0 ∷ rest = sym (append_assoc front name (0 ∷ rest)) in
    let size : path2 ≡ length (front ++ name) = omega (arith, length-append front name) in
    (
      record {
        path = string_set path path2;
        filename = string_set (drop (path2 - length name) path) (length name);
        suffix = v;
      },
      if_false (ltb path2 (length name)) _ _ (le→ltb path2 (length name) (omega arith))
          ∙ >>=-ret _ _ v (ap (λ t. suffix (string_set t (length name)) b'.') from_name ∙ cut),
      record {
        path_text =
            ap_at (λ k. take k path) path2 (length (front ++ name)) size
            ∙ ap (take (length (front ++ name))) whole
            ∙ take-length-append (front ++ name) (0 ∷ rest);
        path_ends =
            ap_at (get_elem? path) path2 (length (front ++ name)) size
            ∙ ap (λ t. get_elem? t (length (front ++ name))) whole
            ∙ get_elem?-length (front ++ name) rest 0;
        name_text = ap (take (length name)) from_name ∙ take-length-append name (0 ∷ rest);
        name_ends = ap (λ t. get_elem? t (length name)) from_name ∙ get_elem?-length name rest 0;
        suffix_of_name = text;
      },
    )

pub file_at-Names :
    (path front name : Bytes)
    → Starts path ((front ++ name) ++ 0 ∷ [])
    → (file : File) × (file_at path (length (front ++ name)) (length name) ≡ ret file)
      × Names file (front ++ name) name
file_at-Names path front name st =
    let rest = drop (length ((front ++ name) ++ 0 ∷ [])) path in
    let (file, made, names) = file_at-spelled front name rest in
    let whole : path ≡ front ++ (name ++ 0 ∷ rest) =
      sym (take-append-drop (length ((front ++ name) ++ 0 ∷ [])) path)
      ∙ ap (λ t. t ++ rest) st.spells
      ∙ append_assoc (front ++ name) (0 ∷ []) rest
      ∙ append_assoc front name (0 ∷ rest) in
    (
      file,
      ap (λ t. file_at t (length (front ++ name)) (length name)) whole
          ∙ ap_at (λ k. file_at (front ++ (name ++ 0 ∷ rest)) k (length name))
              (length (front ++ name)) (length front + length name) (length-append front name)
          ∙ made,
      names,
    )
