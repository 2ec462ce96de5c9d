-- ===== src/Mimetypes/Table.antt =====
-- Which type a file name gets.
use highway.Prelude.{
  ap, >>=-ret, Bool-cases, suc, ◌+◌, ◌<◌, ◌≡◌, ◌≢◌, ◌⊎◌, inl, inr, refl, sym, ◌∙◌, Bool, true,
  false, List, [], ◌∷◌, ◌++◌, Bytes, Lacks, length, take, ret, arith, take-length,
  take-length-append, length-append, if◌then◌else◌,
}
use highway.Text.{HiwString, IsView, bytes, string_set, string_const}
use highway.Text.Compare.{cmp-Decides, same_text, cmp-same_text}
use highway.Text.Suffix.{suffix_found, suffix_missing, suffix_text, suffix-suffix_text}
use highway.Mimetypes.{
  Mimetype, application_octet_stream, mimetype_text, from_table, suffixes, from_filename,
}

-- The type that a table gives to an extension.
abbrev pub LookupType : Bytes → List (Bytes × Mimetype) → Mimetype → Type 0
LookupType ext [] mime = mime ≡ application_octet_stream
LookupType ext ((e, m) ∷ table) mime =
    ((ext ≡ e) × (mime ≡ m)) ⊎ ((ext ≢ e) × LookupType ext table mime)

-- `from_table` answers the first entry whose extension is the suffix's text.
from_table-lookup :
    (s : HiwString) (table : List (Bytes × Mimetype)) (mime : Mimetype)
    → IsView s
    → LookupType (bytes s) table mime
    → from_table s table ≡ ret (mimetype_text mime)
unfolding from_table
from_table-lookup s [] mime v h = rw h
from_table-lookup s ((e, m) ∷ table) mime v h =
    let (b, eq, yields, decides) = cmp-Decides s (string_const e) v (omega arith) in
    rw eq (choose b yields decides h (from_table-lookup s table mime v))
  where
    choose :
        (b : Bool)
        → (b ≡ true → bytes s ≡ take (length e) e)
        → (bytes s ≡ take (length e) e → b ≡ true)
        → ((bytes s ≡ e) × (mime ≡ m)) ⊎ ((bytes s ≢ e) × LookupType (bytes s) table mime)
        → (LookupType (bytes s) table mime → from_table s table ≡ ret (mimetype_text mime))
        → (if b then ret (mimetype_text m) else from_table s table) ≡ ret (mimetype_text mime)
    choose b yields decides (inl (same, e')) go = rw (decides (same ∙ sym (take-length e)), e')
    choose true yields decides (inr (ne, rest)) go = absurd (ne (yields refl ∙ take-length e))
    choose false yields decides (inr (ne, rest)) go = go rest

-- A file name that ends in a dot and a text without one gets the type that the table gives to the
-- dot and that text, whatever stands before and behind it in memory.
pub from_filename_suffix :
    (stem ext rest : Bytes) (mime : Mimetype)
    → Lacks b'.' ext
    → 1 < length stem + suc (length ext)
    → LookupType (b'.' ∷ ext) suffixes mime
    → from_filename (string_set (stem ++ b'.' ∷ (ext ++ rest)) (length stem + suc (length ext)))
      ≡ ret (mimetype_text mime)
unfolding from_filename
from_filename_suffix stem ext rest mime l long h = rw (suffix_found stem b'.' ext rest l long) (
    from_table-lookup (string_set (b'.' ∷ (ext ++ rest)) (suc (length ext))) suffixes mime
      (omega (arith, length-append ext rest)) (rw (take-length-append ext rest) h))

undotted : (xs e : Bytes) → Lacks b'.' xs → xs ≢ b'.' ∷ e
undotted [] e l h = cc
undotted (x ∷ xs) e l h = l.0 (ground (arith, h))

-- A file name of two bytes or more that holds no dot is an octet stream.
pub from_filename_undotted :
    (xs rest : Bytes)
    → Lacks b'.' xs
    → 1 < length xs
    → from_filename (string_set (xs ++ rest) (length xs))
      ≡ ret (mimetype_text application_octet_stream)
unfolding from_filename
from_filename_undotted xs rest l long = rw (suffix_missing xs b'.' rest l long) (
    from_table-lookup (string_set (xs ++ rest) (length xs)) suffixes application_octet_stream
      (omega (arith, length-append xs rest))
      (rw (take-length-append xs rest) (
        inr (
          undotted xs _ l,
          inr (
            undotted xs _ l,
            inr (
              undotted xs _ l,
              inr (
                undotted xs _ l,
                inr (
                  undotted xs _ l,
                  inr (undotted xs _ l, inr (undotted xs _ l, inr (undotted xs _ l, refl))),
                ),
              ),
            ),
          ),
        ))))

-- Every extension has a type.
type_of : Bytes → List (Bytes × Mimetype) → Mimetype
type_of ext [] = application_octet_stream
type_of ext ((e, m) ∷ table) = if same_text ext e then m else type_of ext table

-- The type of a file name, by the text of its suffix.
unfoldable pub type_of_name : Bytes → Mimetype
unfolding type_of
type_of_name name = type_of (suffix_text b'.' name) suffixes

from_table-type_of :
    (s : HiwString) (table : List (Bytes × Mimetype))
    → IsView s
    → from_table s table ≡ ret (mimetype_text (type_of (bytes s) table))
unfolding from_table type_of
from_table-type_of s [] v = refl
from_table-type_of s ((e, m) ∷ table) v =
    >>=-ret _ _ _ (cmp-same_text s (string_const e) v (omega arith))
    ∙ ap (λ t. if same_text (bytes s) t then ret (mimetype_text m) else from_table s table)
        (take-length e)
    ∙ elim (Bool-cases (same_text (bytes s) e)) [
      | inl t ↦ rw t refl
      | inr f ↦ rw f (from_table-type_of s table v)
    ]

-- Every file name gets the type of its suffix's text.
pub from_filename-type_of_name :
    (name rest : Bytes)
    → from_filename (string_set (name ++ rest) (length name))
      ≡ ret (mimetype_text (type_of_name name))
unfolding from_filename type_of_name
from_filename-type_of_name name rest =
    let (v, cut, text, view) = suffix-suffix_text name b'.' rest in
    >>=-ret _ _ v cut
    ∙ from_table-type_of v suffixes view
    ∙ ap (λ t. ret (mimetype_text (type_of t suffixes))) text
