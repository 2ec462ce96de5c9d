-- ===== src/Examples/Static/Sendable.antt =====
-- The pages of the program of examples/static, as they are sent.
use highway.Prelude.{
  ◌<◌, ◌≡◌, refl, sym, inl, inr, false, List, [], ◌∷◌, All, Bytes, length, Option, arith, if_true,
  if_false, Bool-cases,
}
use mathlib.Core.Path.{subst}
use highway.Prelude.Int.{pos, eqb_ℤ}
use highway.Text.{IsView}
use highway.Text.Compare.{same_text}
use highway.Mimetypes.{
  Mimetype, text_css, text_html, text_javascript, text_plain, image_jpeg, image_png,
  application_json, application_octet_stream, mimetype_text,
}
use highway.Mimetypes.Table.{type_of_name}
use highway.Examples.Static.{OpenFile}
use highway.Examples.Static.Found.{Page, page_of, page_for}
use highway.Examples.Static.Serves.{pages, Readable}

pub record Sendable (page : Page) : Type 0 where
  pub set : eqb_ℤ page.status (pos 0) ≡ false
  pub mime_inside : IsView page.mime
  pub some_byte : 0 < length page.body

mimetype_text-IsView : (t : Mimetype) → IsView (mimetype_text t)
unfolding mimetype_text
mimetype_text-IsView text_css = omega arith
mimetype_text-IsView text_html = omega arith
mimetype_text-IsView text_javascript = omega arith
mimetype_text-IsView text_plain = omega arith
mimetype_text-IsView image_jpeg = omega arith
mimetype_text-IsView image_png = omega arith
mimetype_text-IsView application_json = omega arith
mimetype_text-IsView application_octet_stream = omega arith

abbrev HasBytes : Bytes × Bytes → Type 0
HasBytes p = 0 < length p.1

page_of-Sendable :
    (uri : Bytes) (ps : List (Bytes × Bytes))
    → All HasBytes ps
    → Sendable (page_for uri (page_of uri ps))
unfolding page_of
page_of-Sendable uri [] hs = record {
  set = refl;
  mime_inside = mimetype_text-IsView text_plain;
  some_byte = omega arith;
}
page_of-Sendable uri ((u, text) ∷ ps) (h, hs) = elim (Bool-cases (same_text u uri)) [
  | inl t ↦
      subst (λ p. Sendable (page_for uri p)) (sym (if_true (same_text u uri) _ _ t))
        (record {
          set = refl;
          mime_inside = mimetype_text-IsView (type_of_name uri);
          some_byte = h;
        })
  | inr f ↦
      subst (λ p. Sendable (page_for uri p)) (sym (if_false (same_text u uri) _ _ f))
        (page_of-Sendable uri ps hs)
]

module _ (fopen : Bytes → Option OpenFile) (texts : Bytes → Bytes) where
  pages-HasBytes :
      (root : Bytes) (fs : List (Bytes × Bytes))
      → All (Readable fopen texts) fs
      → All HasBytes (pages root texts fs)
  pages-HasBytes root [] rs = tt
  pages-HasBytes root (f ∷ fs) (r, rs) = (r.some_byte, pages-HasBytes root fs rs)

  -- Files that can be read make pages that can be sent, and so does the answer to any other URI.
  pub pages-Sendable :
      (root uri : Bytes) (fs : List (Bytes × Bytes))
      → All (Readable fopen texts) fs
      → Sendable (page_for uri (page_of uri (pages root texts fs)))
  pages-Sendable root uri fs rs =
      page_of-Sendable uri (pages root texts fs) (pages-HasBytes root fs rs)
