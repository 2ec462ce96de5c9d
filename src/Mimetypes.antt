-- ===== src/Mimetypes.antt =====
-- core/src/hiw_mimetypes.c: the MIME type of a file name.
pub mod Table
use highway.Prelude.{
  ℕ, Bool, true, false, List, [], ◌∷◌, Bytes, codes, Outcome, ret, ◌>>=◌, if◌then◌else◌,
}
use highway.Text.{HiwString, string_const, suffix, cmp}

-- `hiw_mimetypes`
pub data Mimetype : Type 0 where
  text_css text_html text_javascript text_plain image_jpeg image_png : Mimetype
  application_json application_octet_stream : Mimetype

unfoldable pub mimetype_text : Mimetype → HiwString
mimetype_text text_css = string_const (codes "text/css")
mimetype_text text_html = string_const (codes "text/html")
mimetype_text text_javascript = string_const (codes "text/javascript")
mimetype_text text_plain = string_const (codes "text/plain")
mimetype_text image_jpeg = string_const (codes "image/jpeg")
mimetype_text image_png = string_const (codes "image/png")
mimetype_text application_json = string_const (codes "application/json")
mimetype_text application_octet_stream = string_const (codes "application/octet-stream")

-- `if (hiw_string_cmp(suffix, hiw_string_const(ext))) return mime;`, and what follows.
pub from_table : HiwString → List (Bytes × Mimetype) → Outcome HiwString
unfolding mimetype_text
from_table suffix [] = ret (mimetype_text application_octet_stream)
from_table suffix ((ext, mime) ∷ table) =
    let rest = from_table suffix table in
    do same ← cmp suffix (string_const ext); if same then ret (mimetype_text mime) else rest

abbrev pub suffixes : List (Bytes × Mimetype)
suffixes =
    (codes ".css", text_css)
    ∷ (codes ".html", text_html)
    ∷ (codes ".js", text_javascript)
    ∷ (codes ".txt", text_plain)
    ∷ (codes ".jpg", image_jpeg)
    ∷ (codes ".jpeg", image_jpeg)
    ∷ (codes ".png", image_png)
    ∷ (codes ".json", application_json)
    ∷ []

pub from_suffix : HiwString → Outcome HiwString
unfolding from_table
from_suffix suffix = from_table suffix suffixes

pub from_filename : HiwString → Outcome HiwString
unfolding from_suffix
from_filename filename = do s ← suffix filename b'.'; from_suffix s
