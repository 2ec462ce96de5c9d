-- ===== src/Examples/Static/Pages.antt =====
-- The pages that a cache holds, and writes behind them.
use highway.Prelude.{
  ℕ, ◌+◌, ◌≤◌, ◌≡◌, ◌∙◌, List, [], ◌∷◌, ◌++◌, Bytes, length, take, drop, some, arith,
}
use highway.Memory.{Memory}
use highway.Memory.Write.{overwrite}
use highway.Mimetypes.{mimetype_text}
use highway.Mimetypes.Table.{type_of_name}
use highway.Examples.Static.{Content}
use highway.Examples.Static.Regions.{region-overwrite}

-- A content of the cache that has this URI and this text.
pub record Has (m : Memory) (c : Content) (uri text : Bytes) : Type 0 where
  pub place : ℕ
  pub uri_at : c.uri_at ≡ some place
  pub uri_inside : place + c.uri_length ≤ m.pos
  pub uri_text : take c.uri_length (drop place m.ptr) ≡ uri
  pub text_inside : c.memory_at + c.size ≤ m.pos
  pub text_text : take c.size (drop c.memory_at m.ptr) ≡ text
  pub mime : c.mime_type ≡ mimetype_text (type_of_name uri)

abbrev pub AllHas : Memory → List Content → List (Bytes × Bytes) → Type 0
AllHas m [] [] = Unit
AllHas m [] (p ∷ pages) = ⊥
AllHas m (c ∷ contents) [] = ⊥
AllHas m (c ∷ contents) ((uri, text) ∷ pages) = Has m c uri text × AllHas m contents pages

-- The bytes that the pages take.
abbrev pub space : List (Bytes × Bytes) → ℕ
space [] = 0
space ((uri, text) ∷ pages) = length uri + length text + space pages

pub space-append :
    (pages more : List (Bytes × Bytes)) → space (pages ++ more) ≡ space pages + space more
space-append [] more = omega arith
space-append ((uri, text) ∷ pages) more = omega (arith, space-append pages more)

-- A write behind all that is used.
Has-overwrite :
    (m : Memory) (c : Content) (uri text : Bytes) (i : ℕ) (src : Bytes) (after : ℕ)
    → m.pos ≤ i
    → i ≤ length m.ptr
    → m.pos ≤ after
    → Has m c uri text
    → Has (record m { ptr = overwrite m.ptr i src; pos = after }) c uri text
Has-overwrite m c uri text i src after behind inside on h = record {
  place = h.place;
  uri_at = h.uri_at;
  uri_inside = omega (arith, h.uri_inside);
  uri_text =
      region-overwrite c.uri_length h.place m.ptr i src (omega (arith, h.uri_inside)) inside
      ∙ h.uri_text;
  text_inside = omega (arith, h.text_inside);
  text_text =
      region-overwrite c.size c.memory_at m.ptr i src (omega (arith, h.text_inside)) inside
      ∙ h.text_text;
  mime = h.mime;
}

pub AllHas-overwrite :
    (m : Memory) (contents : List Content) (pages : List (Bytes × Bytes)) (i : ℕ) (src : Bytes)
    (after : ℕ)
    → m.pos ≤ i
    → i ≤ length m.ptr
    → m.pos ≤ after
    → AllHas m contents pages
    → AllHas (record m { ptr = overwrite m.ptr i src; pos = after }) contents pages
AllHas-overwrite m [] [] i src after behind inside on h = tt
AllHas-overwrite m [] (p ∷ pages) i src after behind inside on h = absurd h
AllHas-overwrite m (c ∷ contents) [] i src after behind inside on h = absurd h
AllHas-overwrite m (c ∷ contents) ((uri, text) ∷ pages) i src after behind inside on (h, hs) = (
  Has-overwrite m c uri text i src after behind inside on h,
  AllHas-overwrite m contents pages i src after behind inside on hs,
)

pub AllHas-append :
    (m : Memory) (contents : List Content) (pages : List (Bytes × Bytes)) (c : Content)
    (uri text : Bytes)
    → AllHas m contents pages
    → Has m c uri text
    → AllHas m (contents ++ c ∷ []) (pages ++ (uri, text) ∷ [])
AllHas-append m [] [] c uri text hs h = (h, tt)
AllHas-append m [] (p ∷ pages) c uri text hs h = absurd hs
AllHas-append m (d ∷ contents) [] c uri text hs h = absurd hs
AllHas-append m (d ∷ contents) ((u, t) ∷ pages) c uri text (hd, hs) h =
    (hd, AllHas-append m contents pages c uri text hs h)
