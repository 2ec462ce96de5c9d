-- ===== src/Examples/Static/Found.antt =====
-- The content that `on_request` finds for a URI.
use highway.Prelude.{
  ℕ, ◌≤◌, ◌≡◌, refl, sym, ap, ◌∙◌, inl, inr, List, [], ◌∷◌, codes, Bytes, length, take, drop,
  Option, none, some, Outcome, ret, >>=-ret, arith, length-drop, if_true, if_false, Bool-cases,
  if◌then◌else◌,
}
use mathlib.Core.Path.{subst}
use highway.Prelude.Int.{ℤ, pos}
use highway.Text.{HiwString, IsView, bytes}
use highway.Text.Compare.{same_text, same_text-eq, cmp-same_text}
use highway.Memory.{Memory}
use highway.Mimetypes.{text_plain, mimetype_text}
use highway.Mimetypes.Table.{type_of_name}
use highway.Env.{Env}
use highway.Servlet.{Exchange}
use highway.Examples.Static.{Content, Cache, uri_view, find_content, respond, static_on_request}
use highway.Examples.Static.Pages.{Has, AllHas, space}
use highway.Examples.Static.Added.{Caching}

-- The text of the first page of that URI.
unfoldable pub page_of : Bytes → List (Bytes × Bytes) → Option Bytes
page_of uri [] = none
page_of uri ((u, text) ∷ pages) = if same_text u uri then some text else page_of uri pages

-- A content of that text and type, or none.
abbrev Matches : Memory → Bytes → Option Content → Option Bytes → Type 0
Matches m uri none none = Unit
Matches m uri none (some text) = ⊥
Matches m uri (some c) none = ⊥
Matches m uri (some c) (some text) =
    (take c.size (drop c.memory_at m.ptr) ≡ text) × (c.mime_type ≡ mimetype_text (type_of_name uri))

-- The URI of a content that the cache has, as a view.
uri-IsView :
    (m : Memory) (c : Content) (uri text : Bytes)
    → m.pos ≤ length m.ptr
    → Has m c uri text
    → IsView (uri_view m c.uri_at c.uri_length) × (bytes (uri_view m c.uri_at c.uri_length) ≡ uri)
uri-IsView m c uri text inside h = (
  subst (λ p. IsView (uri_view m p c.uri_length)) (sym h.uri_at)
      (omega (arith, length-drop h.place m.ptr, h.uri_inside, inside)),
  ap (λ p. bytes (uri_view m p c.uri_length)) h.uri_at ∙ h.uri_text,
)

find_content-page_of :
    (contents : List Content) (m : Memory) (uri : HiwString) (pages : List (Bytes × Bytes))
    → m.pos ≤ length m.ptr
    → IsView uri
    → AllHas m contents pages
    → (found : Option Content) × (find_content contents m uri ≡ ret found)
      × Matches m (bytes uri) found (page_of (bytes uri) pages)
unfolding find_content page_of
find_content-page_of [] m uri [] inside v hs = (none, refl, tt)
find_content-page_of [] m uri (p ∷ pages) inside v hs = absurd hs
find_content-page_of (c ∷ contents) m uri [] inside v hs = absurd hs
find_content-page_of (c ∷ contents) m uri ((u, text) ∷ pages) inside v (h, hs) =
    let (view, reads) = uri-IsView m c u text inside h in
    let compared =
      cmp-same_text (uri_view m c.uri_at c.uri_length) uri view v
      ∙ ap (λ t. ret (same_text t (bytes uri))) reads in
    elim (Bool-cases (same_text u (bytes uri))) [
      | inl t ↦ (
        some c,
        >>=-ret _ _ _ compared ∙ if_true (same_text u (bytes uri)) _ _ t,
        subst (Matches m (bytes uri) (some c)) (sym (if_true (same_text u (bytes uri)) _ _ t)) (
          h.text_text,
          h.mime ∙ ap (λ n. mimetype_text (type_of_name n)) (same_text-eq u (bytes uri) t),
        ),
      )
      | inr f ↦
          let (found, later, m') = find_content-page_of contents m uri pages inside v hs in
          (
            found,
            >>=-ret _ _ _ compared ∙ if_false (same_text u (bytes uri)) _ _ f ∙ later,
            subst (Matches m (bytes uri) found) (sym (if_false (same_text u (bytes uri)) _ _ f)) m',
          )
    ]

-- A page that is sent.
pub record Page : Type 0 where
  pub status : ℤ
  pub mime : HiwString
  pub body : Bytes

-- What is sent for a text that was found, or for none.
abbrev pub page_for : Bytes → Option Bytes → Page
page_for uri (some text) = record {
  status = pos 200;
  mime = mimetype_text (type_of_name uri);
  body = text;
}
page_for uri none = record {
  status = pos 404;
  mime = mimetype_text text_plain;
  body = codes "could not find resource";
}

module _ (env : Env) where
  -- What the pages say of a request.
  abbrev pub answer_page : Exchange env.Conn → Page → Outcome (Exchange env.Conn)
  answer_page x page = respond env x page.status page.mime page.body

  -- The servlet function answers by the pages that the cache holds.
  pub static_on_request-page_of :
      (base : Bytes) (total : ℕ) (cache : Cache) (pages : List (Bytes × Bytes))
      (x : Exchange env.Conn)
      → Caching base total cache pages
      → space pages ≤ total
      → IsView x.request.uri
      → static_on_request env cache x
        ≡ answer_page x (page_for (bytes x.request.uri) (page_of (bytes x.request.uri) pages))
  unfolding static_on_request
  static_on_request-page_of base total cache pages x h within v =
      let (found, finds, matches) =
        find_content-page_of cache.contents cache.memory x.request.uri pages
          (omega (arith, h.used, h.capacity, within)) v h.has in
      >>=-ret _ _ _ finds ∙ chosen found (page_of (bytes x.request.uri) pages) matches
    where
      chosen :
          (found : Option Content) (page : Option Bytes)
          → Matches cache.memory (bytes x.request.uri) found page
          → (elim found [
            | some c ↦
                respond env x
                  (pos 200)
                  c.mime_type
                  (take c.size (drop c.memory_at cache.memory.ptr))
            | none ↦
                respond env x (pos 404) (mimetype_text text_plain) (codes "could not find resource")
          ])
            ≡ answer_page x (page_for (bytes x.request.uri) page)
      chosen none none e = refl
      chosen none (some text) e = absurd e
      chosen (some c) none e = absurd e
      chosen (some c) (some text) (e, e') =
          ap (λ t. respond env x (pos 200) c.mime_type t) e
          ∙ ap (λ t. respond env x (pos 200) t text) e'
