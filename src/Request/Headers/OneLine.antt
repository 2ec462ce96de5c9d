-- ===== src/Request/Headers/OneLine.antt =====
-- A header line, and the empty line, in the loop of `hiw_internal_request_read_headers` over the lines.
use highway.Prelude.{
  ◌≢◌, ℕ, ◌+◌, ◌<◌, ◌≡◌, ap, ◌∙◌, [], ◌∷◌, ◌++◌, append_assoc, Bytes, length, codes, Outcome, ret,
  ◌>>=◌, arith, ap_at, All-append, Lacks, length-append, >>=-ret, take-length-append,
}
use highway.Text.{bytes, string_set, isspace, split, trim}
use highway.Text.Split.{views, split-join}
use highway.Text.Trim.{StartsInk, EndsInk, trim_ink}
use highway.Request.{Header}
use highway.Request.Headers.{Scan, Lines, header_line}
use highway.Request.Headers.AddHeader.{Took, IsLength, add_header-Took}

-- A header line without its newline.
abbrev pub field_line : Bytes × Bytes → Bytes
field_line (name, text) = name ++ b':' ∷ (b' ' ∷ (text ++ codes "\r"))

-- A name and a text that a header line may hold.
pub record WellFormed (field : Bytes × Bytes) : Type 0 where
  pub name_no_colon : Lacks b':' field.0
  pub name_no_newline : Lacks b'\n' field.0
  pub name_starts : StartsInk field.0
  pub name_ends : EndsInk field.0
  pub text_no_newline : Lacks b'\n' field.1
  pub text_starts : StartsInk field.1
  pub text_ends : EndsInk field.1
  pub length_fits : IsLength field.0 field.1

-- A header whose views are this name and this text.
abbrev pub spelled : Header → Bytes × Bytes
spelled h = (bytes h.name, bytes h.value)

-- Trimming a text with nothing to trim, and one between a space and a carriage return.
trim_name :
    (name rest : Bytes)
    → StartsInk name
    → EndsInk name
    → trim (string_set (name ++ rest) (length name)) ≡ ret (string_set (name ++ rest) (length name))
trim_name name rest s e =
    ap_at (λ k. trim (string_set (name ++ rest) k)) (length name) (0 + (length name + 0))
      (omega arith)
    ∙ trim_ink [] name [] rest tt s e tt

trim_text :
    (text rest : Bytes)
    → StartsInk text
    → EndsInk text
    → trim
        (string_set ((b' ' ∷ (text ++ codes "\r")) ++ rest) (length (b' ' ∷ (text ++ codes "\r"))))
      ≡ ret (string_set (text ++ (codes "\r" ++ rest)) (length text))
unfolding isspace
trim_text text rest s e =
    ap (λ b. trim (string_set (b' ' ∷ b) (length (b' ' ∷ (text ++ codes "\r")))))
      (append_assoc text (codes "\r") rest)
    ∙ ap_at (λ k. trim (string_set (b' ' ∷ (text ++ (codes "\r" ++ rest))) k))
        (length (b' ' ∷ (text ++ codes "\r"))) (1 + (length text + 1))
        (omega (arith, length-append text (codes "\r")))
    ∙ trim_ink (codes " ") text (codes "\r") rest (ground arith) s e (ground arith)

pub field_line-Lacks : (field : Bytes × Bytes) → WellFormed field → Lacks b'\n' (field_line field)
field_line-Lacks (name, text) w =
    All-append (λ c. c ≢ b'\n') name (b':' ∷ (b' ' ∷ (text ++ codes "\r"))) w.name_no_newline
      (
        (λ e. omega arith),
        (
          (λ e. omega arith),
          All-append (λ c. c ≢ b'\n') text (codes "\r") w.text_no_newline (ground arith),
        ),
      )

-- The scan behind a header line.
pub record Advances (s : Scan) (field : Bytes × Bytes) (s' : Scan) : Type 0 where
  pub header : Header
  pub spells : spelled header ≡ field
  pub took : Took s (length (field_line field)) field.0 field.1 header s'

pub header_line-Advances :
    (max bytes_read left : ℕ) (s : Scan) (field : Bytes × Bytes) (rest : Bytes)
    (k : Scan → Outcome Lines)
    → WellFormed field
    → length s.request.headers < max
    → (s' : Scan) × (◌>>=◌ {B = Lines}
          (split (string_set (field_line field ++ rest) (length (field_line field))) b':' 2)
          (λ parts.
            header_line max bytes_read left s
              (string_set (field_line field ++ rest) (length (field_line field)))
              parts
              k)
        ≡ k s')
      × Advances s field s'
unfolding header_line
header_line-Advances max bytes_read left s (name, text) rest k w few =
    let part = b' ' ∷ (text ++ codes "\r") in
    let line = string_set (field_line (name, text) ++ rest) (length (field_line (name, text))) in
    let (s', added, t) =
      add_header-Took max s line (string_set (name ++ b':' ∷ (part ++ rest)) (length name))
        (string_set (part ++ rest) (length part)) name text (b':' ∷ (part ++ rest))
        (codes "\r" ++ rest) few (trim_name name (b':' ∷ (part ++ rest)) w.name_starts w.name_ends)
        (trim_text text rest w.text_starts w.text_ends) w.length_fits in
    (
      s',
      >>=-ret _ _ (views b':' (name ∷ part ∷ []) rest) (
            split-join b':' 1 (name ∷ part ∷ []) rest (w.name_no_colon, tt)
              (omega (arith, length-append name (b':' ∷ part))))
          ∙ >>=-ret _ _ s' added,
      record {
        header = _;
        spells =
            ap (λ x. (x, bytes (string_set (text ++ (codes "\r" ++ rest)) (length text))))
              (take-length-append name (b':' ∷ (part ++ rest)))
            ∙ ap (λ x. (name, x)) (take-length-append text (codes "\r" ++ rest));
        took = t;
      },
    )
