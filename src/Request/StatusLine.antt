-- ===== src/Request/StatusLine.antt =====
-- `hiw_internal_request_parse_status_line`.
use highway.Text.Split.{join, views, split-join}
use highway.Text.Trim.{EndsInk, rtrim_ink}
use highway.Prelude.{
  true, ◌+◌, ◌<◌, ◌++◌, ◌∙◌, Bytes, length, arith, ap_at, length-append, Lacks, if_false, >>=-ret,
  ==-ne, ◌≡◌, refl, Bool, false, List, [], ◌∷◌, codes, ret, ◌==◌, Ends, Any, >>=-Ends, if-Ends,
}
use highway.Text.{string_set, isspace, HiwString, rtrim, split, cmpc}
use highway.Text.Ends.{split-Ends, rtrim-Ends, cmpc-Ends}
use highway.Request.{Request, parse_parts, parse_status_line}

-- The memory, and what is read ahead in it, are as before.
abbrev pub KeepsMemory : Request → Bool × Request → Type 0
KeepsMemory req (parsed, req') =
    (req'.memory ≡ req.memory)
    × (req'.read_ahead ≡ req.read_ahead)
    × (req'.read_ahead_length ≡ req.read_ahead_length)

parse_parts-KeepsMemory :
    (req : Request) (parts : List HiwString) → Ends (KeepsMemory req) (parse_parts req parts)
unfolding parse_parts
parse_parts-KeepsMemory req [] = (refl, refl, refl)
parse_parts-KeepsMemory req (a ∷ []) = (refl, refl, refl)
parse_parts-KeepsMemory req (a ∷ b ∷ []) = (refl, refl, refl)
parse_parts-KeepsMemory req (a ∷ b ∷ c ∷ []) =
    >>=-Ends Any _ (rtrim c) _ (rtrim-Ends c) (λ version h1.
      >>=-Ends Any _ (cmpc version (codes "HTTP/1.1") 8) _ (cmpc-Ends version (codes "HTTP/1.1") 8)
        (λ supported h2.
          if-Ends _ supported _ (ret (false, req))
            (λ t.
              >>=-Ends Any _ (rtrim a) _ (rtrim-Ends a)
                (λ m h3. >>=-Ends Any _ (rtrim b) _ (rtrim-Ends b) (λ u h4. (refl, refl, refl))))
            (λ t. (refl, refl, refl))))
parse_parts-KeepsMemory req (a ∷ b ∷ c ∷ d ∷ ds) = (refl, refl, refl)

-- It comes to an end and leaves the memory as it is.
pub parse_status_line-KeepsMemory :
    (req : Request) (line : HiwString) → Ends (KeepsMemory req) (parse_status_line req line)
unfolding parse_status_line
parse_status_line-KeepsMemory req line =
    if-Ends _ (line.length == 0) (ret (false, req)) _ (λ t. (refl, refl, refl))
      (λ t.
        >>=-Ends Any _ (split line b' ' 3) _ (split-Ends line b' ' 3)
          (λ parts h. parse_parts-KeepsMemory req parts))

-- A text that ends in ink has nothing to trim.
rtrim-ink_only :
    (text rest : Bytes)
    → EndsInk text
    → rtrim (string_set (text ++ rest) (length text))
      ≡ ret (string_set (text ++ rest) (length text))
rtrim-ink_only text rest ink =
    ap_at (λ k. rtrim (string_set (text ++ rest) k)) (length text) (length text + 0) (omega arith)
    ∙ rtrim_ink text [] rest ink tt

-- The version that is supported, as it stands at the end of a line.
abbrev pub version : Bytes
version = codes "HTTP/1.1\r"

-- A line of a method, a URI and the version HTTP/1.1, with a space between them and a carriage return
-- behind them, is accepted, and the method and the URI are the views of theirs, if neither holds a
-- space and both end in a byte that is not white space.
pub parse_status_line-join :
    (req : Request) (method uri rest : Bytes)
    → Lacks b' ' method
    → Lacks b' ' uri
    → EndsInk method
    → EndsInk uri
    → parse_status_line req (
        string_set
          (join b' ' (method ∷ uri ∷ version ∷ []) ++ rest)
          (length (join b' ' (method ∷ uri ∷ version ∷ []))))
      ≡ ret (
        true,
        record req {
          method =
              string_set
                (method ++ b' ' ∷ (join b' ' (uri ∷ version ∷ []) ++ rest))
                (length method);
          uri = string_set (uri ++ b' ' ∷ (version ++ rest)) (length uri);
        },
      )
unfolding parse_status_line parse_parts cmpc isspace
parse_status_line-join req method uri rest lm lu im iu =
    let some_byte : 0 < length (join b' ' (method ∷ uri ∷ version ∷ [])) =
      omega (arith, length-append method (b' ' ∷ join b' ' (uri ∷ version ∷ []))) in
    if_false (length (join b' ' (method ∷ uri ∷ version ∷ [])) == 0) _ _ (==-ne _ 0 (omega arith))
    ∙ >>=-ret _ _ (views b' ' (method ∷ uri ∷ version ∷ []) rest)
        (split-join b' ' 2 (method ∷ uri ∷ version ∷ []) rest (lm, (lu, tt)) some_byte)
    ∙ >>=-ret _ _ (string_set (version ++ rest) 8)
        (rtrim_ink (codes "HTTP/1.1") (codes "\r") rest refl (refl, tt))
    ∙ >>=-ret _ _
        (string_set (method ++ b' ' ∷ (join b' ' (uri ∷ version ∷ []) ++ rest)) (length method))
        (rtrim-ink_only method (b' ' ∷ (join b' ' (uri ∷ version ∷ []) ++ rest)) im)
    ∙ >>=-ret _ _ (string_set (uri ++ b' ' ∷ (version ++ rest)) (length uri))
        (rtrim-ink_only uri (b' ' ∷ (version ++ rest)) iu)
