-- ===== src/Request/Headers/AddHeader.antt =====
-- What a header line adds to a request in `hiw_internal_request_read_headers`.
use highway.Prelude.{
  ℕ, ◌+◌, ◌≤◌, ◌<◌, ◌≡◌, refl, sym, ap, ◌∙◌, Bool, true, false, [], ◌∷◌, ◌++◌, Bytes, length, codes,
  ret, arith, ltb, lt→ltb, if◌then◌else◌, if_true, if_false, >>=-ret, take-length-append,
  length-append, ◌⊎◌, inl, inr, Bool-cases,
}
use highway.Prelude.Int.{ℤ, pos}
use highway.Text.{HiwString, IsView, bytes, string_set, trim, cmpc}
use highway.Text.Compare.{same_text, cmpc-same_text}
use highway.Number.{toi, finish, int_max}
use highway.Number.Signed.{AreDigits, value, toi-value}
use highway.Request.{Request, Header}
use highway.Request.Headers.{Scan, add_header, store_length}

-- What the connection header and the content length are after a header.
unfoldable pub close_after : Bool → Bytes → Bytes → Bool
close_after close name text =
    if same_text name (codes "Connection") then same_text text (codes "close") else close

unfoldable pub length_after : ℤ → Bytes → Bytes → ℤ
length_after len name text =
    if same_text name (codes "Connection")
    then len
    else if same_text name (codes "Content-Length")
    then pos (value 0 text)
    else len

-- A content length has digits that fit an `int`.
abbrev pub IsLength : Bytes → Bytes → Type 0
IsLength name text =
    (same_text name (codes "Content-Length") ≡ false) ⊎ (AreDigits text × (value 0 text ≤ int_max))

-- The scan behind a header whose name and text are these views.
pub record Took (s : Scan) (line : ℕ) (name text : Bytes) (header : Header) (s' : Scan)
    : Type 0 where
  pub headers : s'.request.headers ≡ s.request.headers ++ header ∷ []
  pub position : s'.pos ≡ s.pos + line + 1
  pub memory : s'.request.memory ≡ s.request.memory
  pub method : s'.request.method ≡ s.request.method
  pub uri : s'.request.uri ≡ s.request.uri
  pub close : s'.header_connection_close ≡ close_after s.header_connection_close name text
  pub content_length : s'.header_content_length ≡ length_after s.header_content_length name text

digits_value :
    (name text rest : Bytes)
    → IsLength name text
    → same_text name (codes "Content-Length") ≡ true
    → toi (string_set (text ++ rest) (length text)) ≡ ret (finish rest (pos (value 0 text)))
digits_value name text rest (inl other) t = cc
digits_value name text rest (inr (digits, fits)) t = (toi-value text rest digits fits).0

-- A header that there is room for, once both parts are trimmed.
pub add_header-Took :
    (max : ℕ) (s : Scan) (line name_part value_part : HiwString) (name text rest rest' : Bytes)
    → length s.request.headers < max
    → trim name_part ≡ ret (string_set (name ++ rest) (length name))
    → trim value_part ≡ ret (string_set (text ++ rest') (length text))
    → IsLength name text
    → (s' : Scan) × (add_header max s line name_part value_part ≡ ret s')
      × Took s line.length name text
          (record {
            name = string_set (name ++ rest) (length name);
            value = string_set (text ++ rest') (length text);
          })
          s'
unfolding add_header close_after length_after store_length
add_header-Took max s line name_part value_part name text rest rest' few tn tv is_length =
    let n = string_set (name ++ rest) (length name) in
    let v = string_set (text ++ rest') (length text) in
    let n_text : bytes n ≡ name = take-length-append name rest in
    let v_text : bytes v ≡ text = take-length-append text rest' in
    let n_view : IsView n = omega (arith, length-append name rest) in
    let v_view : IsView v = omega (arith, length-append text rest') in
    let compared : (c : Bytes) → cmpc n c (length c) ≡ ret (same_text name c) =
      λ c. cmpc-same_text n c n_view ∙ ap (λ x. ret (same_text x c)) n_text in
    let start : add_header max s line name_part value_part ≡ _ =
      if_true (ltb (length s.request.headers) max) _ _ (lt→ltb _ _ few)
      ∙ >>=-ret _ _ n tn
      ∙ >>=-ret _ _ v tv
      ∙ >>=-ret _ _ (same_text name (codes "Connection")) (compared (codes "Connection"))
      ∙ >>=-ret _ _ (same_text name (codes "Content-Length")) (compared (codes "Content-Length")) in
    let header : Header = record { name = n; value = v } in
    let req : Request = record (s.request) { headers = s.request.headers ++ header ∷ [] } in
    let moved : Scan = record s { request = req; pos = s.pos + line.length + 1 } in
    elim (Bool-cases (same_text name (codes "Connection"))) [
      | inl t ↦ (
        record moved { header_connection_close = same_text text (codes "close") },
        start
            ∙ if_true (same_text name (codes "Connection")) _ _ t
            ∙ >>=-ret _ _ (same_text text (codes "close")) (
                cmpc-same_text v (codes "close") v_view
                ∙ ap (λ x. ret (same_text x (codes "close"))) v_text),
        record {
          headers = refl;
          position = refl;
          memory = refl;
          method = refl;
          uri = refl;
          close = sym (if_true (same_text name (codes "Connection")) _ _ t);
          content_length = sym (if_true (same_text name (codes "Connection")) _ _ t);
        },
      )
      | inr t ↦ elim (Bool-cases (same_text name (codes "Content-Length"))) [
        | inl u ↦ (
          record moved {
            request = record req { content_length = pos (value 0 text) };
            header_content_length = pos (value 0 text);
          },
          start
              ∙ if_false (same_text name (codes "Connection")) _ _ t
              ∙ if_true (same_text name (codes "Content-Length")) _ _ u
              ∙ >>=-ret _ _ (finish rest' (pos (value 0 text)))
                  (digits_value name text rest' is_length u),
          record {
            headers = refl;
            position = refl;
            memory = refl;
            method = refl;
            uri = refl;
            close = sym (if_false (same_text name (codes "Connection")) _ _ t);
            content_length = sym (
                if_false (same_text name (codes "Connection")) _ _ t
                ∙ if_true (same_text name (codes "Content-Length")) _ _ u);
          },
        )
        | inr u ↦ (
          moved,
          start
              ∙ if_false (same_text name (codes "Connection")) _ _ t
              ∙ if_false (same_text name (codes "Content-Length")) _ _ u,
          record {
            headers = refl;
            position = refl;
            memory = refl;
            method = refl;
            uri = refl;
            close = sym (if_false (same_text name (codes "Connection")) _ _ t);
            content_length = sym (
                if_false (same_text name (codes "Connection")) _ _ t
                ∙ if_false (same_text name (codes "Content-Length")) _ _ u);
          },
        )
      ]
    ]
