-- ===== src/Response/Wire/AddHeader.antt =====
-- `hiw_response_write_header`: which headers are added and what they spell, and which are refused.
use mathlib.Core.Path.{subst}
use highway.Prelude.{
  if_false, >>=-ret, ◌≤◌, ◌<◌, ◌≡◌, ◌≢◌, refl, ap, ◌∙◌, inl, inr, Bool, true, false, List, [], ◌∷◌,
  ◌++◌, append_assoc, Bytes, All, length, length-append, codes, Outcome, ret, arith, leb, lt→leb,
  Bool-cases,
}
use highway.Prelude.Int.{pos, eqb_ℤ}
use highway.Text.{HiwString, IsView, bytes}
use highway.Text.Compare.{cmp-Decides}
use highway.Env.{Env}
use highway.Request.{Header}
use highway.Response.{write_line, Response, already_added, write_header}
use highway.Response.Wire.{Same, Same-trans, Spells, status_line, write_status_once-StatusWritten}
use highway.Response.Wire.Pair.{write_pair-Adds}

-- A header's name is new among the headers that are added.
unfoldable pub New : List Header → HiwString → Type 0
New headers name = All (λ h. IsView h.name × (bytes h.name ≢ bytes name)) headers

already_added-New :
    (headers : List Header) (name : HiwString)
    → IsView name
    → New headers name
    → already_added headers name ≡ ret false
unfolding already_added New
already_added-New [] name v new = refl
already_added-New (h ∷ headers) name v ((hv, differs), new) =
    let (same, compared, to, from) = cmp-Decides h.name name hv v in
    rw compared (elim (Bool-cases same) [
      | inl t ↦ absurd (differs (to t))
      | inr t ↦ rw t (already_added-New headers name v new)
    ])

-- What the addition of a header writes.
unfoldable pub added : Response → Header → Bytes
unfolding status_line
added resp h = status_line resp ++ (bytes h.name ++ (codes ": " ++ (bytes h.value ++ codes "\r\n")))

module _ (env : Env) where
  -- The answer, the text, the headers and the flag after a header is added.
  abbrev pub Added : Response → Header → Bytes → Outcome (Bool × Response) → Type 0
  Added resp h text call =
      (resp' : Response) × (call ≡ ret (true, resp'))
      × Spells resp' (text ++ added resp h)
      × (resp'.headers ≡ resp.headers ++ h ∷ [])
      × (resp'.status_code_set ≡ true)
      × Same resp' resp

  write_line-Added :
      (resp : Response) (h : Header) (text : Bytes)
      → Spells resp text
      → IsView h.name
      → IsView h.value
      → length (text ++ added resp h) ≤ length resp.memory.ptr
      → Added resp h text (write_line env resp h)
  unfolding write_line added
  write_line-Added resp h text s nv vv room =
      let line = status_line resp in
      let spelt : text ++ line ++ bytes h.name ++ codes ": " ++ (bytes h.value ++ codes "\r\n")
          ≡ text ++ added resp h =
        append_assoc (text ++ line ++ bytes h.name) (codes ": ") (bytes h.value ++ codes "\r\n")
        ∙ append_assoc (text ++ line) (bytes h.name) (codes ": " ++ (bytes h.value ++ codes "\r\n"))
        ∙ append_assoc text line
            (bytes h.name ++ (codes ": " ++ (bytes h.value ++ codes "\r\n"))) in
      let total = ap length spelt in
      let size3 =
        length-append (text ++ line ++ bytes h.name ++ codes ": ")
          (bytes h.value ++ codes "\r\n") in
      let size2 = length-append (text ++ line ++ bytes h.name) (codes ": ") in
      let size1 = length-append (text ++ line) (bytes h.name) in
      let w =
        write_status_once-StatusWritten env resp text s
          (omega (arith, total, size1, size2, size3)) in
      let a =
        write_pair-Adds env w.after h (text ++ line) w.spells nv vv
          (omega (arith, total, w.capacity)) in
      (
        a.after,
        >>=-ret _ _ (true, w.after) w.answer ∙ a.answer,
        subst (Spells a.after) spelt a.spells,
        a.headers ∙ ap (λ z. z ++ h ∷ []) w.headers,
        a.status_set ∙ w.status_set,
        Same-trans a.after w.after resp a.same w.same,
      )

  -- A header whose name is new, while the headers are not sent, there is room for one more, the
  -- status is set and the block holds the text: the answer is `true`, the header is kept, the flags
  -- of what is sent and asked for, the status and the room stay, and its
  -- line stands behind what was written, behind the status line if that was not written.
  pub write_header-Added :
      (resp : Response) (h : Header) (text : Bytes)
      → Spells resp text
      → resp.headers_sent ≡ false
      → length resp.headers < env.max_headers_count
      → New resp.headers h.name
      → eqb_ℤ resp.status_code (pos 0) ≡ false
      → IsView h.name
      → IsView h.value
      → length (text ++ added resp h) ≤ length resp.memory.ptr
      → Added resp h text (write_header env resp h)
  unfolding write_header
  write_header-Added resp h text s unsent few new status nv vv room =
      let (resp', answer, spelled, kept, line_set, same) =
        write_line-Added resp h text s nv vv room in
      (
        resp',
        if_false resp.headers_sent _ _ unsent
            ∙ if_false (leb env.max_headers_count (length resp.headers)) _ _ (lt→leb _ _ few)
            ∙ >>=-ret (already_added resp.headers h.name) _ false
                (already_added-New resp.headers h.name nv new)
            ∙ if_false (eqb_ℤ resp.status_code (pos 0)) _ _ status
            ∙ answer,
        spelled,
        kept,
        line_set,
        same,
      )
