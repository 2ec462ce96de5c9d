-- ===== src/Response/Wire/Pair.antt =====
-- The name and the value of a header, as `hiw_response_write_header` writes them.
use mathlib.Core.Path.{subst}
use highway.Prelude.{
  if_true, >>=-ret, ◌≤◌, ◌≡◌, refl, ap, ◌∙◌, Bool, true, [], ◌∷◌, ◌++◌, Bytes, length,
  length-append, codes, Outcome, ret, arith, leb, le→leb,
}
use highway.Text.{HiwString, IsView, bytes}
use highway.Env.{Env}
use highway.Request.{Header}
use highway.Response.{write_value, write_pair, Response, or_error, load, write_raw}
use highway.Response.Wire.{Same, Same-trans, Spells, Wrote, write_raw-Wrote}

module _ (env : Env) where
  load-view : (s : HiwString) → IsView s → load s ≡ ret (bytes s)
  unfolding load
  load-view s v = if_true (leb s.length (length s.begin)) _ _ (le→leb _ _ v)

  -- A call that adds `h` and its text behind `resp`'s.
  pub record Adds (call : Outcome (Bool × Response)) (resp : Response) (h : Header) (text : Bytes)
      : Type 0 where
    pub after : Response
    pub answer : call ≡ ret (true, after)
    pub spells : Spells after text
    pub headers : after.headers ≡ resp.headers ++ h ∷ []
    pub status_set : after.status_code_set ≡ resp.status_code_set
    pub same : Same after resp

  -- A write before it.
  or_error-Adds :
      (call : Outcome (Bool × Response)) (resp : Response) (h : Header)
      (k : Response → Outcome (Bool × Response)) (text text' : Bytes)
      (first : Wrote env call resp text)
      → Adds (k first.after) first.after h text'
      → Adds (or_error call k) resp h text'
  or_error-Adds call resp h k text text' first second = record {
    after = second.after;
    answer = >>=-ret call _ (true, first.after) first.answer ∙ second.answer;
    spells = second.spells;
    headers = second.headers ∙ ap (λ z. z ++ h ∷ []) first.headers;
    status_set = second.status_set ∙ first.status_set;
    same = Same-trans second.after first.after resp second.same first.same;
  }

  respell :
      (call call' : Outcome (Bool × Response)) (resp : Response) (h : Header) (text text' : Bytes)
      → call' ≡ call
      → text ≡ text'
      → Adds call resp h text
      → Adds call' resp h text'
  respell call call' resp h text text' e e' a = record {
    after = a.after;
    answer = e ∙ a.answer;
    spells = subst (Spells a.after) e' a.spells;
    headers = a.headers;
    status_set = a.status_set;
    same = a.same;
  }

  write_value-Adds :
      (resp : Response) (h : Header) (text : Bytes)
      → Spells resp text
      → IsView h.value
      → length (text ++ (bytes h.value ++ codes "\r\n")) ≤ length resp.memory.ptr
      → Adds (write_value env resp h) resp h (text ++ (bytes h.value ++ codes "\r\n"))
  unfolding write_value
  write_value-Adds resp h text s v room =
      let w = write_raw-Wrote env resp (bytes h.value ++ codes "\r\n") text s room in
      record {
        after = record (w.after) { headers = w.after.headers ++ h ∷ [] };
        answer =
            >>=-ret _ _ (bytes h.value) (load-view h.value v)
            ∙ >>=-ret _ _ (true, w.after) w.answer;
        spells = record { inside = w.spells.inside; spelled = w.spells.spelled };
        headers = ap (λ z. z ++ h ∷ []) w.headers;
        status_set = w.status_set;
        same = record {
          capacity = w.same.capacity;
          sent = w.same.sent;
          status = w.same.status;
          close = w.same.close;
          close_set = w.same.close_set;
          length_set = w.same.length_set;
          total = w.same.total;
          left = w.same.left;
        };
      }

  pub write_pair-Adds :
      (resp : Response) (h : Header) (text : Bytes)
      → Spells resp text
      → IsView h.name
      → IsView h.value
      → length (text ++ bytes h.name ++ codes ": " ++ (bytes h.value ++ codes "\r\n"))
        ≤ length resp.memory.ptr
      → Adds
          (write_pair env resp h)
          resp
          h
          (text ++ bytes h.name ++ codes ": " ++ (bytes h.value ++ codes "\r\n"))
  unfolding write_pair
  write_pair-Adds resp h text s nv vv room =
      let sizes =
        length-append (text ++ bytes h.name ++ codes ": ") (bytes h.value ++ codes "\r\n") in
      let size = length-append (text ++ bytes h.name) (codes ": ") in
      let w1 = write_raw-Wrote env resp (bytes h.name) text s (omega (arith, sizes, size)) in
      respell _ _ resp h _ _ (>>=-ret _ _ (bytes h.name) (load-view h.name nv)) refl (
        or_error-Adds _ resp h _ (text ++ bytes h.name) _ w1
          (colon w1.after (text ++ bytes h.name) w1.spells (omega (arith, w1.capacity))))
    where
      colon :
          (r : Response) (t : Bytes)
          → Spells r t
          → length (t ++ codes ": " ++ (bytes h.value ++ codes "\r\n")) ≤ length r.memory.ptr
          → Adds
              (or_error (write_raw env r (codes ": ")) (λ r2. write_value env r2 h))
              r
              h
              (t ++ codes ": " ++ (bytes h.value ++ codes "\r\n"))
      colon r t s' fits =
          let sizes = length-append (t ++ codes ": ") (bytes h.value ++ codes "\r\n") in
          let w2 = write_raw-Wrote env r (codes ": ") t s' (omega (arith, sizes)) in
          or_error-Adds _ r h (λ r2. write_value env r2 h) (t ++ codes ": ") _ w2
            (write_value-Adds w2.after h (t ++ codes ": ") w2.spells vv
              (omega (arith, w2.capacity)))
