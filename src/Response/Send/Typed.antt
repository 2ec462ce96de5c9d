-- ===== src/Response/Send/Typed.antt =====
-- A response with a content length and a content type.
use highway.Prelude.{
  ℕ, ◌+◌, ◌≤◌, ◌<◌, ◌≡◌, sym, ap, ◌∙◌, true, List, [], ◌∷◌, ◌++◌, Bytes, codes, length, ret, arith,
  if_true,
}
use mathlib.Core.Path.{subst}
use highway.Prelude.Int.{pos, eqb_ℤ}
use highway.Text.{HiwString, IsView, string_const}
use highway.Env.{Env}
use highway.Request.{Header}
use highway.Response.{Response, set_content_type}
use highway.Response.Wire.{Spells, Same}
use highway.Response.Wire.AddHeader.{New, added, write_header-Added}
use highway.Response.Send.Block.{Ready, block_text, header_text}
use highway.Response.Send.Page.{
  whole_text, block_text-whole, content_length_header, Prepared, length-whole_text,
}

abbrev pub content_type_header : HiwString → Header
content_type_header mime = record { name = string_const (codes "Content-Type"); value = mime }

-- What is written up to the content type.
abbrev pub typed_text : Response → Bytes → HiwString → Bytes
typed_text resp digits mime =
    added resp (content_length_header digits) ++ header_text (content_type_header mime)

module _ (env : Env) where
  pub record Typed (resp : Response) (n : ℕ) (digits : Bytes) (mime : HiwString)
      (p : Prepared env resp n digits) : Type 0 where
    pub after : Response
    pub answer : set_content_type env p.after mime ≡ ret (true, after)
    pub ready : Ready env after (typed_text resp digits mime)
    pub text :
        block_text after (typed_text resp digits mime)
        ≡ whole_text (typed_text resp digits mime) resp.connection_close
    pub total : after.content_length ≡ pos n
    pub left : after.content_bytes_left ≡ pos n
    pub close : after.connection_close ≡ resp.connection_close

  -- The response behind the content type.
  record Follows (resp : Response) (digits : Bytes) (mime : HiwString) (before : Response)
      : Type 0 where
    after : Response
    answer : set_content_type env before mime ≡ ret (true, after)
    spells : Spells after (typed_text resp digits mime)
    both : after.headers ≡ content_length_header digits ∷ content_type_header mime ∷ []
    line_set : after.status_code_set ≡ true
    same : Same after before

  -- The line of the content type.
  line_once :
      (before : Response) (text : Bytes) (h : Header)
      → before.status_code_set ≡ true
      → text ++ added before h ≡ text ++ header_text h
  unfolding added
  line_once before text h set =
      ap (λ line. text ++ (line ++ header_text h)) (if_true before.status_code_set _ _ set)

  set_content_type-Follows :
      (resp before : Response) (digits : Bytes) (mime : HiwString)
      → Ready env before (added resp (content_length_header digits))
      → before.headers ≡ content_length_header digits ∷ []
      → before.status_code_set ≡ true
      → IsView mime
      → 3 < env.max_headers_count
      → length (typed_text resp digits mime) ≤ length before.memory.ptr
      → Follows resp digits mime before
  unfolding set_content_type New
  set_content_type-Follows resp before digits mime ready only set v few room =
      let h = content_type_header mime in
      let text1 = added resp (content_length_header digits) in
      let once = line_once before text1 h set in
      let (r, answer, spells, headers, set', same) =
        write_header-Added env before h text1 ready.spells ready.unsent
          (omega (arith, ap length only, few))
          (subst (λ hs. New hs h.name) (sym only) ((omega arith, λ e. cc), tt)) ready.status
          (omega arith) v (omega (arith, ap length once, room)) in
      record {
        after = r;
        answer = answer;
        spells = subst (Spells r) once spells;
        both = headers ∙ ap (λ hs. hs ++ h ∷ []) only;
        line_set = set';
        same = same;
      }

  -- Only the names of the headers matter.
  not_held :
      (digits : Bytes) (mime : HiwString) (headers : List Header)
      → headers ≡ content_length_header digits ∷ content_type_header mime ∷ []
      → New headers (string_const (codes "Connection"))
        × New headers (string_const (codes "Server"))
  unfolding New
  not_held digits mime headers both = (
    subst (λ hs. New hs (string_const (codes "Connection"))) (sym both)
        ((omega arith, λ e. cc), ((omega arith, λ e. cc), tt)),
    subst (λ hs. New hs (string_const (codes "Server"))) (sym both)
        ((omega arith, λ e. cc), ((omega arith, λ e. cc), tt)),
  )

  pub set_content_type-Typed :
      (resp : Response) (n : ℕ) (digits : Bytes) (mime : HiwString) (p : Prepared env resp n digits)
      → IsView mime
      → 3 < env.max_headers_count
      → length (whole_text (typed_text resp digits mime) resp.connection_close)
        ≤ length resp.memory.ptr
      → Typed resp n digits mime p
  set_content_type-Typed resp n digits mime p v few room =
      let text = typed_text resp digits mime in
      let f =
        set_content_type-Follows resp p.after digits mime p.ready p.only p.line_set v few
          (omega (arith, length-whole_text text resp.connection_close, room, p.room)) in
      typed resp n digits mime p f (not_held digits mime f.after.headers f.both)
        (block_text-whole f.after text f.line_set ∙ ap (whole_text text) (f.same.close ∙ p.close))
        (omega (arith, ap length f.both, few))
        (subst (λ k. length (whole_text text resp.connection_close) ≤ k)
          (sym (f.same.capacity ∙ p.room)) room)
    where
      typed :
          (resp : Response) (n : ℕ) (digits : Bytes) (mime : HiwString)
          (p : Prepared env resp n digits) (f : Follows resp digits mime p.after)
          → New f.after.headers (string_const (codes "Connection"))
            × New f.after.headers (string_const (codes "Server"))
          → block_text f.after (typed_text resp digits mime)
            ≡ whole_text (typed_text resp digits mime) resp.connection_close
          → length f.after.headers + 1 < env.max_headers_count
          → length (whole_text (typed_text resp digits mime) resp.connection_close)
            ≤ length f.after.memory.ptr
          → Typed resp n digits mime p
      typed resp n digits mime p f (new, new') whole few' fits = record {
        after = f.after;
        answer = f.answer;
        ready = record {
          spells = f.spells;
          unsent = f.same.sent ∙ p.ready.unsent;
          status = ap (λ s. eqb_ℤ s (pos 0)) f.same.status ∙ p.ready.status;
          length_set = f.same.length_set ∙ p.ready.length_set;
          no_connection = f.same.close_set ∙ p.ready.no_connection;
          few = few';
          new_connection = new;
          new_server = new';
          room = subst (λ t. length t ≤ length f.after.memory.ptr) (sym whole) fits;
        };
        text = whole;
        total = f.same.total ∙ p.total;
        left = f.same.left ∙ p.left;
        close = f.same.close ∙ p.close;
      }
