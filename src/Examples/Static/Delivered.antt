-- ===== src/Examples/Static/Delivered.antt =====
-- The page that a program delivers.
use highway.Prelude.{
  ◌≤◌, ◌<◌, ◌≡◌, refl, sym, ap, ◌∙◌, Bool, true, false, ◌++◌, Bytes, codes, length, length-append,
  some, ret, >>=-ret, arith,
}
use mathlib.Core.Path.{subst}
use highway.Prelude.Int.{ℤ, pos, eqb_ℤ}
use highway.Text.{HiwString, IsView}
use highway.Number.{uitoc}
use highway.Memory.{reset}
use highway.Env.{Env, Laws}
use highway.Request.{Request}
use highway.Response.{Response, response_reset, set_status_code, status_text}
use highway.Response.Wire.{status_line}
use highway.Response.Wire.AddHeader.{added}
use highway.Response.Send.Block.{header_text}
use highway.Response.Send.Page.{
  whole_text, content_length_header, Blank, set_content_length-Prepared, length-whole_text,
  write_body_raw-Ready,
}
use highway.Response.Send.Typed.{content_type_header, typed_text, set_content_type-Typed}
use highway.Servlet.{Exchange}
use highway.Examples.Static.{respond}

-- The header block of a page.
abbrev pub page_headers : ℤ → HiwString → Bytes → Bool → Bytes
page_headers status mime digits close =
    whole_text
      ((codes "HTTP/1.1 " ++ status_text status)
        ++ header_text (content_length_header digits)
        ++ header_text (content_type_header mime))
      close

-- An exchange whose response is reset, and closes its connection or not.
abbrev pub asked : {C : Type 0} → Request → Response → Bool → C → Exchange C
asked req resp close c = record {
  request = req;
  response = record (response_reset resp) { connection_close = close };
  conn = c;
}

module _ (env : Env) (laws : Laws env) where
  open env use {Conn}
  open laws use {sent}

  abbrev given : Response → Bool → ℤ → Response
  given resp close status = record (response_reset resp) {
    connection_close = close;
    status_code = status;
  }

  given-Blank :
      (resp : Response) (close : Bool) (status : ℤ)
      → eqb_ℤ status (pos 0) ≡ false
      → Blank (given resp close status)
  unfolding response_reset reset
  given-Blank resp close status set = record {
    spells = record { inside = omega arith; spelled = refl };
    unsent = refl;
    status = set;
    length_unset = refl;
    no_connection = refl;
    no_headers = refl;
  }

  given-text :
      (resp : Response) (close : Bool) (status : ℤ) (digits : Bytes) (mime : HiwString)
      → typed_text (given resp close status) digits mime
        ≡ (codes "HTTP/1.1 " ++ status_text status)
          ++ header_text (content_length_header digits)
          ++ header_text (content_type_header mime)
  unfolding added status_line response_reset
  given-text resp close status digits mime = refl

  -- What an exchange has come to once it is answered.
  pub record Delivered (x x' : Exchange Conn) (close : Bool) (page : Bytes) : Type 0 where
    pub request : x'.request ≡ x.request
    pub marked : x'.response.headers_sent ≡ true
    pub nothing_left : x'.response.content_bytes_left ≡ pos 0
    pub closes : x'.response.connection_close ≡ close
    pub delivered : sent x'.conn ≡ sent x.conn ++ page

  -- A page is delivered behind its header block, in that order and once.
  pub respond-Delivered :
      (req : Request) (resp : Response) (close : Bool) (c c1 c2 : Conn) (status : ℤ)
      (mime : HiwString) (body digits : Bytes)
      → eqb_ℤ status (pos 0) ≡ false
      → IsView mime
      → 0 < length body
      → uitoc 10 (length body) ≡ some digits
      → 3 < env.max_headers_count
      → length (page_headers status mime digits close) ≤ length resp.memory.ptr
      → env.send c (page_headers status mime digits close)
        ≡ (some (length (page_headers status mime digits close)), c1)
      → env.send c1 body ≡ (some (length body), c2)
      → (x' : Exchange Conn) × (respond env (asked req resp close c) status mime body ≡ ret x')
        × Delivered
            (asked req resp close c)
            x'
            close
            (page_headers status mime digits close ++ body)
  unfolding respond set_status_code response_reset reset
  respond-Delivered req resp close c c1 c2 status mime body digits set v some_byte spelt few room
        takes takes' =
      let r0 = given resp close status in
      let text = given-text resp close status digits mime in
      let whole = ap (λ t. whole_text t close) text in
      let fits : length (whole_text (typed_text r0 digits mime) close) ≤ length resp.memory.ptr =
        subst (λ t. length t ≤ length resp.memory.ptr) (sym whole) room in
      let p =
        set_content_length-Prepared env r0 (length body) digits (given-Blank resp close status set)
          spelt (omega (arith, few))
          (omega (
            arith,
            fits,
            length-whole_text (added r0 (content_length_header digits)) close,
            length-whole_text (typed_text r0 digits mime) close,
            length-append (added r0 (content_length_header digits))
                (header_text (content_type_header mime)),
          )) in
      let t = set_content_type-Typed env r0 (length body) digits mime p v few fits in
      let block = t.text ∙ whole in
      let (resp', wrote, marked, left, closes, delivered) =
        write_body_raw-Ready env laws t.after (typed_text r0 digits mime) body c c1 c2 t.ready
          some_byte t.total t.left
          (subst (λ b. env.send c b ≡ (some (length b), c1)) (sym block) takes) takes' in
      (
        record { request = req; response = resp'; conn = c2 },
        >>=-ret _ _ (true, p.after) p.answer
            ∙ >>=-ret _ _ (true, t.after) t.answer
            ∙ >>=-ret _ _ (true, resp', c2) wrote,
        record {
          request = refl;
          marked = marked;
          nothing_left = left;
          closes = closes ∙ t.close;
          delivered = delivered ∙ ap (λ b. sent c ++ (b ++ body)) block;
        },
      )
