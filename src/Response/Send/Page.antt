-- ===== src/Response/Send/Page.antt =====
-- A response whose body is written at once: the header block and the body behind it.
use highway.Prelude.{
  ℕ, suc, ◌+◌, ◌≤◌, ◌<◌, ◌≡◌, refl, sym, ap, ◌∙◌, Bool, true, false, [], ◌∷◌, ◌++◌, append_assoc,
  Bytes, codes, length, length-append, some, ret, >>=-ret, access, arith, ltb, lt→leb, le→ltb,
  if_true, if_false,
}
use mathlib.Core.Path.{subst}
use highway.Prelude.Int.{pos, eqb_ℤ, leb_ℤ, ◌-ℤ◌, -ℤ_parts}
use highway.Text.{string_const}
use highway.Number.{uitoc}
use highway.Env.{Env, Laws}
use highway.Request.{Header}
use highway.Response.{Response, set_content_length, to_uint}
use highway.Response.Wire.{Spells, status_line}
use highway.Response.Wire.AddHeader.{New, added, write_header-Added}
use highway.Response.Send.{flush_headers, write_body_raw}
use highway.Response.Send.Block.{
  Ready, block_text, connection_header, server_header, header_text, flush_headers-Ready,
}
use highway.Response.Send.Body.{write_body_raw-counts}

minus_itself : (n : ℕ) → pos n -ℤ pos n ≡ pos 0
minus_itself n = ground (arith, -ℤ_parts (pos n) (pos n))

module _ (env : Env) (laws : Laws env) where
  open laws use {sent}

  flushed_first :
      (resp r3 : Response) (c c1 : env.Conn) (body : Bytes) (n : ℕ)
      → resp.headers_sent ≡ false
      → resp.content_length ≡ pos (suc n)
      → flush_headers env resp c ≡ ret (true, r3, c1)
      → r3.headers_sent ≡ true
      → write_body_raw env resp c body ≡ write_body_raw env r3 c1 body
  unfolding write_body_raw
  flushed_first resp r3 c c1 body n unsent len flushes marked =
      if_false resp.headers_sent _ _ unsent
      ∙ if_false (leb_ℤ resp.content_length (pos 0)) _ _
          (ap (λ z. leb_ℤ z (pos 0)) len ∙ lt→leb (suc n + 0) (0 + 0) (omega arith))
      ∙ >>=-ret _ _ (true, r3, c1) flushes
      ∙ sym (if_true r3.headers_sent _ _ marked)

  -- The first body of a response that is ready for its flush and that is as long as the content
  -- length says delivers the header block and that body, in that order and once, and leaves nothing
  -- to come, if one send takes each of them.
  pub write_body_raw-Ready :
      (resp : Response) (text body : Bytes) (c c1 c2 : env.Conn)
      → Ready env resp text
      → 0 < length body
      → resp.content_length ≡ pos (length body)
      → resp.content_bytes_left ≡ pos (length body)
      → env.send c (block_text resp text) ≡ (some (length (block_text resp text)), c1)
      → env.send c1 body ≡ (some (length body), c2)
      → (resp' : Response) × (write_body_raw env resp c body ≡ ret (true, resp', c2))
        × (resp'.headers_sent ≡ true)
        × (resp'.content_bytes_left ≡ pos 0)
        × (resp'.connection_close ≡ resp.connection_close)
        × (sent c2 ≡ sent c ++ (block_text resp text ++ body))
  write_body_raw-Ready resp text [] c c1 c2 r some_byte len left takes takes' = absurd (omega arith)
  write_body_raw-Ready resp text (b ∷ body) c c1 c2 r some_byte len left takes takes' =
      let n = length body in
      let (r3, flushes, marked, kept, delivered) =
        flush_headers-Ready env laws resp text c c1 r takes in
      let (answer, delivered') =
        write_body_raw-counts env laws r3 c1 c2 (b ∷ body) n
          (record {
            total = n;
            headers = marked;
            content_length = kept.total ∙ len;
            bytes_left = kept.left ∙ left;
          })
          some_byte takes' in
      (
        record r3 { content_bytes_left = pos (suc n) -ℤ pos (suc n) },
        flushed_first resp r3 c c1 (b ∷ body) n r.unsent len flushes marked
            ∙ answer
            ∙ if_false (ltb (suc n) (suc n)) _ _ (le→ltb _ _ (omega arith)),
        marked,
        minus_itself (suc n),
        kept.close,
        delivered'
            ∙ ap (λ t. t ++ b ∷ body) delivered
            ∙ append_assoc (sent c) (block_text resp text) (b ∷ body),
      )

-- The header block of a response whose status line is written, behind what is written.
abbrev pub whole_text : Bytes → Bool → Bytes
whole_text text close =
    text ++ header_text (connection_header close) ++ header_text server_header ++ codes "\r\n"

pub block_text-whole :
    (resp : Response) (text : Bytes)
    → resp.status_code_set ≡ true
    → block_text resp text ≡ whole_text text resp.connection_close
unfolding added status_line
block_text-whole resp text set =
    ap
      (λ line.
        text
        ++ (line ++ header_text (connection_header resp.connection_close))
        ++ header_text server_header
        ++ codes "\r\n")
      (if_true resp.status_code_set _ _ set)

abbrev pub content_length_header : Bytes → Header
content_length_header digits = record {
  name = string_const (codes "Content-Length");
  value = string_const digits;
}

-- A response to which nothing is added yet, with its status.
pub record Blank (resp : Response) : Type 0 where
  pub spells : Spells resp []
  pub unsent : resp.headers_sent ≡ false
  pub status : eqb_ℤ resp.status_code (pos 0) ≡ false
  pub length_unset : resp.content_length_set ≡ false
  pub no_connection : resp.connection_set ≡ false
  pub no_headers : resp.headers ≡ []

module _ (env : Env) where
  -- What it takes a blank response to be ready for its flush.
  pub record Prepared (resp : Response) (n : ℕ) (digits : Bytes) : Type 0 where
    pub after : Response
    pub answer : set_content_length env resp (pos n) ≡ ret (true, after)
    pub ready : Ready env after (added resp (content_length_header digits))
    pub text :
        block_text after (added resp (content_length_header digits))
        ≡ whole_text (added resp (content_length_header digits)) resp.connection_close
    pub total : after.content_length ≡ pos n
    pub left : after.content_bytes_left ≡ pos n
    pub close : after.connection_close ≡ resp.connection_close
    pub only : after.headers ≡ content_length_header digits ∷ []
    pub line_set : after.status_code_set ≡ true
    pub room : length after.memory.ptr ≡ length resp.memory.ptr

  pub set_content_length-Prepared :
      (resp : Response) (n : ℕ) (digits : Bytes)
      → Blank resp
      → uitoc 10 n ≡ some digits
      → 2 < env.max_headers_count
      → length (whole_text (added resp (content_length_header digits)) resp.connection_close)
        ≤ length resp.memory.ptr
      → Prepared resp n digits
  unfolding set_content_length to_uint New
  set_content_length-Prepared resp n digits b spelt few room =
      let h = content_length_header digits in
      let text = added resp h in
      let size1 =
        length-append
          (text
            ++ header_text (connection_header resp.connection_close)
            ++ header_text server_header)
          (codes "\r\n") in
      let size2 =
        length-append (text ++ header_text (connection_header resp.connection_close))
          (header_text server_header) in
      let size3 = length-append text (header_text (connection_header resp.connection_close)) in
      let (r1, answer, spells, headers, set, same) =
        write_header-Added env resp h [] b.spells b.unsent
          (omega (arith, ap length b.no_headers, few))
          (subst (λ hs. New hs h.name) (sym b.no_headers) tt) b.status (omega arith) (omega arith)
          (omega (arith, room, size1, size2, size3)) in
      let after : Response = record r1 {
        content_length = pos n;
        content_bytes_left = pos n;
        content_length_set = true;
      } in
      let only : after.headers ≡ h ∷ [] = headers ∙ ap (λ hs. hs ++ h ∷ []) b.no_headers in
      let whole : block_text after text ≡ whole_text text resp.connection_close =
        block_text-whole after text set ∙ ap (whole_text text) same.close in
      record {
        after = after;
        answer =
            if_false resp.content_length_set _ _ b.length_unset
            ∙ >>=-ret _ _ digits (ap access spelt)
            ∙ >>=-ret _ _ (true, r1) answer;
        ready = record {
          spells = record { inside = spells.inside; spelled = spells.spelled };
          unsent = same.sent ∙ b.unsent;
          status = ap (λ s. eqb_ℤ s (pos 0)) same.status ∙ b.status;
          length_set = refl;
          no_connection = same.close_set ∙ b.no_connection;
          few = omega (arith, ap length only, few);
          new_connection =
              subst (λ hs. New hs (string_const (codes "Connection"))) (sym only)
                ((omega arith, λ e. cc), tt);
          new_server =
              subst (λ hs. New hs (string_const (codes "Server"))) (sym only)
                ((omega arith, λ e. cc), tt);
          room = omega (arith, ap length whole, room, same.capacity);
        };
        text = whole;
        total = refl;
        left = refl;
        close = same.close;
        only = only;
        line_set = set;
        room = same.capacity;
      }

pub length-whole_text :
    (text : Bytes) (close : Bool)
    → length (whole_text text close) ≡ length text + length (whole_text [] close)
length-whole_text text close = omega (
  arith,
  length-append (text ++ header_text (connection_header close) ++ header_text server_header)
      (codes "\r\n"),
  length-append (text ++ header_text (connection_header close)) (header_text server_header),
  length-append text (header_text (connection_header close)),
  length-append (header_text (connection_header close) ++ header_text server_header) (codes "\r\n"),
  length-append (header_text (connection_header close)) (header_text server_header),
)
