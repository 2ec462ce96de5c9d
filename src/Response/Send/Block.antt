-- ===== src/Response/Send/Block.antt =====
-- The header block that `hiw_response_flush_headers` completes and sends.
use highway.Prelude.{
  ◌+◌, ◌≤◌, ◌<◌, ◌≡◌, ◌≢◌, refl, sym, ap, ◌∙◌, Bool, true, false, [], ◌∷◌, ◌++◌, All-append, Bytes,
  codes, length, length-append, some, ret, >>=-ret, arith, if◌then◌else◌, if_true, if_false,
}
use mathlib.Core.Path.{subst}
use highway.Prelude.Int.{pos, eqb_ℤ}
use highway.Text.{IsView, bytes, string_const}
use highway.Memory.{size}
use highway.Env.{Env, Laws}
use highway.Client.{client_sendall}
use highway.Client.Delivery.{sendall_whole}
use highway.Request.{Header}
use highway.Response.{Response, write_header, set_content_length, set_connection_close}
use highway.Response.Wire.{Spells, status_line, Same, write_raw-Wrote}
use highway.Response.Wire.AddHeader.{New, added, write_header-Added}
use highway.Response.Send.{complete_headers, send_headers, flush_headers}

abbrev pub connection_header : Bool → Header
connection_header close = record {
  name = string_const (codes "Connection");
  value = if close then string_const (codes "close") else string_const (codes "keep-alive");
}

abbrev pub server_header : Header
server_header = record {
  name = string_const (codes "Server");
  value = string_const (codes "Highway 0.0.1");
}

-- The line of a header.
abbrev pub header_text : Header → Bytes
header_text h = bytes h.name ++ (codes ": " ++ (bytes h.value ++ codes "\r\n"))

-- What the block spells up to the connection header, and the whole of it.
abbrev pub connection_text : Response → Bytes → Bytes
connection_text resp text = text ++ added resp (connection_header resp.connection_close)

abbrev pub block_text : Response → Bytes → Bytes
block_text resp text = connection_text resp text ++ header_text server_header ++ codes "\r\n"

-- What a flush leaves as it is.
pub record Kept (after before : Response) : Type 0 where
  pub total : after.content_length ≡ before.content_length
  pub left : after.content_bytes_left ≡ before.content_bytes_left
  pub close : after.connection_close ≡ before.connection_close

connection_header-IsView : (close : Bool) → IsView (connection_header close).value
connection_header-IsView true = omega arith
connection_header-IsView false = omega arith

module _ (env : Env) where
  -- A response whose status and content length are set and that is not sent, with room for two more
  -- headers and their names new.
  pub record Ready (resp : Response) (text : Bytes) : Type 0 where
    pub spells : Spells resp text
    pub unsent : resp.headers_sent ≡ false
    pub status : eqb_ℤ resp.status_code (pos 0) ≡ false
    pub length_set : resp.content_length_set ≡ true
    pub no_connection : resp.connection_set ≡ false
    pub few : length resp.headers + 1 < env.max_headers_count
    pub new_connection : New resp.headers (string_const (codes "Connection"))
    pub new_server : New resp.headers (string_const (codes "Server"))
    pub room : length (block_text resp text) ≤ length resp.memory.ptr

  -- A response behind the connection header.
  record Connected (resp : Response) (text : Bytes) : Type 0 where
    after : Response
    answer : set_connection_close env resp resp.connection_close ≡ ret (true, after)
    spells : Spells after (connection_text resp text)
    same : Same after (record resp { connection_set = true })
    headers : after.headers ≡ resp.headers ++ connection_header resp.connection_close ∷ []
    status_set : after.status_code_set ≡ true

  set_connection_close-Connected :
      (resp : Response) (text : Bytes) → Ready resp text → Connected resp text
  unfolding set_connection_close
  set_connection_close-Connected resp text r =
      let h = connection_header resp.connection_close in
      let size1 =
        length-append (connection_text resp text ++ header_text server_header) (codes "\r\n") in
      let size2 = length-append (connection_text resp text) (header_text server_header) in
      let (r1, answer, spells, headers, set, same) =
        write_header-Added env resp h text r.spells r.unsent (omega (arith, r.few)) r.new_connection
          r.status (omega arith) (connection_header-IsView resp.connection_close)
          (omega (arith, r.room, size1, size2)) in
      record {
        after = record r1 { connection_set = true; connection_close = resp.connection_close };
        answer = if_false resp.connection_set _ _ r.no_connection ∙ >>=-ret _ _ (true, r1) answer;
        spells = record { inside = spells.inside; spelled = spells.spelled };
        same = record {
          capacity = same.capacity;
          sent = same.sent;
          status = same.status;
          close = refl;
          close_set = refl;
          length_set = same.length_set;
          total = same.total;
          left = same.left;
        };
        headers = headers;
        status_set = set;
      }

  -- The server header behind it.
  server-Added :
      (resp : Response) (text : Bytes) (r : Ready resp text) (c : Connected resp text)
      → (r3 : Response) × (write_header env c.after server_header ≡ ret (true, r3))
        × Spells r3 (connection_text resp text ++ header_text server_header)
        × (length r3.memory.ptr ≡ length resp.memory.ptr)
        × Kept r3 resp
  unfolding added status_line New
  server-Added resp text r c =
      let size1 =
        length-append (connection_text resp text ++ header_text server_header) (codes "\r\n") in
      let size2 = length-append resp.headers (connection_header resp.connection_close ∷ []) in
      let line_once : connection_text resp text ++ added c.after server_header
          ≡ connection_text resp text ++ header_text server_header =
        ap (λ line. connection_text resp text ++ (line ++ header_text server_header))
          (if_true c.after.status_code_set _ _ c.status_set) in
      let new_server : New c.after.headers server_header.name =
        subst (λ hs. New hs server_header.name) (sym c.headers)
          (All-append (λ h. IsView h.name × (bytes h.name ≢ bytes server_header.name)) resp.headers
            (connection_header resp.connection_close ∷ []) r.new_server
            ((omega arith, λ e. cc), tt)) in
      let (r3, answer, spells, headers, set, same) =
        write_header-Added env c.after server_header (connection_text resp text) c.spells
          (c.same.sent ∙ r.unsent) (omega (arith, r.few, ap length c.headers, size2)) new_server
          (ap (λ s. eqb_ℤ s (pos 0)) c.same.status ∙ r.status) (omega arith) (omega arith)
          (omega (arith, r.room, c.same.capacity, ap length line_once, size1)) in
      (
        r3,
        answer,
        subst (Spells r3) line_once spells,
        same.capacity ∙ c.same.capacity,
        record {
          total = same.total ∙ c.same.total;
          left = same.left ∙ c.same.left;
          close = same.close ∙ c.same.close;
        },
      )

  complete_headers-Spells :
      (resp : Response) (text : Bytes)
      → Ready resp text
      → (r4 : Response) × (complete_headers env resp ≡ ret (true, r4))
        × Spells r4 (block_text resp text)
        × Kept r4 resp
  unfolding complete_headers set_content_length
  complete_headers-Spells resp text r =
      let c = set_connection_close-Connected resp text r in
      let (r3, answer, spells, capacity, kept) = server-Added resp text r c in
      let w =
        write_raw-Wrote env r3 (codes "\r\n")
          (connection_text resp text ++ header_text server_header) spells
          (omega (arith, r.room, capacity)) in
      (
        w.after,
        >>=-ret _ _ (true, resp) (if_true resp.content_length_set _ _ r.length_set)
            ∙ >>=-ret _ _ (true, c.after) c.answer
            ∙ >>=-ret _ _ (true, r3) answer
            ∙ >>=-ret _ _ (true, w.after) w.answer,
        w.spells,
        record {
          total = w.same.total ∙ kept.total;
          left = w.same.left ∙ kept.left;
          close = w.same.close ∙ kept.close;
        },
      )

module _ (env : Env) (laws : Laws env) where
  open laws use {sent}

  -- The flush of a response whose status and content length are set and that is not sent delivers what was written before,
  -- the status line if that was not written, the connection header that the response asks for, the
  -- server header and an empty line, in that order and once, marks the headers as sent, and leaves the
  -- content length, what is left of it, and whether the connection closes as they are, if one
  -- send takes all of it, two more headers fit, their names are new, and the block has the room.
  pub flush_headers-Ready :
      (resp : Response) (text : Bytes) (c c' : env.Conn)
      → Ready env resp text
      → env.send c (block_text resp text) ≡ (some (length (block_text resp text)), c')
      → (resp' : Response) × (flush_headers env resp c ≡ ret (true, resp', c'))
        × (resp'.headers_sent ≡ true)
        × Kept resp' resp
        × (sent c' ≡ sent c ++ block_text resp text)
  unfolding flush_headers send_headers size
  flush_headers-Ready resp text c c' r taken =
      let (r4, completed, spells, kept) = complete_headers-Spells env resp text r in
      let size1 =
        length-append (connection_text resp text ++ header_text server_header) (codes "\r\n") in
      let (delivers, arrived) =
        sendall_whole env laws c (block_text resp text) c' (omega (arith, size1)) taken in
      (
        record r4 { headers_sent = true },
        if_false resp.headers_sent _ _ r.unsent
            ∙ if_false (eqb_ℤ resp.status_code (pos 0)) _ _ r.status
            ∙ >>=-ret _ _ (true, r4) completed
            ∙ >>=-ret _ _ (true, c') (ap (client_sendall env c) spells.spelled ∙ delivers),
        refl,
        record { total = kept.total; left = kept.left; close = kept.close },
        arrived,
      )
