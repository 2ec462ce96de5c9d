-- ===== src/Tests/Responses.antt =====
-- Headers that are added to a response, and one that is refused.
use highway.Response.Send.Body.{write_body_raw-counts, write_body_raw-overshoots}
use highway.Response.Send.{flush_headers, write_body_raw}
use highway.Response.Send.Block.{Kept, Ready, block_text, flush_headers-Ready}
use highway.Prelude.{ℕ, true, ◌≡◌, refl, [], ret, arith, codes}
use highway.Prelude.Int.{◌-ℤ◌, pos}
use highway.Text.{string_const}
use highway.Request.{Header}
use highway.Response.{Response, response_init, write_header}
use highway.Response.Wire.{status_line}
use highway.Response.Wire.AddHeader.{New, Added, added, write_header-Added}
use highway.Tests.Line.{Line, line_laws, line_env}
use highway.Tests.Requests.{start, zeros}

abbrev ready : Response
ready = record (response_init (zeros 60)) { status_code = pos 200 }

abbrev host : Header
host = record { name = string_const (codes "Host"); value = string_const (codes "a.b") }

write_header-Added_example : Added line_env ready host [] (write_header line_env ready host)
unfolding response_init added status_line New
write_header-Added_example =
    write_header-Added line_env ready host [] (record { inside = omega arith; spelled = refl }) refl
      (omega arith) tt refl (omega arith) (omega arith) (omega arith)

-- The headers are sent, with a content length of 5.
abbrev sending : ℕ → Response
sending left = record (response_init (zeros 4)) {
  headers_sent = true;
  content_length = pos 5;
  content_bytes_left = pos left;
}

abbrev sent_abc : Line
sent_abc = record start.conn { taken = codes "abc" }

write_body_raw-counts_example :
    (write_body_raw line_env (sending 5) start.conn (codes "abc")
      ≡ ret (true, record (sending 5) { content_bytes_left = pos 5 -ℤ pos 3 }, sent_abc))
    × (codes "abc" ≡ codes "abc")
unfolding line_laws response_init
write_body_raw-counts_example =
    write_body_raw-counts line_env line_laws (sending 5) start.conn sent_abc (codes "abc") 4
      (record { total = 4; headers = refl; content_length = refl; bytes_left = refl }) (omega arith)
      refl

write_body_raw-overshoots_example :
    (write_body_raw line_env (sending 0) start.conn (codes "abc") ≡ ret (true, sending 0, sent_abc))
    × (codes "abc" ≡ codes "abc")
unfolding line_laws response_init
write_body_raw-overshoots_example =
    write_body_raw-overshoots line_env line_laws (sending 0) start.conn sent_abc (codes "abc")
      (record { total = 4; headers = refl; content_length = refl; bytes_left = refl }) (omega arith)
      refl

-- The status and the content length are set, and nothing is written.
abbrev answered : Response
answered = record (response_init (zeros 100)) { status_code = pos 200; content_length_set = true }

answered-Ready : Ready line_env answered []
unfolding response_init added status_line New
answered-Ready = record {
  spells = record { inside = omega arith; spelled = refl };
  unsent = refl;
  status = refl;
  length_set = refl;
  no_connection = refl;
  few = omega arith;
  new_connection = tt;
  new_server = tt;
  room = omega arith;
}

flush_headers-Ready_example :
    (resp' : Response) × (flush_headers line_env answered start.conn
      ≡ ret (true, resp', record start.conn { taken = block_text answered [] }))
    × (resp'.headers_sent ≡ true)
    × Kept resp' answered
    × (block_text answered [] ≡ block_text answered [])
unfolding line_laws added status_line response_init
flush_headers-Ready_example =
    flush_headers-Ready line_env line_laws answered [] start.conn
      (record start.conn { taken = block_text answered [] }) answered-Ready refl
