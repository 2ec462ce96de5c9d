-- ===== src/Tests/Requests.antt =====
-- A request that is read, answered and followed by another, and the filters.
use highway.Request.StatusLine.{parse_status_line-join}
use highway.Request.Headers.Ending.{LeavesReadAhead, read_headers-Ends}
use highway.Prelude.{true, Ends, arith, ℕ, zero, suc, ◌≡◌, refl, [], ◌∷◌, Bytes, codes, ret}
use highway.Request.{parse_status_line, request_init}
use highway.Response.{response_init}
use highway.Servlet.{Exchange}
use highway.Tests.Line.{line_laws, Line, line_env}
use highway.Request.Headers.{read_headers}
use highway.Text.{string_set, isspace}

abbrev pub zeros : ℕ → Bytes
zeros zero = []
zeros (suc n) = 0 ∷ zeros n

abbrev pub start : Exchange Line
start = record {
  request = request_init (zeros 64);
  response = response_init (zeros 100);
  conn = record {
    quotas = [];
    taken = [];
    inbox = codes "GET / HTTP/1.1\r\nConnection: on\r\n\r\n";
  };
}

read_headers-Ends_example :
    Ends (LeavesReadAhead Line) (read_headers line_env start.conn (request_init (zeros 64)))
unfolding request_init
read_headers-Ends_example =
    read_headers-Ends line_env line_laws start.conn (request_init (zeros 64))
      (record { inside = omega arith }) refl (omega arith)

parse_status_line-join_example :
    parse_status_line (request_init (zeros 4)) (string_set (codes "GET /a HTTP/1.1\r\nHost") 16)
    ≡ ret (
      true,
      record (request_init (zeros 4)) {
        method = string_set (codes "GET /a HTTP/1.1\r\nHost") 3;
        uri = string_set (codes "/a HTTP/1.1\r\nHost") 2;
      },
    )
unfolding isspace
parse_status_line-join_example =
    parse_status_line-join (request_init (zeros 4)) (codes "GET") (codes "/a") (codes "\nHost")
      (ground arith) (ground arith) refl refl
