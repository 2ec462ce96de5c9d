-- ===== src/Examples/Hello.antt =====
-- A request that the program of examples/hello_world/main.c answers.
use highway.Prelude.{
  ◌≤◌, ◌<◌, ◌≡◌, refl, sym, ap, ◌∙◌, Bool, true, false, List, [], ◌∷◌, ◌++◌, All, Bytes, codes,
  length, some, ret, >>=-ret, arith, if◌then◌else◌,
}
use mathlib.Core.Path.{subst}
use highway.Prelude.Int.{pos, ltb_ℤ}
use highway.Number.{uitoc}
use highway.Memory.{reset}
use highway.Env.{Env, Laws}
use highway.Request.{Request, request_reset}
use highway.Request.Headers.OneLine.{WellFormed}
use highway.Request.Headers.Fields.{close_of, length_of}
use highway.Request.Headers.Chunk.{IsWord, request_text}
use highway.Request.Headers.RoundTrip.{read_headers-Holds}
use highway.Response.{Response, response_reset, set_status_code}
use highway.Response.Wire.{status_line}
use highway.Response.Wire.AddHeader.{added}
use highway.Response.Send.Page.{
  whole_text, content_length_header, Blank, set_content_length-Prepared, write_body_raw-Ready,
}
use highway.Servlet.{Exchange, dispatch, chain_next, call_servlet, serve_request}
use highway.Servlet.Answered.{verdict_of, serve_request-Answered}
use highway.Examples.{hello_world_servlet, hello_world_filter}

-- The header block that the program sends.
abbrev pub hello_headers : Bool → Bytes
hello_headers close =
    codes "HTTP/1.1 200 OK\r\nContent-Length: 12\r\n"
    ++ (if close then codes "Connection: close\r\n" else codes "Connection: keep-alive\r\n")
    ++ codes "Server: Highway 0.0.1\r\n\r\n"

module _ (env : Env) (laws : Laws env) where
  open env use {Conn}
  open laws use {sent}

  -- What the servlet function works on.
  abbrev given : Response → Bool → Response
  given resp close = record (response_reset resp) {
    connection_close = close;
    status_code = pos 200;
  }

  given-Blank : (resp : Response) (close : Bool) → Blank (given resp close)
  unfolding response_reset reset
  given-Blank resp close = record {
    spells = record { inside = omega arith; spelled = refl };
    unsent = refl;
    status = refl;
    length_unset = refl;
    no_connection = refl;
    no_headers = refl;
  }

  given-text :
      (resp : Response) (close : Bool)
      → whole_text (added (given resp close) (content_length_header (codes "12"))) close
        ≡ hello_headers close
  unfolding added status_line response_reset reset
  given-text resp true = refl
  given-text resp false = refl

  -- What an exchange has come to once it is answered.
  record Answered (x x' : Exchange Conn) (close : Bool) : Type 0 where
    request : x'.request ≡ x.request
    marked : x'.response.headers_sent ≡ true
    nothing_left : x'.response.content_bytes_left ≡ pos 0
    closes : x'.response.connection_close ≡ close
    delivered : sent x'.conn ≡ sent x.conn ++ (hello_headers close ++ codes "Hello World!")

  hello_world_servlet-Answered :
      (req : Request) (resp : Response) (close : Bool) (c c1 c2 : Conn)
      → 2 < env.max_headers_count
      → length (hello_headers close) ≤ length resp.memory.ptr
      → env.send c (hello_headers close) ≡ (some (length (hello_headers close)), c1)
      → env.send c1 (codes "Hello World!") ≡ (some 12, c2)
      → let x : Exchange Conn = record {
        request = req;
        response = record (response_reset resp) { connection_close = close };
        conn = c;
      } in
        (x' : Exchange Conn) × (hello_world_servlet env x ≡ ret x') × Answered x x' close
  unfolding hello_world_servlet set_status_code response_reset reset uitoc
  hello_world_servlet-Answered req resp close c c1 c2 few room takes takes' =
      let p =
        set_content_length-Prepared env (given resp close) 12 (codes "12") (given-Blank resp close)
          refl few (omega (arith, room, ap length (given-text resp close))) in
      let text = p.text ∙ given-text resp close in
      let (resp', wrote, marked, left, closes, delivered) =
        write_body_raw-Ready env laws p.after
          (added (given resp close) (content_length_header (codes "12"))) (codes "Hello World!") c
          c1 c2 p.ready (omega arith) p.total p.left
          (subst (λ t. env.send c t ≡ (some (length t), c1)) (sym text) takes) takes' in
      (
        record { request = req; response = resp'; conn = c2 },
        >>=-ret _ _ (true, p.after) p.answer ∙ >>=-ret _ _ (true, resp', c2) wrote,
        record {
          request = refl;
          marked = marked;
          nothing_left = left;
          closes = closes ∙ p.close;
          delivered = delivered ∙ ap (λ t. sent c ++ (t ++ codes "Hello World!")) text;
        },
      )

  -- A request without a body that comes in one chunk is read, and answered with the greeting behind
  -- its header block, in that order and once, whatever was sent before; the connection is kept for
  -- another request if the request's headers ask for that, and the answer says which. The request
  -- is as in `read_headers-Holds`, the response's memory has the room, and one send takes the header
  -- block and one the greeting.
  pub serve_request-hello :
      (x : Exchange Conn) (c0 c1 c2 : Conn) (method uri : Bytes) (fields : List (Bytes × Bytes))
      → env.max_header_size ≤ length x.request.memory.ptr
      → IsWord method
      → IsWord uri
      → All WellFormed fields
      → length fields ≤ env.max_headers_count
      → length (request_text method uri fields []) < env.max_header_size
      → env.recv x.conn env.max_header_size ≡ (some (request_text method uri fields []), c0)
      → let close = close_of true fields in
        ltb_ℤ (pos 0) (length_of (request_reset x.request).content_length fields) ≡ false
        → 2 < env.max_headers_count
        → length (hello_headers close) ≤ length x.response.memory.ptr
        → env.send c0 (hello_headers close) ≡ (some (length (hello_headers close)), c1)
        → env.send c1 (codes "Hello World!") ≡ (some 12, c2)
        → (x' : Exchange Conn) × (serve_request env
              (some (hello_world_filter env ∷ []))
              (some (hello_world_servlet env))
              x
            ≡ ret (verdict_of close, x'))
          × (sent x'.conn ≡ sent x.conn ++ (hello_headers close ++ codes "Hello World!"))
  unfolding request_reset reset dispatch chain_next call_servlet hello_world_filter
  serve_request-hello x c0 c1 c2 method uri fields room m u well few short r no_body few' room'
        takes takes' =
      let close = close_of true fields in
      let (req, read, holds) =
        read_headers-Holds env x.conn c0 (request_reset x.request) method uri fields [] refl room m
          u well few short r in
      let (x', served, a) =
        hello_world_servlet-Answered req x.response close c0 c1 c2 few' room' takes takes' in
      let closes : ◌≡◌ {A = Exchange Conn}
          (record {
            request = req;
            response = record (response_reset x.response) {
              connection_close = req.connection_close;
            };
            conn = c0;
          })
          (record {
            request = req;
            response = record (response_reset x.response) { connection_close = close };
            conn = c0;
          }) =
        ap
          (λ b. record {
            request = req;
            response = record (response_reset x.response) { connection_close = b };
            conn = c0;
          })
          holds.close in
      (
        x',
        serve_request-Answered env (some (hello_world_filter env ∷ []))
            (some (hello_world_servlet env)) x x' req c0 close read
            (ap (hello_world_servlet env) closes ∙ served)
            (ap (λ q. ltb_ℤ (pos 0) q.content_length_remaining) a.request
              ∙ ap (ltb_ℤ (pos 0)) holds.remaining
              ∙ no_body)
            a.marked a.nothing_left a.closes,
        a.delivered
            ∙ ap (λ t. t ++ (hello_headers close ++ codes "Hello World!"))
                (ap (λ q. sent q.1) (sym r) ∙ laws.recv_keeps x.conn env.max_header_size),
      )
