-- ===== src/Servlet/Answered.antt =====
-- A request whose servlet function answers it.
use highway.Prelude.{
  ◌≡◌, ap, ◌∙◌, Bool, true, false, List, Option, ret, >>=-ret, if◌then◌else◌, if_true, if_false,
}
use highway.Prelude.Int.{pos, ltb_ℤ}
use highway.Env.{Env}
use highway.Request.{Request, request_reset}
use highway.Request.Headers.{read_headers}
use highway.Response.{response_reset}
use highway.Response.Send.{flush_headers}
use highway.Servlet.{
  Exchange, Servlet, Filter, Verdict, read_retry, read_abort, conclude, after_servlet, dispatch,
  handle, serve_request,
}

abbrev pub verdict_of : Bool → Verdict
verdict_of close = if close then read_abort else read_retry

module _ (env : Env) where
  open env use {Conn}

  -- What follows the servlet function, of a request without a body.
  answered_once :
      (x : Exchange Conn) (close : Bool)
      → ltb_ℤ (pos 0) x.request.content_length_remaining ≡ false
      → x.response.headers_sent ≡ true
      → x.response.content_bytes_left ≡ pos 0
      → x.response.connection_close ≡ close
      → after_servlet env x ≡ ret (verdict_of close, x)
  unfolding after_servlet conclude flush_headers
  answered_once x close no_body marked left closes =
      if_false (ltb_ℤ (pos 0) x.request.content_length_remaining) _ _ no_body
      ∙ >>=-ret _ _ (true, x.response, x.conn) (if_true x.response.headers_sent _ _ marked)
      ∙ ap ret (
          if_false (ltb_ℤ (pos 0) x.response.content_bytes_left) _ _ (ap (ltb_ℤ (pos 0)) left)
          ∙ verdict x close closes)
    where
      verdict :
          (x : Exchange Conn) (close : Bool)
          → x.response.connection_close ≡ close
          → ◌≡◌ {A = Verdict × Exchange Conn}
              (if x.response.connection_close then (read_abort, x) else (read_retry, x))
              (verdict_of close, x)
      verdict x true e = if_true x.response.connection_close _ _ e
      verdict x false e = if_false x.response.connection_close _ _ e

  -- A request that is read, and answered by the filters and the servlet function.
  pub serve_request-Answered :
      (filters : Option (List (Filter Conn))) (servlet : Option (Servlet Conn))
      (x x' : Exchange Conn) (req : Request) (c : Conn) (close : Bool)
      → read_headers env x.conn (request_reset x.request) ≡ ret (true, req, c)
      → dispatch filters servlet (record {
        request = req;
        response = record (response_reset x.response) { connection_close = req.connection_close };
        conn = c;
      })
        ≡ ret x'
      → ltb_ℤ (pos 0) x'.request.content_length_remaining ≡ false
      → x'.response.headers_sent ≡ true
      → x'.response.content_bytes_left ≡ pos 0
      → x'.response.connection_close ≡ close
      → serve_request env filters servlet x ≡ ret (verdict_of close, x')
  unfolding serve_request handle
  serve_request-Answered filters servlet x x' req c close read served no_body marked left closes =
      >>=-ret _ _ (true, req, c) read
      ∙ >>=-ret _ _ x' served
      ∙ answered_once x' close no_body marked left closes
