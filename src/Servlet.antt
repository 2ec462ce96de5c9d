-- ===== src/Servlet.antt =====
-- The serving of requests in servlet/src/hiw_servlet.c: the filter chain, and the loops of a servlet
-- thread. Filters and the servlet function are arguments.
pub mod Chain
pub mod Answered
pub mod Lifecycle
use highway.Prelude.{
  ℕ, zero, suc, Bool, true, false, List, [], ◌∷◌, ◌++◌, Option, none, some, Outcome, ret, fault,
  hang, ◌>>=◌, if◌then◌else◌, Bytes,
}
use highway.Prelude.Int.{ℤ, pos, ltb_ℤ}
use highway.Env.{Env}
use highway.Request.{Request, request_init, request_reset}
use highway.Request.Headers.{read_headers}
use highway.Response.{Response, response_init, response_reset}
use highway.Response.Send.{flush_headers}

-- What a servlet function works on: the request, the response, and the client's connection.
pub record Exchange (C : Type 0) : Type 0 where
  pub request : Request
  pub response : Response
  pub conn : C

abbrev pub Servlet : Type 0 → Type 0
Servlet C = Exchange C → Outcome (Exchange C)

-- `hiw_filter_fn`: a filter is handed its chain, and calls `hiw_filter_chain_next` with it, which is
-- its first argument here, as often as it likes.
abbrev pub Filter : Type 0 → Type 0
Filter C = Servlet C → Servlet C

module _ {C : Type 0} where
  -- `servlet_func(req, resp)`; `none` is NULL
  unfoldable pub call_servlet : Option (Servlet C) → Servlet C
  call_servlet none x = fault
  call_servlet (some servlet) x = servlet x

  -- `hiw_filter_chain_next`, with the filters behind the current one: the array ends at a NULL
  -- function.
  unfoldable pub chain_next : List (Filter C) → Option (Servlet C) → Servlet C
  unfolding call_servlet
  chain_next [] servlet x = call_servlet servlet x
  chain_next (f ∷ filters) servlet x = f (λ y. chain_next filters servlet y) x

  -- The call of the first filter, or of the servlet function if there is no chain, in
  -- `hiw_servlet_start_filter_chain`.
  unfoldable pub dispatch : Option (List (Filter C)) → Option (Servlet C) → Servlet C
  unfolding chain_next
  dispatch (some []) servlet x = fault
  dispatch (some (f ∷ filters)) servlet x = f (λ y. chain_next filters servlet y) x
  dispatch none none x = ret x
  dispatch none (some servlet) x = servlet x

-- Whether the connection is used for another request.
pub data Verdict : Type 0 where
  read_retry read_abort : Verdict

module _ (env : Env) where
  open env use {Conn}

  -- `read_abort`, with `response.connection_close = true` before it
  abbrev pub abort : Exchange Conn → Verdict × Exchange Conn
  abort x = (read_abort, record x { response = record (x.response) { connection_close = true } })

  -- What follows the flush.
  pub conclude : Bool × Response × Conn → Request → Verdict × Exchange Conn
  conclude (flushed, resp, c) req =
      let x : Exchange Conn = record { request = req; response = resp; conn = c } in
      if flushed
      then (if ltb_ℤ (pos 0) resp.content_bytes_left
          then abort x
          else if resp.connection_close
          then (read_abort, x)
          else (read_retry, x))
      else abort x

  -- From the servlet function's return on.
  pub after_servlet : Exchange Conn → Outcome (Verdict × Exchange Conn)
  unfolding conclude
  after_servlet x =
      if ltb_ℤ (pos 0) x.request.content_length_remaining
      then ret (abort x)
      else do flushed ← flush_headers env x.response x.conn; ret (conclude flushed x.request)

  -- What follows the headers.
  pub handle :
      Option (List (Filter Conn))
      → Option (Servlet Conn)
      → Bool × Request × Conn
      → Response
      → Outcome (Verdict × Exchange Conn)
  unfolding after_servlet
  handle filters servlet (false, req, c) resp =
      ret (abort (record { request = req; response = resp; conn = c }))
  handle filters servlet (true, req, c) resp = do
    x ← dispatch filters servlet (record {
      request = req;
      response = record resp { connection_close = req.connection_close };
      conn = c;
    })
    after_servlet x

  -- One request, from the label `read_retry` on.
  unfoldable pub serve_request :
      Option (List (Filter Conn))
      → Option (Servlet Conn)
      → Exchange Conn
      → Outcome (Verdict × Exchange Conn)
  unfolding handle
  serve_request filters servlet x = do
    got ← read_headers env x.conn (request_reset x.request)
    handle filters servlet got (response_reset x.response)

  -- The requests of one client, up to its deletion, with a number of rounds.
  pub serve_client :
      ℕ
      → Option (List (Filter Conn))
      → Option (Servlet Conn)
      → Exchange Conn
      → Outcome (Exchange Conn)
  unfolding serve_request
  serve_client zero filters servlet x = hang
  serve_client (suc rounds) filters servlet x = do
    (verdict, x') ← serve_request filters servlet x
    elim verdict [ read_abort ↦ ret x' | read_retry ↦ serve_client rounds filters servlet x' ]

  -- The accept loop of a servlet thread over what `hiw_server_accept` answers in turn, until the
  -- server stops: the connections in the order in which their clients are deleted.
  pub serve_clients :
      ℕ
      → Option (List (Filter Conn))
      → Option (Servlet Conn)
      → List (Option Conn)
      → Request
      → Response
      → Outcome (List Conn)
  unfolding serve_client
  serve_clients rounds filters servlet [] req resp = ret []
  serve_clients rounds filters servlet (none ∷ accepted) req resp =
      serve_clients rounds filters servlet accepted req resp
  serve_clients rounds filters servlet (some c ∷ accepted) req resp = do
    x ← serve_client rounds filters servlet (record { request = req; response = resp; conn = c })
    rest ← serve_clients rounds filters servlet accepted x.request x.response
    ret (x.conn ∷ rest)

  -- `hiw_servlet_start_filter_chain`
  pub start_filter_chain :
      ℕ
      → Option (List (Filter Conn))
      → Option (Servlet Conn)
      → List (Option Conn)
      → Bytes
      → Bytes
      → Outcome (List Conn)
  unfolding serve_clients
  start_filter_chain rounds filters servlet accepted request_memory response_memory =
      serve_clients rounds filters servlet accepted (request_init request_memory)
        (response_init response_memory)
