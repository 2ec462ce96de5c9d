-- ===== src/Response/Send.antt =====
-- Sending the response of servlet/src/hiw_servlet.c: the header block, and body data.
pub mod Body
pub mod Block
pub mod Page
pub mod Typed
use highway.Prelude.{
  ℕ, Bool, true, false, Bytes, take, length, codes, Outcome, ret, ◌>>=◌, if◌then◌else◌,
}
use highway.Prelude.Int.{pos, eqb_ℤ, ltb_ℤ, leb_ℤ, ◌-ℤ◌}
use highway.Text.{string_const}
use highway.Memory.{size}
use highway.Env.{Env}
use highway.Client.{client_sendall}
use highway.Response.{
  Response, response_error, or_error, write_raw, write_header, set_content_length,
  set_connection_close,
}

-- What a call answers, with the connection behind it.
abbrev pub with_conn : {C : Type 0} → C → Bool × Response → Outcome (Bool × Response × C)
with_conn c (done, resp) = ret (done, resp, c)

module _ (env : Env) where
  open env use {Conn}

  -- The headers that `hiw_response_flush_headers` adds, up to the separator. The `Server` header
  -- has the value of the default build (HIW_WRITE_SERVER_HEADER and HIW_WRITE_SERVER_VERSION are 1).
  pub complete_headers : Response → Outcome (Bool × Response)
  complete_headers resp = or_error (set_content_length env resp (pos 0)) λ r1.
      or_error (set_connection_close env r1 r1.connection_close) λ r2.
        or_error
          (write_header env r2 (record {
            name = string_const (codes "Server");
            value = string_const (codes "Highway 0.0.1");
          }))
          λ r3. or_error (write_raw env r3 (codes "\r\n")) λ r4. ret (true, r4)

  -- `hiw_client_sendall` of the memory that is written, and the flag.
  pub send_headers : Bool × Response → Conn → Outcome (Bool × Response × Conn)
  unfolding size
  send_headers (false, resp) c = ret (false, resp, c)
  send_headers (true, resp) c = do
    (sent, c') ← client_sendall env c (take (size resp.memory) resp.memory.ptr)
    if sent
        then ret (true, record resp { headers_sent = true }, c')
        else with_conn c' (response_error resp)

  unfoldable pub flush_headers : Response → Conn → Outcome (Bool × Response × Conn)
  unfolding complete_headers send_headers
  flush_headers resp c =
      if resp.headers_sent
      then ret (true, resp, c)
      else if eqb_ℤ resp.status_code (pos 0)
      then ret (false, resp, c)
      else do completed ← complete_headers resp; send_headers completed c

  -- `if (resp->content_length > 0) { … }`
  pub count_sent : Response → ℕ → Bool × Response
  count_sent resp n =
      if leb_ℤ resp.content_length (pos 0)
      then (true, resp)
      else let left =
          if leb_ℤ resp.content_bytes_left (pos 0)
          then resp.content_bytes_left
          else resp.content_bytes_left -ℤ pos n in
        let resp' = record resp { content_bytes_left = left } in
        if ltb_ℤ left (pos 0) then response_error resp' else (true, resp')

  -- The send of `src`, once the headers are sent.
  pub send_body : Bool × Response × Conn → Bytes → Outcome (Bool × Response × Conn)
  unfolding count_sent
  send_body (false, resp, c) src = with_conn c (response_error resp)
  send_body (true, resp, c) src = do
    (sent, c') ← client_sendall env c src
    if sent then with_conn c' (count_sent resp (length src)) else with_conn c' (response_error resp)

  -- The headers are flushed first, which takes a content length.
  pub write_body_raw : Response → Conn → Bytes → Outcome (Bool × Response × Conn)
  unfolding flush_headers send_body
  write_body_raw resp c src =
      if resp.headers_sent
      then send_body (true, resp, c) src
      else if leb_ℤ resp.content_length (pos 0)
      then with_conn c (response_error resp)
      else do flushed ← flush_headers resp c; send_body flushed src
