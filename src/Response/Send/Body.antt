-- ===== src/Response/Send/Body.antt =====
-- What `hiw_response_write_body_raw` sends and counts once the headers are sent.
use highway.Prelude.{
  Bool-cases, inl, inr, ltb, ltb→lt, ltb-le, ℕ, suc, ◌+◌, ◌<◌, ◌≡◌, refl, sym, ap, ◌∙◌, Bool, true,
  false, ◌++◌, Bytes, length, some, ret, arith, lt→ltb, le→ltb, lt→leb, if◌then◌else◌, if_true,
  if_false, >>=-ret,
}
use highway.Prelude.Int.{ -ℤ_parts, pos, ◌-ℤ◌, leb_ℤ, ltb_ℤ}
use highway.Env.{Env, Laws}
use highway.Client.{client_sendall}
use highway.Client.Delivery.{sendall_whole}
use highway.Response.{Response, response_error}
use highway.Response.Send.{with_conn, count_sent, send_body, write_body_raw}

-- The headers are sent, with a content length, of which `left` bytes are to come.
pub record Sending (resp : Response) (left : ℕ) : Type 0 where
  pub total : ℕ
  pub headers : resp.headers_sent ≡ true
  pub content_length : resp.content_length ≡ pos (suc total)
  pub bytes_left : resp.content_bytes_left ≡ pos left

module _ (env : Env) (laws : Laws env) where
  sent_whole :
      (resp : Response) (c c' : env.Conn) (src : Bytes)
      → resp.headers_sent ≡ true
      → 0 < length src
      → env.send c src ≡ (some (length src), c')
      → write_body_raw env resp c src ≡ with_conn c' (count_sent env resp (length src))
  unfolding write_body_raw send_body
  sent_whole resp c c' src h some_byte e =
      if_true resp.headers_sent _ _ h
      ∙ >>=-ret (client_sendall env c src) _ (true, c')
          (sendall_whole env laws c src c' some_byte e).0

  -- Once as many bytes are sent as the content length says, a further body is not refused: it is sent
  -- too, the answer is `true`, and nothing is counted.
  pub write_body_raw-overshoots :
      (resp : Response) (c c' : env.Conn) (src : Bytes)
      → Sending resp 0
      → 0 < length src
      → env.send c src ≡ (some (length src), c')
      → (write_body_raw env resp c src ≡ ret (true, resp, c')) × (laws.sent c' ≡ laws.sent c ++ src)
  unfolding count_sent
  write_body_raw-overshoots resp c c' src s some_byte e =
      let open_length : leb_ℤ resp.content_length (pos 0) ≡ false =
        ap (λ z. leb_ℤ z (pos 0)) s.content_length
        ∙ lt→leb (suc s.total + 0) (0 + 0) (omega arith) in
      let spent : leb_ℤ resp.content_bytes_left (pos 0) ≡ true =
        ap (λ z. leb_ℤ z (pos 0)) s.bytes_left in
      let same : (if leb_ℤ resp.content_bytes_left (pos 0)
            then resp.content_bytes_left
            else resp.content_bytes_left -ℤ pos (length src))
          ≡ resp.content_bytes_left =
        if_true (leb_ℤ resp.content_bytes_left (pos 0)) _ _ spent in
      let not_below : ltb_ℤ resp.content_bytes_left (pos 0) ≡ false =
        ap (λ z. ltb_ℤ z (pos 0)) s.bytes_left in
      let counted : count_sent env resp (length src) ≡ (true, resp) =
        if_false (leb_ℤ resp.content_length (pos 0)) _ _ open_length
        ∙ ap
            (λ z.
              if ltb_ℤ z (pos 0)
              then response_error (record resp { content_bytes_left = z })
              else (true, record resp { content_bytes_left = z }))
            same
        ∙ if_false (ltb_ℤ resp.content_bytes_left (pos 0)) _ _ not_below in
      (
        sent_whole resp c c' src s.headers some_byte e ∙ ap (λ r. with_conn c' r) counted,
        (sendall_whole env laws c src c' some_byte e).1,
      )

  below_zero : (left n : ℕ) → ltb_ℤ (pos left -ℤ pos n) (pos 0) ≡ ltb left n
  below_zero left n = elim (Bool-cases (ltb left n)) [
    | inl t ↦ lt→ltb _ _ (omega (arith, ltb→lt left n t, -ℤ_parts (pos left) (pos n))) ∙ sym t
    | inr t ↦ le→ltb _ _ (omega (arith, ltb-le left n t, -ℤ_parts (pos left) (pos n))) ∙ sym t
  ]

  -- With bytes of the content length to come, a body is sent and taken off them: the answer is `true`
  -- where it is no longer than they are, and an error where it is longer, though it is sent.
  pub write_body_raw-counts :
      (resp : Response) (c c' : env.Conn) (src : Bytes) (left : ℕ)
      → Sending resp (suc left)
      → 0 < length src
      → env.send c src ≡ (some (length src), c')
      → (write_body_raw env resp c src ≡ (
          let resp' = record resp { content_bytes_left = pos (suc left) -ℤ pos (length src) } in
          if ltb (suc left) (length src)
          then with_conn c' (response_error resp')
          else ret (true, resp', c')))
        × (laws.sent c' ≡ laws.sent c ++ src)
  unfolding count_sent
  write_body_raw-counts resp c c' src left s some_byte e =
      let open_length : leb_ℤ resp.content_length (pos 0) ≡ false =
        ap (λ z. leb_ℤ z (pos 0)) s.content_length
        ∙ lt→leb (suc s.total + 0) (0 + 0) (omega arith) in
      let taken_off : (if leb_ℤ resp.content_bytes_left (pos 0)
            then resp.content_bytes_left
            else resp.content_bytes_left -ℤ pos (length src))
          ≡ pos (suc left) -ℤ pos (length src) =
        ap (λ z. if leb_ℤ z (pos 0) then z else z -ℤ pos (length src)) s.bytes_left
        ∙ if_false (leb_ℤ (pos (suc left)) (pos 0)) _ _
            (lt→leb (suc left + 0) (0 + 0) (omega arith)) in
      let counted : count_sent env resp (length src) ≡ (
          let resp' = record resp { content_bytes_left = pos (suc left) -ℤ pos (length src) } in
          if ltb (suc left) (length src) then response_error resp' else (true, resp')) =
        if_false (leb_ℤ resp.content_length (pos 0)) _ _ open_length
        ∙ ap
            (λ z.
              if ltb_ℤ z (pos 0)
              then response_error (record resp { content_bytes_left = z })
              else (true, record resp { content_bytes_left = z }))
            taken_off
        ∙ ap
            (λ b.
              if b
              then response_error
                  (record resp { content_bytes_left = pos (suc left) -ℤ pos (length src) })
              else (true, record resp { content_bytes_left = pos (suc left) -ℤ pos (length src) }))
            (below_zero (suc left) (length src)) in
      (
        sent_whole resp c c' src s.headers some_byte e
            ∙ ap (λ r. with_conn c' r) counted
            ∙ branches (ltb (suc left) (length src)) _ c',
        (sendall_whole env laws c src c' some_byte e).1,
      )
    where
      branches :
          (b : Bool) (r : Response) (c1 : env.Conn)
          → with_conn c1 (if b then response_error r else (true, r))
            ≡ (if b then with_conn c1 (response_error r) else ret (true, r, c1))
      branches true r c1 = refl
      branches false r c1 = refl
