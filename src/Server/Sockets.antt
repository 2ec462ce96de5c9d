-- ===== src/Server/Sockets.antt =====
-- What becomes of a socket in `hiw_socket_listen` and `hiw_socket_accept`.
use mathlib.Core.Path.{subst}
use highway.Prelude.{
  ◌⊎◌, inl, inr, ◌≡◌, ◌≢◌, ◌<◌, refl, sym, ◌∙◌, Bool, true, false, ◌&&◌, not, [], ◌∷◌, Outcome, ret,
  Returns, Returns-ret, >>=-ret, arith, leb, lt→leb, ◌==◌, if_cases, if_true, if_false, Bool-cases,
  if◌then◌else◌,
}
use highway.Prelude.Int.{ℤ, eqb_ℤ}
use highway.Server.{
  IpVersion, ipv4, ipv6, ipv4_and_6, SocketConfig, ListenCalls, TimeoutCalls, Opened, SocketError,
  err_config, invalid_socket, inet_addrstrlen, is_success, is_dual, set_timeout, give_up, bind_ipv4,
  bind_ipv6, bind_socket, listen_bound, listen_rest, listen, socket_accept,
}

-- Of a socket that was made, either it is handed out with no error and nothing is shut down, or the
-- answer is INVALID_SOCKET with an error and the socket, and it alone, is shut down.
abbrev pub Settles : ℤ → Opened → Type 0
Settles made (sock, err, closed) =
    ((sock ≡ made) × (err ≡ SocketError.success) × (closed ≡ []))
    ⊎ ((sock ≡ invalid_socket) × (err ≢ SocketError.success) × (closed ≡ made ∷ []))

bind_socket-returns :
    (config : SocketConfig) (calls : ListenCalls) (version : IpVersion)
    → config.address_length < inet_addrstrlen
    → (bound : Bool) × (bind_socket config calls version ≡ ret bound)
unfolding bind_socket bind_ipv4
bind_socket-returns config calls ipv4 short = elim (Bool-cases (config.address_length == 0)) [
  | inl t ↦ (calls.bound, if_true (config.address_length == 0) _ _ t)
  | inr f ↦ (
    if calls.address_valid then calls.bound else false,
    if_false (config.address_length == 0) _ _ f
        ∙ if_false (leb inet_addrstrlen config.address_length) _ _ (lt→leb _ _ short)
        ∙ checked calls.address_valid,
  )
]
  where
    checked :
        (valid : Bool)
        → ◌≡◌ {A = Outcome Bool}
            (if valid then ret calls.bound else ret false)
            (ret (if valid then calls.bound else false))
    checked true = refl
    checked false = refl
bind_socket-returns config calls ipv6 short = (bind_ipv6 config calls, refl)
bind_socket-returns config calls ipv4_and_6 short = (bind_ipv6 config calls, refl)

listen_bound-Settles :
    (calls : ListenCalls) (bound : Bool) → Settles calls.created (listen_bound calls bound)
unfolding listen_bound
listen_bound-Settles calls bound = ground arith

listen_rest-Settles :
    (config : SocketConfig) (calls : ListenCalls)
    → config.address_length < inet_addrstrlen
    → Returns (Settles calls.created) (listen_rest config calls)
unfolding listen_rest set_timeout
listen_rest-Settles config calls short =
    let (bound, binds) = bind_socket-returns config calls config.ip_version short in
    if_cases (Returns (Settles calls.created)) (not (is_success (set_timeout calls.timeout))) _ _
      (λ t. ground arith)
      (λ f.
        subst (Returns (Settles calls.created))
          (sym (>>=-ret (bind_socket config calls config.ip_version) _ bound binds))
          (listen_bound-Settles calls bound))

-- A test that gives up.
refused-Settles :
    (made : ℤ) (b : Bool) (rest : Outcome Opened)
    → Returns (Settles made) rest
    → Returns (Settles made) (if b then ret (give_up made err_config) else rest)
refused-Settles made true rest h = inr (refl, (λ e. cc), refl)
refused-Settles made false rest h = h

-- `hiw_socket_listen` returns, and settles the socket that it makes, whichever calls fail, if the
-- address is shorter than INET_ADDRSTRLEN.
pub listen-Settles :
    (config : SocketConfig) (calls : ListenCalls)
    → calls.created ≢ invalid_socket
    → config.address_length < inet_addrstrlen
    → (o : Opened) × (listen config calls ≡ ret o) × Settles calls.created o
unfolding listen
listen-Settles config calls made short =
    let made_one : eqb_ℤ calls.created invalid_socket ≡ false = ground arith in
    Returns-ret (Settles calls.created) (listen config calls) (
      subst (Returns (Settles calls.created))
        (sym (if_false (eqb_ℤ calls.created invalid_socket) _ _ made_one))
        (refused-Settles calls.created (not calls.reuse_addr) _ (
          refused-Settles calls.created (is_dual config.ip_version && not calls.v6_only) _ (
            refused-Settles calls.created (not calls.reuse_port) _ (
              refused-Settles calls.created (not calls.no_delay) _ (
                refused-Settles calls.created (not calls.linger) _
                  (listen_rest-Settles config calls short)))))))

-- So does `hiw_socket_accept`.
pub socket_accept-Settles :
    (accepted : ℤ) (calls : TimeoutCalls)
    → accepted ≢ invalid_socket
    → Settles accepted (socket_accept accepted calls)
unfolding socket_accept
socket_accept-Settles accepted calls made = ground arith
