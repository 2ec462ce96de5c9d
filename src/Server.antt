-- ===== src/Server.antt =====
-- The listening socket of core/src/hiw_socket.c and the server of core/src/hiw_server.c. What each
-- system call answers is an argument, and a function that shuts sockets down lists them.
pub mod Sockets
pub mod Lifecycle
use highway.Prelude.{
  ℕ, Bool, true, false, ◌&&◌, not, List, [], ◌∷◌, Option, none, some, Outcome, ret, fault, ◌>>=◌,
  leb, ◌==◌, if◌then◌else◌,
}
use highway.Prelude.Int.{ℤ, pos, negsuc, eqb_ℤ}

-- `hiw_socket_ip_version`
pub data IpVersion : Type 0 where
  ipv4 ipv6 ipv4_and_6 : IpVersion

-- `hiw_socket_error`
pub data SocketError : Type 0 where
  success err_create err_bind err_config err_listen err_accept : SocketError

-- INVALID_SOCKET
abbrev pub invalid_socket : ℤ
invalid_socket = negsuc 0

-- Whether each call of `hiw_socket_set_timeout` succeeds.
pub record TimeoutCalls : Type 0 where
  pub read_timeout : Bool
  pub write_timeout : Bool

pub set_timeout : TimeoutCalls → SocketError
set_timeout calls =
    if not calls.read_timeout
    then err_config
    else if not calls.write_timeout
    then err_config
    else success

-- `hiw_socket_config`, as far as the code branches on it
pub record SocketConfig : Type 0 where
  pub ip_version : IpVersion
  pub address_length : ℕ

-- What the calls of `hiw_socket_listen` answer: the socket, and which of the others succeed.
pub record ListenCalls : Type 0 where
  pub created : ℤ
  pub reuse_addr : Bool
  pub v6_only : Bool
  pub reuse_port : Bool
  pub no_delay : Bool
  pub linger : Bool
  pub timeout : TimeoutCalls
  pub address_valid : Bool
  pub bound : Bool
  pub listening : Bool

-- INET_ADDRSTRLEN
abbrev pub inet_addrstrlen : ℕ
inet_addrstrlen = 16

-- The address is copied to an array of INET_ADDRSTRLEN characters, with a zero behind what was
-- copied: behind the array's end, where the address fills it.
pub bind_ipv4 : SocketConfig → ListenCalls → Outcome Bool
bind_ipv4 config calls =
    if config.address_length == 0
    then ret calls.bound
    else if leb inet_addrstrlen config.address_length
    then fault
    else if calls.address_valid
    then ret calls.bound
    else ret false

pub bind_ipv6 : SocketConfig → ListenCalls → Bool
bind_ipv6 config calls = if config.address_length == 0 then calls.bound else false

abbrev pub is_dual : IpVersion → Bool
is_dual ipv4 = false
is_dual ipv6 = false
is_dual ipv4_and_6 = true

pub bind_socket : SocketConfig → ListenCalls → IpVersion → Outcome Bool
unfolding bind_ipv4 bind_ipv6
bind_socket config calls ipv4 = bind_ipv4 config calls
bind_socket config calls ipv6 = ret (bind_ipv6 config calls)
bind_socket config calls ipv4_and_6 = ret (bind_ipv6 config calls)

abbrev pub is_success : SocketError → Bool
is_success success = true
is_success _ = false

-- The socket, the error, and the sockets that are shut down.
abbrev pub Opened : Type 0
Opened = ℤ × SocketError × List ℤ

-- `hiw_socket_close(sock); *err = e; return INVALID_SOCKET;`
abbrev pub give_up : ℤ → SocketError → Opened
give_up sock e = (invalid_socket, e, sock ∷ [])

-- From the answer of the bind on.
pub listen_bound : ListenCalls → Bool → Opened
listen_bound calls bound =
    if not bound
    then give_up calls.created err_bind
    else if not calls.listening
    then give_up calls.created err_listen
    else (calls.created, success, [])

-- From the timeouts on.
pub listen_rest : SocketConfig → ListenCalls → Outcome Opened
unfolding set_timeout bind_socket listen_bound
listen_rest config calls =
    let err = set_timeout calls.timeout in
    if not (is_success err)
    then ret (give_up calls.created err)
    else do bound ← bind_socket config calls config.ip_version; ret (listen_bound calls bound)

pub listen : SocketConfig → ListenCalls → Outcome Opened
unfolding listen_rest
listen config calls =
    if eqb_ℤ calls.created invalid_socket
    then ret (invalid_socket, err_create, [])
    else if not calls.reuse_addr
    then ret (give_up calls.created err_config)
    else if is_dual config.ip_version && not calls.v6_only
    then ret (give_up calls.created err_config)
    else if not calls.reuse_port
    then ret (give_up calls.created err_config)
    else if not calls.no_delay
    then ret (give_up calls.created err_config)
    else if not calls.linger
    then ret (give_up calls.created err_config)
    else listen_rest config calls

-- `hiw_socket_accept`, whose two branches differ in the address that is filled in; `accepted` is
-- what `accept` answers.
pub socket_accept : ℤ → TimeoutCalls → Opened
unfolding set_timeout
socket_accept accepted calls =
    if eqb_ℤ accepted invalid_socket
    then (invalid_socket, err_accept, [])
    else let err = set_timeout calls in
      if not (is_success err) then give_up accepted err else (accepted, success, [])

-- `struct hiw_server`
pub record Server : Type 0 where
  pub config : SocketConfig
  pub socket : ℤ
  pub running : Bool
  pub userdata : Option ℕ

-- `hiw_server_error`
pub data ServerError : Type 0 where
  success error_memory error_running error_socket : ServerError

unfoldable pub server_new : SocketConfig → Server
server_new config = record {
  config = config;
  socket = invalid_socket;
  running = false;
  userdata = none;
}

-- From the answer of `hiw_socket_listen` on.
pub server_opened : Server → Opened → ServerError × Server × List ℤ
server_opened s (sock, err, closed) =
    if is_success err
    then (ServerError.success, record s { socket = sock; running = true }, closed)
    else (error_socket, record s { socket = sock }, closed)

unfoldable pub server_start : Server → ListenCalls → Outcome (ServerError × Server × List ℤ)
unfolding listen server_opened
server_start s calls = do o ← listen s.config calls; ret (server_opened s o)

unfoldable pub set_userdata : Server → Option ℕ → ServerError × Server
set_userdata s userdata =
    if eqb_ℤ s.socket invalid_socket
    then (ServerError.success, record s { userdata = userdata })
    else (error_running, s)

unfoldable pub server_stop : Server → Server × List ℤ
server_stop s =
    if s.running
    then (if eqb_ℤ s.socket invalid_socket
        then (record s { running = false }, [])
        else (record s { running = false; socket = invalid_socket }, s.socket ∷ []))
    else (s, [])

-- The sockets that are shut down before the server is freed.
unfoldable pub server_delete : Server → List ℤ
server_delete s = if eqb_ℤ s.socket invalid_socket then [] else s.socket ∷ []

-- `struct hiw_client`, without the text of the address
pub record ClientSocket : Type 0 where
  pub socket : ℤ
  pub ip_version : IpVersion

-- `none` is NULL.
pub server_accept : Server → ℤ → TimeoutCalls → Option ClientSocket × List ℤ
unfolding socket_accept
server_accept s accepted calls =
    if not s.running
    then (none, [])
    else let (sock, err, closed) = socket_accept accepted calls in
      if eqb_ℤ sock invalid_socket
      then (none, closed)
      else (some (record { socket = sock; ip_version = s.config.ip_version }), closed)

pub client_disconnect : ClientSocket → ClientSocket × List ℤ
client_disconnect c =
    if eqb_ℤ c.socket invalid_socket
    then (c, [])
    else (record c { socket = invalid_socket }, c.socket ∷ [])

pub client_delete : ClientSocket → List ℤ
client_delete c = if eqb_ℤ c.socket invalid_socket then [] else c.socket ∷ []
