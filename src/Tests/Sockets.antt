-- ===== src/Tests/Sockets.antt =====
-- What is sent and received, and the sockets, at concrete inputs.
use highway.Prelude.{◌≡◌, refl, true, false, [], ◌∷◌, codes, some, ret, arith}
use highway.Prelude.Int.{pos, ◌-ℤ◌}
use highway.Text.{empty}
use highway.Memory.{fixed_init}
use highway.Client.{client_sendall}
use highway.Client.Delivery.{Delivers, sendall-Delivers, sendall_whole, sendall_repeats}
use highway.Request.{Request}
use highway.Request.Body.{request_recv, clamp}
use highway.Request.Body.ReadAhead.{advance, request_recv-ahead, request_recv-mixed}
use highway.Request.Body.Account.{Accounts, request_recv-Accounts}
use highway.Server.{ListenCalls, Opened, ipv4, listen}
use highway.Server.Sockets.{Settles, listen-Settles}
use highway.Tests.Line.{Line, line_env, line_laws}

-- A send that takes two bytes, and then sends that take all.
abbrev slow : Line
slow = record { quotas = 2 ∷ []; taken = []; inbox = codes "xyz" }

abbrev fast : Line
fast = record { quotas = []; taken = []; inbox = codes "xyz" }

sendall-Delivers_example :
    Delivers line_env line_laws fast (record fast { taken = codes "abc" }) (codes "abc") 3
unfolding line_laws
sendall-Delivers_example =
    sendall-Delivers line_env line_laws fast (codes "abc") (record fast { taken = codes "abc" })
      (sendall_whole line_env line_laws fast (codes "abc") (record fast { taken = codes "abc" })
        (omega arith) refl).0

sendall_repeats_example :
    (client_sendall line_env slow (codes "abc")
      ≡ ret (true, record slow { quotas = []; taken = codes "aba" }))
    × (codes "aba" ≡ codes "aba")
unfolding line_laws
sendall_repeats_example =
    sendall_repeats line_env line_laws slow (codes "abc") 2
      (record slow { quotas = []; taken = codes "ab" })
      (record slow { quotas = []; taken = codes "aba" }) (omega arith) (omega arith) refl refl

-- A request of which two bytes of the body are read ahead, and four more are to come.
abbrev reading : Request
reading = record {
  method = empty;
  uri = empty;
  headers = [];
  content_length = pos 6;
  memory = fixed_init (codes "..ab");
  read_ahead = 2;
  read_ahead_length = 2;
  connection_close = false;
  content_length_remaining = pos 6;
}

-- It reads both, and the socket is not asked.
reads_both :
    request_recv line_env reading fast (codes "----") (pos 2)
    ≡ ret (
      some 2,
      codes "ab--",
      record (advance reading 2) { content_length_remaining = pos 6 -ℤ pos 2 },
      fast,
    )
unfolding clamp fixed_init
reads_both =
    request_recv-ahead line_env reading fast (codes "----") 1 5 2 (record { inside = omega arith })
      (λ e. cc) refl refl (omega arith) (omega arith)

-- It reads the first of them.
request_recv-ahead_example :
    request_recv line_env reading fast (codes "----") (pos 1)
    ≡ ret (
      some 1,
      codes "a---",
      record (advance reading 1) { content_length_remaining = pos 6 -ℤ pos 1 },
      fast,
    )
unfolding clamp fixed_init
request_recv-ahead_example =
    request_recv-ahead line_env reading fast (codes "----") 0 5 1 (record { inside = omega arith })
      (λ e. cc) refl refl (omega arith) (omega arith)

-- It reads six, two of which are read ahead.
request_recv-mixed_example :
    request_recv line_env reading fast (codes "------") (pos 6)
    ≡ ret (
      some 5,
      codes "xyz---",
      record (advance reading 2) { content_length_remaining = pos 6 -ℤ pos 5 },
      record fast { inbox = [] },
    )
unfolding clamp fixed_init
request_recv-mixed_example =
    request_recv-mixed line_env reading fast (record fast { inbox = [] }) (codes "------")
      (codes "xyz") 5 5 6 2 (record { inside = omega arith }) (λ e. cc) refl refl refl (omega arith)
      (omega arith) (omega arith) refl (omega arith)

request_recv-Accounts_example :
    Accounts reading 2 2 (record (advance reading 2) { content_length_remaining = pos 6 -ℤ pos 2 })
unfolding line_laws
request_recv-Accounts_example =
    request_recv-Accounts line_env line_laws reading fast (codes "----") 1 2 (codes "ab--")
      (record (advance reading 2) { content_length_remaining = pos 6 -ℤ pos 2 }) fast reads_both

-- A socket is made, and the bind fails.
abbrev pub bind_fails : ListenCalls
bind_fails = record {
  created = pos 7;
  reuse_addr = true;
  v6_only = true;
  reuse_port = true;
  no_delay = true;
  linger = true;
  timeout = record { read_timeout = true; write_timeout = true };
  address_valid = true;
  bound = false;
  listening = true;
}

listen-Settles_example :
    (o : Opened) × (listen (record { ip_version = ipv4; address_length = 9 }) bind_fails ≡ ret o)
    × Settles (pos 7) o
listen-Settles_example =
    listen-Settles (record { ip_version = ipv4; address_length = 9 }) bind_fails (λ e. cc)
      (omega arith)
