-- ===== src/Tests/Lifecycles.antt =====
-- A server that is started and stopped.
use highway.Prelude.{◌≡◌, refl, List, [], ◌∷◌, true, ret, arith}
use highway.Prelude.Int.{ℤ, pos}
use highway.Server.{
  SocketConfig, Server, ServerError, ipv4, server_new, server_start, server_stop, server_delete,
}
use highway.Server.Lifecycle.{created, started, stopped, server_delete-Accounted}
use highway.Tests.Sockets.{bind_fails}

abbrev pub config : SocketConfig
config = record { ip_version = ipv4; address_length = 0 }

-- The first start fails at the bind, and the second one succeeds and is stopped.
server_delete-Accounted_example :
    ((r : ServerError × Server × List ℤ) × (server_start (server_new config) bind_fails ≡ ret r))
    × (pos 7 ∷ pos 7 ∷ [] ≡ pos 7 ∷ pos 7 ∷ server_delete (server_new config))
unfolding server_new server_start server_stop
server_delete-Accounted_example =
    server_delete-Accounted config (pos 7 ∷ pos 7 ∷ []) (pos 7 ∷ pos 7 ∷ []) (server_new config)
      bind_fails (omega arith)
      (stopped (
        started (record bind_fails { bound = true })
          (started bind_fails created refl (λ e. cc) refl) refl (λ e. cc) refl))
      refl (λ e. cc)
