-- ===== src/Boot.antt =====
-- Start-up and shutdown of a program in boot/src/hiw_boot.c: the server, the servlet and the signal.
pub mod Sockets
use highway.Prelude.{
  ℕ, zero, suc, Bool, true, false, List, [], ◌∷◌, ◌++◌, Option, none, some, Outcome, ret, fault,
  hang, ◌>>=◌, if◌then◌else◌,
}
use highway.Prelude.Int.{ℤ, pos}
use highway.Thread.{Effect, Run}
use highway.Server.{
  SocketConfig, ListenCalls, Server, ServerError, server_new, server_start, server_stop,
  server_delete, set_userdata,
}
use highway.Servlet.Lifecycle.{
  HiwServlet, servlet_new, set_starter_func, set_servlet_func, servlet_start, servlet_delete,
}

-- `hiw_app_state.server`: NULL, a server, or a pointer to one that is freed.
pub data AppServer : Type 0 where
  null : AppServer
  live : Server → AppServer
  gone : AppServer

-- `hiw_boot_signal`: the pointer after it, and the sockets that are shut down.
unfoldable pub boot_signal : AppServer → Outcome (AppServer × List ℤ)
boot_signal null = ret (null, [])
boot_signal (live s) =
    if s.running then ret (live (server_stop s).0, (server_stop s).1) else ret (live s, [])
boot_signal gone = fault

-- The signals that come in while the servlet runs.
pub signals : ℕ → AppServer → Outcome (AppServer × List ℤ)
unfolding boot_signal
signals zero server = ret (server, [])
signals (suc n) server = do
  (server', shut) ← boot_signal server
  (server'', later) ← signals n server'
  ret (server'', shut ++ later)

-- What stands outside of the code of a start: what the calls for the listening socket answer, the
-- threads that are made, what memory happens to hold, and how many signals come in.
pub record BootCalls : Type 0 where
  pub listen_calls : ListenCalls
  pub handle : ℕ → ℕ
  pub created : ℕ → Option ℕ
  pub default_threads : ℤ
  pub uninitialised : Option ℕ
  pub signal_count : ℕ

-- `hiw_boot_config`, as far as a start reads it
pub record BootConfig : Type 0 where
  pub socket_config : SocketConfig
  pub num_accept_threads : ℤ
  pub userdata : Option ℕ

-- `hiw_boot_on_servlet_start` and `hiw_boot_on_request`
abbrev pub on_servlet_start : ℕ
on_servlet_start = 3

abbrev pub on_request : ℕ
on_request = 4

-- What a start comes to: the exit code, the server's pointer, the sockets that were shut down, and
-- what was done with threads and memory.
pub record Booted : Type 0 where
  pub code : ℕ
  pub app_server : AppServer
  pub shut : List ℤ
  pub effects : List Effect

-- The servlet's deletion, of the server that the signals left.
pub boot_release : HiwServlet → AppServer → List ℤ → Outcome Booted
unfolding servlet_delete
boot_release servlet null shut = fault
boot_release servlet gone shut = fault
boot_release servlet (live s) shut =
    let (closed, effects) = servlet_delete servlet s in
    ret (record { code = 0; app_server = gone; shut = shut ++ closed; effects = effects })

-- The main thread's part in `hiw_servlet_start`, if its servlet function is run at all: the loop over
-- clients goes on for as long as the server runs.
pub block_main : List Run → AppServer → Outcome AppServer
block_main [] server = ret server
block_main (run ∷ runs) null = fault
block_main (run ∷ runs) gone = fault
block_main (run ∷ runs) (live s) = if s.running then hang else ret (live s)

-- From the start of the servlet on. The signals come in while it blocks.
pub boot_serve : BootCalls → BootConfig → Server → List ℤ → Outcome Booted
unfolding servlet_new set_starter_func set_servlet_func servlet_start signals block_main
    boot_release
boot_serve calls config server shut = do
  let created = servlet_new calls.default_threads calls.uninitialised
  let servlet =
      set_servlet_func (set_starter_func created (some on_servlet_start)) (some on_request)
  (err, started, runs) ←
      servlet_start calls.handle calls.created servlet (some config.num_accept_threads)
  (signalled, stopped) ← signals calls.signal_count (live server)
  app_server ← block_main runs signalled
  boot_release started app_server (shut ++ stopped)

abbrev pub server_success : ServerError → Bool
server_success ServerError.success = true
server_success _ = false

-- From the answer of `hiw_server_start` on.
pub boot_opened : BootCalls → BootConfig → ServerError × Server × List ℤ → Outcome Booted
unfolding boot_serve
boot_opened calls config (err, server, shut) =
    if server_success err
    then boot_serve calls config server shut
    else ret (record {
      code = 1;
      app_server = null;
      shut = shut ++ server_delete server;
      effects = Effect.freed_server ∷ [];
    })

-- `hiw_boot_start`
unfoldable pub boot_start : BootCalls → BootConfig → Outcome Booted
unfolding server_new set_userdata server_start boot_opened
boot_start calls config =
    let server = (set_userdata (server_new config.socket_config) config.userdata).1 in
    do opened ← server_start server calls.listen_calls; boot_opened calls config opened
