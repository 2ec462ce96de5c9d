-- ===== src/Tests/Shutdown.antt =====
-- A servlet and a program from start to end, and reads of a fixed size.
use highway.Prelude.{
  ℕ, zero, suc, ◌+◌, ◌<◌, ◌≤◌, ap, take, ◌≡◌, refl, true, List, [], ◌∷◌, ◌++◌, Bytes, length,
  Option, none, some, ret, hang, arith, ◌==◌, if◌then◌else◌,
}
use highway.Prelude.Int.{pos}
use highway.Env.{Env, Laws}
use highway.Client.{recv_all_loop}
use highway.Client.Whole.{recv_all_loop-whole, recv_all_loop-hang}
use highway.Thread.{joined, freed, freed_server, freed_servlet, Run}
use highway.Server.{server_new}
use highway.Servlet.Lifecycle.{HiwServlet, ServletError, servlet_new, servlet_start, servlet_delete}
use highway.Servlet.Lifecycle.Joins.{servlet_delete-deletions}
use highway.Boot.{BootCalls, BootConfig}
use highway.Tests.Sockets.{bind_fails}
use highway.Tests.Lifecycles.{config}

-- The second of three threads is not made.
abbrev one_thread : ℕ → Option ℕ
one_thread i = if i == 1 then none else some (i + 40)

servlet_delete-deletions_example :
    (err : ServletError) × (started : HiwServlet) × (runs : List Run) × (servlet_start
        (λ i. i)
        one_thread
        (servlet_new (pos 8) none)
        (some (pos 3))
      ≡ ret (err, started, runs))
    × ((servlet_delete started (server_new config)).1
        ≡ joined 40
          ∷ freed
          ∷ freed
          ∷ freed
          ∷ freed
          ∷ freed
          ∷ freed
          ∷ freed_server
          ∷ freed_servlet
          ∷ [])
unfolding servlet_new
servlet_delete-deletions_example =
    servlet_delete-deletions (servlet_new (pos 8) none) (λ i. i) one_thread (pos 3)
      (server_new config) refl refl

-- Two signals come in.
abbrev two_signals : BootCalls
two_signals = record {
  listen_calls = record bind_fails { bound = true };
  handle = λ i. i;
  created = λ i. some (i + 40);
  default_threads = pos 8;
  uninitialised = none;
  signal_count = 2;
}

abbrev boot_config : BootConfig
boot_config = record { socket_config = config; num_accept_threads = pos 3; userdata = some 5 }

abbrev a_byte : ℕ → Bytes
a_byte zero = []
a_byte (suc n) = 65 ∷ []

a_byte-le : (n : ℕ) → length (a_byte n) ≤ n
a_byte-le zero = omega arith
a_byte-le (suc n) = omega arith

a_byte-sent :
    (n c : ℕ) → 0 < n → ◌≡◌ {A = Option Bytes × ℕ} (some (a_byte n), c + 1) (some (65 ∷ []), c + 1)
a_byte-sent zero c h = absurd (omega arith)
a_byte-sent (suc n) c h = refl

-- A peer that sends a byte at a time.
abbrev byte_env : Env
byte_env = record {
  max_header_size = 64;
  max_headers_count = 4;
  realloc = λ block n. none;
  Conn = ℕ;
  recv = λ c n. (some (a_byte n), c + 1);
  send = λ c bs. (some 0, c);
}

byte_laws : Laws byte_env
byte_laws = record {
  sent = λ c. [];
  recv_le =
      λ c n bs c' e. (let same : a_byte n ≡ bs = cc in omega (arith, a_byte-le n, ap length same));
  recv_keeps = λ c n. refl;
  send_takes =
      λ c bs k c' e. (let same : 0 ≡ k = cc in (omega (arith, same), ap (λ j. take j bs) same));
  send_fails = λ c bs c' e. refl;
}

recv_all_loop-whole_example :
    (got : Bytes) × (c' : ℕ) × (recv_all_loop byte_env 4 0 3 3 [] ≡ ret (3, [] ++ got, c'))
    × (length got ≡ 3)
recv_all_loop-whole_example =
    recv_all_loop-whole byte_env byte_laws
      (λ c n h. (65 ∷ [], c + 1, a_byte-sent n c h, omega arith)) 4 0 3 3 [] (omega arith)

abbrev closed_env : Env
closed_env = record byte_env { recv = λ c n. (some [], c) }

recv_all_loop-hang_example : recv_all_loop closed_env 9 0 3 3 [] ≡ hang
recv_all_loop-hang_example = recv_all_loop-hang closed_env 9 0 3 3 [] (λ n. refl) (omega arith)
