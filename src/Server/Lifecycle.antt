-- ===== src/Server/Lifecycle.antt =====
-- The server's socket from start to deletion.
use mathlib.Core.Path.{subst}
use highway.Prelude.{
  if_true, if_false, ◌≡◌, ◌≢◌, refl, sym, ap, ◌∙◌, inl, inr, true, false, List, [], ◌∷◌, ◌++◌,
  append-nil, arith, ◌<◌, ret, >>=-ret, ret-injective, if_cases,
}
use highway.Prelude.Int.{ℤ, eqb_ℤ}
use highway.Server.{
  is_success, server_opened, Opened, err_create, err_bind, err_config, err_listen, err_accept,
  error_socket, ServerError, Server, SocketConfig, ListenCalls, SocketError, invalid_socket,
  inet_addrstrlen, server_new, server_start, server_stop, server_delete,
}
use highway.Server.Sockets.{Settles, listen-Settles}

-- The calls of a program that starts the server only while it does not run: the sockets that are
-- made and those that are shut down, in order.
pub data Calls (s0 : Server) : List ℤ → List ℤ → Server → Type 0 where
  created : Calls s0 [] [] s0
  started :
      {made shut closed : List ℤ} {s s' : Server} {err : ServerError} (calls : ListenCalls)
      → Calls s0 made shut s
      → s.running ≡ false
      → calls.created ≢ invalid_socket
      → server_start s calls ≡ ret (err, s', closed)
      → Calls s0 (made ++ calls.created ∷ []) (shut ++ closed) s'
  stopped :
      {made shut : List ℤ} {s : Server}
      → Calls s0 made shut s
      → Calls s0 made (shut ++ (server_stop s).1) (server_stop s).0

-- A server runs with a socket, or does not run and has none; every socket that was made is shut
-- down, but the one that it runs with.
pub data Accounted (made shut : List ℤ) (s : Server) : Type 0 where
  running :
      s.running ≡ true
      → s.socket ≢ invalid_socket
      → made ≡ shut ++ s.socket ∷ []
      → Accounted made shut s
  idle : s.running ≡ false → s.socket ≡ invalid_socket → made ≡ shut → Accounted made shut s

not_success : (err : SocketError) → err ≢ SocketError.success → is_success err ≡ false
not_success SocketError.success h = absurd (h refl)
not_success err_create h = refl
not_success err_bind h = refl
not_success err_config h = refl
not_success err_listen h = refl
not_success err_accept h = refl

opened-Accounted :
    (shut : List ℤ) (s : Server) (made_now : ℤ) (o : Opened)
    → s.running ≡ false
    → made_now ≢ invalid_socket
    → Settles made_now o
    → Accounted (shut ++ made_now ∷ []) (shut ++ (server_opened s o).2) (server_opened s o).1
unfolding server_opened
opened-Accounted shut s made_now (sock, err, closed) r valid (inl (same, ok, none_shut)) =
    let answer : server_opened s (sock, err, closed)
        ≡ (ServerError.success, record s { socket = sock; running = true }, closed) =
      if_true (is_success err) _ _ (ap (λ x. is_success x) ok) in
    subst (λ a. Accounted (shut ++ made_now ∷ []) (shut ++ a.2) a.1) (sym answer)
      (running refl (λ e. valid (sym same ∙ e))
        (ap (λ x. shut ++ x ∷ []) (sym same)
          ∙ ap (λ x. x ++ sock ∷ []) (sym (append-nil shut) ∙ ap (λ x. shut ++ x) (sym none_shut))))
opened-Accounted shut s made_now (sock, err, closed) r valid (inr (lost, bad, one_shut)) =
    let answer : server_opened s (sock, err, closed)
        ≡ (error_socket, record s { socket = sock }, closed) =
      if_false (is_success err) _ _ (not_success err bad) in
    subst (λ a. Accounted (shut ++ made_now ∷ []) (shut ++ a.2) a.1) (sym answer)
      (idle r lost (ap (λ x. shut ++ x) (sym one_shut)))

opened_config : (s : Server) (o : Opened) → (server_opened s o).1.config ≡ s.config
unfolding server_opened
opened_config s (sock, err, closed) =
    if_cases (λ (r : ServerError × Server × List ℤ). r.1.config ≡ s.config) (is_success err) _ _
      (λ t. refl) (λ f. refl)

pub stop_ends : (s : Server) → (server_stop s).0.running ≡ false
unfolding server_stop
stop_ends s =
    let Ended : Server × List ℤ → Type 0 = λ r. r.0.running ≡ false in
    if_cases Ended s.running _ _
      (λ t. if_cases Ended (eqb_ℤ s.socket invalid_socket) _ _ (λ u. refl) (λ u. refl)) (λ f. f)

stop_config : (s : Server) → (server_stop s).0.config ≡ s.config
unfolding server_stop
stop_config s =
    let Kept : Server × List ℤ → Type 0 = λ r. r.0.config ≡ s.config in
    if_cases Kept s.running _ _
      (λ t. if_cases Kept (eqb_ℤ s.socket invalid_socket) _ _ (λ u. refl) (λ u. refl)) (λ f. refl)

-- What a start comes to.
pub record Starts (made shut : List ℤ) (s : Server) (calls : ListenCalls) : Type 0 where
  pub err : ServerError
  pub after : Server
  pub closed : List ℤ
  pub answer : server_start s calls ≡ ret (err, after, closed)
  pub accounted : Accounted (made ++ calls.created ∷ []) (shut ++ closed) after
  pub same_config : after.config ≡ s.config

pub start-Starts :
    (made shut : List ℤ) (s : Server) (calls : ListenCalls)
    → Accounted made shut s
    → s.running ≡ false
    → calls.created ≢ invalid_socket
    → s.config.address_length < inet_addrstrlen
    → Starts made shut s calls
unfolding server_start
start-Starts made shut s calls (running r v e) h valid short = absurd cc
start-Starts made shut s calls (idle r v e) h valid short =
    let (o, listens, settles) = listen-Settles s.config calls valid short in
    record {
      err = (server_opened s o).0;
      after = (server_opened s o).1;
      closed = (server_opened s o).2;
      answer = >>=-ret _ _ o listens;
      accounted =
          subst
            (λ x.
              Accounted (x ++ calls.created ∷ []) (shut ++ (server_opened s o).2)
                (server_opened s o).1)
            (sym e) (opened-Accounted shut s calls.created o r valid settles);
      same_config = opened_config s o;
    }

pub stop-Accounted :
    (made shut : List ℤ) (s : Server)
    → Accounted made shut s
    → Accounted made (shut ++ (server_stop s).1) (server_stop s).0
unfolding server_stop
stop-Accounted made shut s (running r v e) =
    let held : eqb_ℤ s.socket invalid_socket ≡ false = ground arith in
    let answer : server_stop s
        ≡ (record s { running = false; socket = invalid_socket }, s.socket ∷ []) =
      if_true s.running _ _ r ∙ if_false (eqb_ℤ s.socket invalid_socket) _ _ held in
    subst (λ a. Accounted made (shut ++ a.1) a.0) (sym answer) (idle refl refl e)
stop-Accounted made shut s (idle r v e) =
    let answer : server_stop s ≡ (s, []) = if_false s.running _ _ r in
    subst (λ a. Accounted made (shut ++ a.1) a.0) (sym answer)
      (idle r v (e ∙ sym (append-nil shut)))

-- What holds of a server that was made with `config`.
record Kept (config : SocketConfig) (made shut : List ℤ) (s : Server) : Type 0 where
  accounted : Accounted made shut s
  same : s.config ≡ config

Calls-Kept :
    (config : SocketConfig) (made shut : List ℤ) (s : Server)
    → config.address_length < inet_addrstrlen
    → Calls (server_new config) made shut s
    → Kept config made shut s
unfolding server_new
Calls-Kept config made shut s short created = record {
  accounted = idle refl refl refl;
  same = refl;
}
Calls-Kept config _ _ _ short
      (started {made} {shut} {closed} {s} {s'} {err} calls before r valid e) =
    let k = Calls-Kept config _ _ _ short before in
    let st =
      start-Starts made shut s calls k.accounted r valid
        (subst (λ c. c.address_length < inet_addrstrlen) (sym k.same) short) in
    let same : ◌≡◌ {A = ServerError × Server × List ℤ} (st.err, st.after, st.closed)
        (err, s', closed) =
      ret-injective (sym st.answer ∙ e) in
    subst (λ a. Kept config (made ++ calls.created ∷ []) (shut ++ a.2) a.1) same
      (record { accounted = st.accounted; same = st.same_config ∙ k.same })
Calls-Kept config _ _ _ short (stopped {made} {shut} {s} before) =
    let k = Calls-Kept config _ _ _ short before in
    record { accounted = stop-Accounted _ _ _ k.accounted; same = stop_config s ∙ k.same }

-- The deletion shuts down what was not.
pub delete-Accounted :
    (made shut : List ℤ) (s : Server) → Accounted made shut s → made ≡ shut ++ server_delete s
unfolding server_delete
delete-Accounted made shut s accounted = elim accounted [
  | running r v e ↦
      let held : eqb_ℤ s.socket invalid_socket ≡ false = ground arith in
      e ∙ ap (λ x. shut ++ x) (sym (if_false (eqb_ℤ s.socket invalid_socket) _ _ held))
  | idle r v e ↦
      e
      ∙ sym (append-nil shut)
      ∙ ap (λ x. shut ++ x)
          (sym (if_true (eqb_ℤ s.socket invalid_socket) _ _ (ap (λ z. eqb_ℤ z invalid_socket) v)))
]

-- Whatever calls a program makes that starts a server only while it does not run, and listens on an
-- address shorter than INET_ADDRSTRLEN: while the server does not run, another start returns, and
-- with its deletion every socket that was made is shut down, once and in the order in which they
-- were made.
pub server_delete-Accounted :
    (config : SocketConfig) (made shut : List ℤ) (s : Server) (calls : ListenCalls)
    → config.address_length < inet_addrstrlen
    → Calls (server_new config) made shut s
    → s.running ≡ false
    → calls.created ≢ invalid_socket
    → ((r : ServerError × Server × List ℤ) × (server_start s calls ≡ ret r))
      × (made ≡ shut ++ server_delete s)
server_delete-Accounted config made shut s calls short before r valid =
    let k = Calls-Kept config made shut s short before in
    let st =
      start-Starts made shut s calls k.accounted r valid
        (subst (λ c. c.address_length < inet_addrstrlen) (sym k.same) short) in
    (((st.err, st.after, st.closed), st.answer), delete-Accounted made shut s k.accounted)
