-- ===== src/Client/Delivery.antt =====
-- What `hiw_client_sendall` delivers.
use highway.Prelude.{
  ℕ, zero, suc, ◌+◌, ◌-◌, ◌≤◌, ◌<◌, ◌≡◌, ◌≢◌, refl, sym, ap, ◌∙◌, Bool, true, false, List, [], ◌∷◌,
  ◌++◌, append-nil, append_assoc, Bytes, length, take, Option, none, some, Outcome, ret, arith,
  ap_at, ==-ne, length-take, take-length,
}
use highway.Env.{Env, Laws}
use highway.Client.{socket_send, sendall_loop, client_sendall}

abbrev pub sum : List ℕ → ℕ
sum [] = 0
sum (k ∷ ks) = k + sum ks

-- The first bytes of `src`, as many as each number says, one after another.
abbrev pub prefixes : Bytes → List ℕ → Bytes
prefixes src [] = []
prefixes src (k ∷ ks) = take k src ++ prefixes src ks

take-take : (k n : ℕ) (xs : Bytes) → k ≤ n → take k (take n xs) ≡ take k xs
take-take zero n xs h = refl
take-take (suc k) zero xs h = absurd (omega arith)
take-take (suc k) (suc n) [] h = refl
take-take (suc k) (suc n) (x ∷ xs) h = ap (λ u. x ∷ u) (take-take k n xs (omega arith))

ret-conn :
    {C : Type 0} {c c' : C} → ◌≡◌ {A = Outcome (Bool × C)} (ret (true, c)) (ret (true, c')) → c ≡ c'
ret-conn e = cc

module _ (env : Env) where
  open env use {Conn}

  -- A round of the loop, from the answer of `send` on.
  after_send : ℕ → Bytes → ℕ → Option ℕ × Conn → Outcome (Bool × Conn)
  after_send rounds src left (none, c) = ret (false, c)
  after_send rounds src left (some zero, c) = ret (false, c)
  after_send rounds src left (some (suc n), c) = sendall_loop env rounds c src (left - suc n)

  sendall_loop-round :
      (rounds : ℕ) (c : Conn) (src : Bytes) (left : ℕ)
      → 0 < left
      → left ≤ length src
      → sendall_loop env (suc rounds) c src left
        ≡ after_send rounds src left (env.send c (take left src))
  unfolding sendall_loop socket_send after_send
  sendall_loop-round rounds c src left pos h =
      let offered : length (take left src) ≢ 0 = omega (arith, length-take left src) in
      let sent_on : socket_send env c (take left src) ≡ env.send c (take left src) =
        rw (==-ne (length (take left src)) 0 offered) in
      rw (==-ne left 0 (omega arith))
        (cases (socket_send env c (take left src)) ∙ ap (after_send rounds src left) sent_on)
    where
      cases :
          (took : Option ℕ × Conn)
          → (elim took.0 [
            | none ↦ ret (false, took.1)
            | some zero ↦ ret (false, took.1)
            | some (suc n) ↦ sendall_loop env rounds took.1 src (left - suc n)
          ])
            ≡ after_send rounds src left took
      cases (none, c') = refl
      cases (some zero, c') = refl
      cases (some (suc n), c') = refl

  sendall_loop-end :
      (rounds : ℕ) (c : Conn) (src : Bytes) → sendall_loop env (suc rounds) c src 0 ≡ ret (true, c)
  unfolding sendall_loop
  sendall_loop-end rounds c src = refl

  sendall_loop_total :
      (rounds : ℕ) (c : Conn) (src : Bytes) (left : ℕ)
      → left < rounds
      → left ≤ length src
      → (r : Bool × Conn) × (sendall_loop env rounds c src left ≡ ret r)
  unfolding after_send
  sendall_loop_total zero c src left h fits = absurd (omega arith)
  sendall_loop_total (suc rounds) c src zero h fits = ((true, c), sendall_loop-end rounds c src)
  sendall_loop_total (suc rounds) c src (suc left) h fits =
      rw (sendall_loop-round rounds c src (suc left) (omega arith) fits) (
        split (env.send c (take (suc left) src))
          (λ c' n. sendall_loop_total rounds c' src (suc left - suc n) (omega arith) (omega arith)))
    where
      split :
          (took : Option ℕ × Conn)
          → ((c' : Conn) (n : ℕ)
              → (r : Bool × Conn) × (sendall_loop env rounds c' src (suc left - suc n) ≡ ret r))
          → (r : Bool × Conn) × (after_send rounds src (suc left) took ≡ ret r)
      split (none, c') go = ((false, c'), refl)
      split (some zero, c') go = ((false, c'), refl)
      split (some (suc n), c') go = go c' n

  -- `hiw_client_sendall` returns, whatever `send` answers.
  pub sendall_total :
      (c : Conn) (src : Bytes) → (r : Bool × Conn) × (client_sendall env c src ≡ ret r)
  unfolding client_sendall
  sendall_total c src =
      sendall_loop_total (suc (length src)) c src (length src) (omega arith) (omega arith)

module _ (env : Env) (laws : Laws env) where
  open laws use {sent}

  -- Bytes that are delivered, as numbers of bytes for each send.
  abbrev pub Delivers : env.Conn → env.Conn → Bytes → ℕ → Type 0
  Delivers c c' src left = (ks : List ℕ) × (sum ks ≡ left) × (sent c' ≡ sent c ++ prefixes src ks)

  sendall_loop-Delivers :
      (rounds : ℕ) (c : env.Conn) (src : Bytes) (left : ℕ) (c' : env.Conn)
      → left ≤ length src
      → sendall_loop env rounds c src left ≡ ret (true, c')
      → Delivers c c' src left
  unfolding after_send
  sendall_loop-Delivers zero c src left c' h e = absurd (no_rounds e)
    where
      no_rounds : sendall_loop env 0 c src left ≢ ret (true, c')
      no_rounds = unfold sendall_loop in λ r. cc
  sendall_loop-Delivers (suc rounds) c src zero c' h e =
      let same : ◌≡◌ {A = Outcome (Bool × env.Conn)} (ret (true, c)) (ret (true, c')) =
        sym (sendall_loop-end env rounds c src) ∙ e in
      ([], refl, ap sent (sym (ret-conn same)) ∙ sym (append-nil (sent c)))
  sendall_loop-Delivers (suc rounds) c src (suc left) c' h e =
      split (env.send c (take (suc left) src)) refl
        (sym (sendall_loop-round env rounds c src (suc left) (omega arith) h) ∙ e)
        (λ c1 n. sendall_loop-Delivers rounds c1 src (suc left - suc n) c' (omega arith))
    where
      split :
          (took : Option ℕ × env.Conn)
          → env.send c (take (suc left) src) ≡ took
          → after_send env rounds src (suc left) took ≡ ret (true, c')
          → ((c1 : env.Conn) (n : ℕ)
              → sendall_loop env rounds c1 src (suc left - suc n) ≡ ret (true, c')
              → Delivers c1 c' src (suc left - suc n))
          → Delivers c c' src (suc left)
      split (none, c1) s r go = cc
      split (some zero, c1) s r go = cc
      split (some (suc n), c1) s r go =
          let (fits, now) = laws.send_takes c (take (suc left) src) (suc n) c1 s in
          let (ks, total, later) = go c1 n r in
          let room = length-take (suc left) src in
          (
            suc n ∷ ks,
            omega arith,
            later
                ∙ ap (λ u. u ++ prefixes src ks)
                    (now ∙ ap (λ u. sent c ++ u) (take-take (suc n) (suc left) src (omega arith)))
                ∙ append_assoc (sent c) (take (suc n) src) (prefixes src ks),
          )

  -- Where `hiw_client_sendall` succeeds, what it has delivered is a number of first parts of `src`,
  -- whose lengths add up to that of `src`.
  pub sendall-Delivers :
      (c : env.Conn) (src : Bytes) (c' : env.Conn)
      → client_sendall env c src ≡ ret (true, c')
      → Delivers c c' src (length src)
  unfolding client_sendall
  sendall-Delivers c src c' =
      sendall_loop-Delivers (suc (length src)) c src (length src) c' (omega arith)

  -- One send that takes all of `src` makes the call succeed, and delivers `src`.
  pub sendall_whole :
      (c : env.Conn) (src : Bytes) (c' : env.Conn)
      → 0 < length src
      → env.send c src ≡ (some (length src), c')
      → (client_sendall env c src ≡ ret (true, c')) × (sent c' ≡ sent c ++ src)
  unfolding client_sendall after_send
  sendall_whole c [] c' pos e = absurd (omega arith)
  sendall_whole c (x ∷ src) c' pos e = (
    sendall_loop-round env (length (x ∷ src)) c (x ∷ src) (length (x ∷ src)) pos (omega arith)
        ∙ ap (after_send env (length (x ∷ src)) (x ∷ src) (length (x ∷ src)))
            (ap (env.send c) (take-length (x ∷ src)) ∙ e)
        ∙ ap_at (sendall_loop env (length (x ∷ src)) c' (x ∷ src))
            (length (x ∷ src) - length (x ∷ src)) 0 (omega arith)
        ∙ sendall_loop-end env (length src) c' (x ∷ src),
    (laws.send_takes c (x ∷ src) (length (x ∷ src)) c' e).1
        ∙ ap (λ u. sent c ++ u) (take-length (x ∷ src)),
  )

  -- After a send that takes only `k` bytes, a send that takes all that it is offered makes the call
  -- succeed, and delivers the start of `src` again, where its end should be.
  pub sendall_repeats :
      (c : env.Conn) (src : Bytes) (k : ℕ) (c1 c2 : env.Conn)
      → 0 < k
      → k < length src
      → env.send c src ≡ (some k, c1)
      → env.send c1 (take (length src - k) src) ≡ (some (length src - k), c2)
      → (client_sendall env c src ≡ ret (true, c2))
        × (sent c2 ≡ sent c ++ (take k src ++ take (length src - k) src))
  unfolding client_sendall after_send
  sendall_repeats c src zero c1 c2 pos lt e1 e2 = absurd (omega arith)
  sendall_repeats c [] (suc k) c1 c2 pos lt e1 e2 = absurd (omega arith)
  sendall_repeats c (x ∷ []) (suc k) c1 c2 pos lt e1 e2 = absurd (omega arith)
  sendall_repeats c (x ∷ y ∷ xs) (suc k) c1 c2 pos lt e1 e2 =
      let src = x ∷ y ∷ xs in
      let left = length src - suc k in
      (
        sendall_loop-round env (length src) c src (length src) (omega arith) (omega arith)
            ∙ ap (after_send env (length src) src (length src))
                (ap (env.send c) (take-length src) ∙ e1)
            ∙ sendall_loop-round env (suc (length xs)) c1 src left (omega arith) (omega arith)
            ∙ ap (after_send env (suc (length xs)) src left)
                (e2 ∙ ap_at (λ m. (some m, c2)) left (suc (left - 1)) (omega arith))
            ∙ ap_at (sendall_loop env (suc (length xs)) c2 src) (left - suc (left - 1)) 0
                (omega arith)
            ∙ sendall_loop-end env (length xs) c2 src,
        (laws.send_takes c1 (take left src) left c2 e2).1
            ∙ ap (λ u. u ++ take left (take left src)) ((laws.send_takes c src (suc k) c1 e1).1)
            ∙ append_assoc (sent c) (take (suc k) src) (take left (take left src))
            ∙ ap (λ u. sent c ++ (take (suc k) src ++ u)) (take-take left left src (omega arith)),
      )
