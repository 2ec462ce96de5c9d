-- ===== src/Tests/Line.antt =====
-- A connection to test with: what the peer sends, and how much each send takes.
use highway.Prelude.{
  ℕ, ◌≤◌, ◌≡◌, refl, sym, ap, ◌∙◌, List, [], ◌∷◌, ◌++◌, Bytes, length, length-take, take, drop,
  Option, none, some, arith, ltb, if◌then◌else◌,
}
use highway.Env.{Env, Laws}

pub record Line : Type 0 where
  -- how many bytes the next sends take at most; later ones take all
  pub quotas : List ℕ
  pub taken : Bytes
  pub inbox : Bytes

abbrev pub least : ℕ → ℕ → ℕ
least a b = if ltb a b then a else b

abbrev pub line_send : List ℕ → Bytes → Bytes → Bytes → Option ℕ × Line
line_send [] taken inbox bs =
    (some (length bs), record { quotas = []; taken = taken ++ take (length bs) bs; inbox = inbox })
line_send (q ∷ quotas) taken inbox bs = (
  some (least q (length bs)),
  record { quotas = quotas; taken = taken ++ take (least q (length bs)) bs; inbox = inbox },
)

-- A build with room for 64 bytes of header and four headers.
abbrev pub line_env : Env
line_env = record {
  max_header_size = 64;
  max_headers_count = 4;
  realloc = λ block n. none;
  Conn = Line;
  recv = λ c n. (some (take n c.inbox), record c { inbox = drop n c.inbox });
  send = λ c bs. line_send c.quotas c.taken c.inbox bs;
}

pub line_send-takes :
    (quotas : List ℕ) (taken inbox bs : Bytes) (k : ℕ) (c' : Line)
    → line_send quotas taken inbox bs ≡ (some k, c')
    → (k ≤ length bs) × (c'.taken ≡ taken ++ take k bs)
line_send-takes [] taken inbox bs k c' e =
    let k_is : length bs ≡ k = cc in
    (omega arith, sym (ap (λ r. r.1.taken) e) ∙ ap (λ j. taken ++ take j bs) k_is)
line_send-takes (q ∷ quotas) taken inbox bs k c' e =
    let k_is : least q (length bs) ≡ k = cc in
    (ground arith, sym (ap (λ r. r.1.taken) e) ∙ ap (λ j. taken ++ take j bs) k_is)

pub line_send-never_fails :
    (quotas : List ℕ) (taken inbox bs : Bytes) (c' : Line)
    → line_send quotas taken inbox bs ≡ (none, c')
    → c'.taken ≡ taken
line_send-never_fails [] taken inbox bs c' e = cc
line_send-never_fails (q ∷ quotas) taken inbox bs c' e = cc

unfoldable pub line_laws : Laws line_env
line_laws = record {
  sent = λ c. c.taken;
  recv_le = λ c n bs c' e.
      (let same : take n c.inbox ≡ bs = cc in
        let size : length (take n c.inbox) ≡ length bs = ap length same in
        omega (arith, length-take n c.inbox, size));
  recv_keeps = λ c n. refl;
  send_takes = λ c bs k c' e. line_send-takes c.quotas c.taken c.inbox bs k c' e;
  send_fails = λ c bs c' e. line_send-never_fails c.quotas c.taken c.inbox bs c' e;
}
