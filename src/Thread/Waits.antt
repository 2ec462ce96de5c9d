-- ===== src/Thread/Waits.antt =====
-- The timed wait of a critical section in core/src/hiw_thread.c, in the build for POSIX systems.
use highway.Prelude.{ℕ, ◌+◌, ◌*◌, ◌/◌, ◌%◌, ◌≤◌, ◌≡◌, ◌≢◌, ap, ◌∙◌, Bool, true, not, ◌==◌, ==-ne}

-- `struct timespec`
pub record Timespec : Type 0 where
  pub tv_sec : ℕ
  pub tv_nsec : ℕ

-- INFINITE, which is INT_MAX.
abbrev pub infinite : ℕ
infinite = 2147483647

-- The time that `pthread_cond_timedwait` is given, from the time of the clock. The timeout is not
-- negative.
unfoldable pub deadline : Timespec → ℕ → Timespec
deadline now timeout = record {
  tv_sec = now.tv_sec + timeout / 1000;
  tv_nsec = now.tv_nsec + timeout % 1000 * 1000000;
}

-- `hiw_thread_critical_sec_wait`; `timedwait` is what `pthread_cond_timedwait` returns, as a `bool`.
unfoldable pub critical_sec_wait : (Timespec → ℕ) → Timespec → ℕ → Bool
unfolding deadline
critical_sec_wait timedwait now timeout = not (timedwait (deadline now timeout) == 0)

-- Where `pthread_cond_timedwait` refuses a time with 1,000,000,000 nanoseconds or more, as it is
-- documented to, a wait whose nanoseconds and those of the clock make a second or more is answered
-- true, as if its timeout were reached, whatever its seconds are.
pub critical_sec_wait-refused :
    (timedwait : Timespec → ℕ) (einval : ℕ) (now : Timespec) (timeout : ℕ)
    → einval ≢ 0
    → ((ts : Timespec) → 1000000000 ≤ ts.tv_nsec → timedwait ts ≡ einval)
    → 1000000000 ≤ now.tv_nsec + timeout % 1000 * 1000000
    → critical_sec_wait timedwait now timeout ≡ true
unfolding critical_sec_wait deadline
critical_sec_wait-refused timedwait einval now timeout ne documented late =
    ap (λ r. not (r == 0)) (documented (deadline now timeout) late) ∙ ap not (==-ne einval 0 ne)
