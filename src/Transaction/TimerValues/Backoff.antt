-- ===== src/Transaction/TimerValues/Backoff.antt =====
-- The retransmit intervals that `next_retransmit` gives, one after the other.
use rsiprtp.Common.{ℕ, suc, ◌*◌, ◌^◌, ◌≤◌, min, ◌≡◌, ap, arith}
use rsiprtp.Transaction.TimerValues.{TimerValues, Duration, next_retransmit}
use native.Mathlib.Nat.{pow-suc}

-- The interval after `n` retransmissions, as RFC 3261 writes it.
abbrev pub backoff : TimerValues → ℕ → Duration
backoff v n = min (v.t1 * 2 ^ n) v.t2

-- The next interval after the `n`-th is the one after it.
pub next_retransmit-backoff :
    (v : TimerValues) (n : ℕ) → next_retransmit v (backoff v n) ≡ backoff v (suc n)
unfolding next_retransmit
next_retransmit-backoff v n = omega (arith, ap (λ (t : ℕ). v.t1 * t) (pow-suc 2 n))

-- The first interval is T1.
pub backoff-zero : (v : TimerValues) → v.t1 ≤ v.t2 → backoff v 0 ≡ v.t1
backoff-zero v h = omega arith
