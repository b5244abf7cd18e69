-- ===== src/Srtp/Rollover.antt =====
-- The roll-over counter: the receiver finds the sender's packet index.
use rsiprtp.Common.{ℕ, ◌+◌, ◌*◌, ◌/◌, ◌%◌, ◌<◌, ◌≡◌, arith}
use rsiprtp.Srtp.Context.{estimate_roc}

-- The counter that the receiver estimates is the one of the sender's packet index `n`, whenever `n` lies
-- less than 2^15 from the index that the receiver holds, on either side, and fits in 48 bits.
pub estimate_roc_lem :
    (v s_l n : ℕ)
    → v < 4294967296
    → s_l < 65536
    → n < 281474976710656
    → n < v * 65536 + s_l + 32768
    → v * 65536 + s_l < n + 32768
    → estimate_roc v s_l (n % 65536) ≡ n / 65536
unfolding estimate_roc
estimate_roc_lem v s_l n hv hs hn above below = ground arith
