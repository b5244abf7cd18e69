-- ===== src/Rtp/Sequence.antt =====
-- The comparison of 16-bit sequence numbers, crates/rsiprtp/src/rtp/packet.rs.
use rsiprtp.Common.{ℕ, ◌+◌, ◌-◌, ◌%◌, ◌<◌, ◌≡◌, Bool, false, ◌&&◌, ltb, if◌then◌else◌, arith}

-- An i32: `pos n` is n and `negsuc n` is -1 - n.
pub data ℤ : Type 0 where
  pos negsuc : ℕ → ℤ

-- `as i16 as i32` on a u16.
abbrev pub as_i16 : ℕ → ℤ
as_i16 n = if ltb n 32768 then pos n else negsuc (65535 - n)

unfoldable pub sequence_diff : ℕ → ℕ → ℤ
sequence_diff a b = as_i16 ((a + 65536 - b) % 65536)

-- `> 0`.
abbrev pub is_positive : ℤ → Bool
is_positive (pos n) = ltb 0 n
is_positive (negsuc n) = false

unfoldable pub sequence_newer : ℕ → ℕ → Bool
sequence_newer a b = is_positive (sequence_diff a b)

-- The sequence number `d` after `b`, with wrap-around, is newer than `b` exactly if `d` lies from 1 to
-- 32767, and `b` is newer than it exactly if `d` lies from 32769 to 65535.
pub newer_iff :
    (b d : ℕ)
    → b < 65536
    → d < 65536
    → (sequence_newer ((b + d) % 65536) b ≡ (ltb 0 d && ltb d 32768))
      × (sequence_newer b ((b + d) % 65536) ≡ ltb 32768 d)
unfolding sequence_newer sequence_diff
newer_iff b d hb hd = (ground arith, ground arith)
