-- ===== src/Rtp/Session/Late.antt =====
-- Packets that come late or twice, in the counts of crates/rsiprtp/src/rtp/session.rs.
use rsiprtp.Common.{
  ◌-◌, ◌%◌, ltb, Bool, ◌&&◌, if◌then◌else◌, true, ℕ, ◌+◌, ◌*◌, ◌<◌, ◌≤◌, List, [], ◌∷◌, length, ◌≡◌,
  arith,
}
use rsiprtp.Rtp.Packet.{RtpPacket}
use rsiprtp.Rtp.Sequence.{sequence_diff}
use rsiprtp.Rtp.Session.{
  Floats, nothing_received, RtpSession, advance, note_sequence, receive_packet,
}

-- The sequence number `a` lies from 1 to 32767 after `b`, with wrap-around.
abbrev pub newer : ℕ → ℕ → Bool
newer a b = let d = (a + 65536 - b) % 65536 in ltb 0 d && ltb d 32768

-- The packets after the first one whose sequence number is not newer than the highest one before them,
-- which starts with that of the first.
abbrev pub late_after : ℕ → List (ℕ × RtpPacket) → ℕ
late_after highest [] = 0
late_after highest ((now, p) ∷ ps) =
    let is_newer = newer p.sequence_number highest in
    late_after (if is_newer then p.sequence_number else highest) ps + (if is_newer then 0 else 1)

abbrev pub late_packets : List (ℕ × RtpPacket) → ℕ
late_packets [] = 0
late_packets ((now, p) ∷ ps) = late_after p.sequence_number ps

module _ (F : Floats) where
  unfoldable pub receive_all : List (ℕ × RtpPacket) → RtpSession → RtpSession
  receive_all [] s = s
  receive_all ((now, p) ∷ ps) s = receive_all ps (receive_packet F now p s)

  advance_bound : (a b : ℕ) → advance (sequence_diff a b) < 32768
  unfolding sequence_diff
  advance_bound a b = ground arith

  -- One packet on top of a receiver that has started.
  take_any :
      (now : ℕ) (p : RtpPacket) (r : RtpSession)
      → r.receiver_state.initialized ≡ true
      → r.receiver_state.packets_received < 9223372036854775808
      → r.receiver_state.packets_lost + 32768 < 18446744073709551616
      → r.receiver_state.expected_packets + 32768 < 18446744073709551616
      → let old = r.receiver_state in
        let new = (receive_packet F now p r).receiver_state in
        let is_newer = newer p.sequence_number old.max_seq in
        (new.initialized ≡ true)
        × (new.max_seq ≡ (if is_newer then p.sequence_number else old.max_seq))
        × (new.packets_received ≡ old.packets_received + 1)
        × (new.packets_lost ≤ old.packets_lost + 32767)
        × (new.expected_packets ≤ old.expected_packets + 32767)
        × (new.packets_lost + 1 + old.expected_packets
            ≡ old.packets_lost + new.expected_packets + (if is_newer then 0 else 1))
  unfolding receive_packet note_sequence sequence_diff
  take_any now p r started a b c =
      ground (arith, advance_bound p.sequence_number r.receiver_state.max_seq)

  account_on :
      (ps : List (ℕ × RtpPacket)) (s : RtpSession) (late : ℕ)
      → let r = s.receiver_state in
        r.initialized ≡ true
        → r.packets_received + length ps < 281474976710656
        → r.packets_lost ≤ 32768 * r.packets_received
        → r.expected_packets ≤ 32768 * r.packets_received
        → r.packets_received + r.packets_lost ≡ r.expected_packets + late
        → let e = (receive_all ps s).receiver_state in
          e.packets_received + e.packets_lost ≡ e.expected_packets + late + late_after r.max_seq ps
  unfolding receive_all
  account_on [] s late started room a b c = ground arith
  account_on ((now, p) ∷ ps) s late started room a b c =
      let r = s.receiver_state in
      let extra : ℕ = if newer p.sequence_number r.max_seq then 0 else 1 in
      ground (arith, take_any now p s, account_on ps (receive_packet F now p s) (late + extra))

  -- Of up to 2^48 packets that a session receives that has received nothing, the received and the lost
  -- ones together are the expected ones and those that were not newer than the highest one before
  -- them: a packet that comes late has been counted as lost, and stays so.
  pub late_stays_lost :
      (ps : List (ℕ × RtpPacket)) (s : RtpSession)
      → length ps < 281474976710656
      → s.receiver_state ≡ nothing_received
      → let e = (receive_all ps s).receiver_state in
        e.packets_received + e.packets_lost ≡ e.expected_packets + late_packets ps
  unfolding receive_all receive_packet
  late_stays_lost [] s room fresh = ground arith
  late_stays_lost ((now, p) ∷ ps) s room fresh =
      ground (arith, account_on ps (receive_packet F now p s) 0)
