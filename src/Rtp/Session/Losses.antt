-- ===== src/Rtp/Session/Losses.antt =====
-- The losses that an RTP session counts, crates/rsiprtp/src/rtp/session.rs.
use rsiprtp.Common.{
  ltb, ◌&&◌, Bool, ℕ, ◌+◌, ◌%◌, ◌<◌, List, [], ◌∷◌, true, Option, none, some, Option-cases, inl,
  inr, length, ◌≡◌, arith,
}
use rsiprtp.Rtp.Packet as Packet
use rsiprtp.Rtp.Packet.{RtpPacket}
use rsiprtp.Rtp.Sequence.{pos, sequence_diff}
use rsiprtp.Rtp.Session.{
  Floats, nothing_received, RtpSession, create_packet, note_sequence, receive_packet,
}

-- A frame of the sender, and when its packet arrives, if it does.
pub record Frame : Type 0 where
  pub payload : List ℕ
  pub samples : ℕ
  pub marker : Bool
  pub arrival : Option ℕ

-- The lost frames that have one that arrives before them and one after them; the first argument is the
-- number of frames lost since the last arrival, once there has been one.
abbrev pub lost_between : Option ℕ → List Frame → ℕ
lost_between gap [] = 0
lost_between none (f ∷ fs) = elim f.arrival [
  | none ↦ lost_between none fs
  | some t ↦ lost_between (some 0) fs
]
lost_between (some g) (f ∷ fs) = elim f.arrival [
  | none ↦ lost_between (some (g + 1)) fs
  | some t ↦ g + lost_between (some 0) fs
]

abbrev pub arrived : List Frame → ℕ
arrived [] = 0
arrived (f ∷ fs) = elim f.arrival [ none ↦ arrived fs | some t ↦ arrived fs + 1 ]

-- Fewer than 32767 frames are lost between two that arrive.
abbrev pub short_gaps : Option ℕ → List Frame → Bool
short_gaps gap [] = true
short_gaps none (f ∷ fs) = elim f.arrival [
  | none ↦ short_gaps none fs
  | some t ↦ short_gaps (some 0) fs
]
short_gaps (some g) (f ∷ fs) = elim f.arrival [
  | none ↦ short_gaps (some (g + 1)) fs
  | some t ↦ ltb g 32767 && short_gaps (some 0) fs
]

module _ (F : Floats) where
  -- A sender and a receiver with a network between them that loses packets.
  unfoldable pub transfer : List Frame → RtpSession → RtpSession → RtpSession × RtpSession
  transfer [] s r = (s, r)
  transfer (f ∷ fs) s r =
      let (packet, s) = create_packet f.payload f.samples f.marker s in
      let r : RtpSession = elim f.arrival [ none ↦ r | some t ↦ receive_packet F t packet r ] in
      transfer fs s r

  -- The receiver has started, with this gap since the last packet that it got.
  abbrev Behind : ℕ → ℕ → RtpSession → Type 0
  Behind g next r =
      (r.receiver_state.initialized ≡ true)
      × (r.receiver_state.max_seq < 65536)
      × (next ≡ (r.receiver_state.max_seq + g + 1) % 65536)

  next_newer :
      (max g : ℕ)
      → max < 65536
      → g < 32767
      → sequence_diff ((max + g + 1) % 65536) max ≡ pos (g + 1)
  unfolding sequence_diff
  next_newer max g h k = ground arith

  take_next :
      (now : ℕ) (p : RtpPacket) (r : RtpSession) (g : ℕ)
      → Behind g p.sequence_number r
      → g < 32767
      → r.receiver_state.packets_received < 9223372036854775808
      → r.receiver_state.packets_lost < 9223372036854775808
      → r.receiver_state.expected_packets + g + 1 < 9223372036854775808
      → let old = r.receiver_state in
        let new = (receive_packet F now p r).receiver_state in
        Behind 0 ((p.sequence_number + 1) % 65536) (receive_packet F now p r)
        × (new.packets_received ≡ old.packets_received + 1)
        × (new.packets_lost ≡ old.packets_lost + g)
        × (new.expected_packets ≡ old.expected_packets + g + 1)
  unfolding receive_packet note_sequence
  take_next now p r g (started, low, next) short a b c =
      ground (arith, next_newer r.receiver_state.max_seq g)

  Counted : Option ℕ → List Frame → RtpSession → RtpSession → Type 0
  Counted gap fs r e =
      let old = r.receiver_state in
      let new = e.receiver_state in
      (new.packets_lost ≡ old.packets_lost + lost_between gap fs)
      × (new.packets_received ≡ old.packets_received + arrived fs)
      × (new.packets_received + new.packets_lost ≡ new.expected_packets)

  transfer_on :
      (fs : List Frame) (s r : RtpSession) (g : ℕ)
      → short_gaps (some g) fs ≡ true
      → r.receiver_state.expected_packets + g + length fs < 9223372036854775808
      → r.receiver_state.packets_received + r.receiver_state.packets_lost
        ≡ r.receiver_state.expected_packets
      → Behind g s.next_seq r
      → Counted (some g) fs r (transfer fs s r).1
  unfolding transfer create_packet Counted Packet.new Packet.with_marker Packet.with_payload
  transfer_on [] s r g short room sum b = ground arith
  transfer_on (f ∷ fs) s r g short room sum b =
      let (packet, next) = create_packet f.payload f.samples f.marker s in
      elim (Option-cases f.arrival) [
        | inl gone ↦ ground (arith, transfer_on fs next r (g + 1))
        | inr (now, comes) ↦
            ground (
              arith,
              take_next now packet r g,
              transfer_on fs next (receive_packet F now packet r) 0,
            )
      ]

  first_taken :
      (now : ℕ) (p : RtpPacket) (r : RtpSession)
      → r.receiver_state ≡ nothing_received
      → p.sequence_number < 65536
      → let new = (receive_packet F now p r).receiver_state in
        Behind 0 ((p.sequence_number + 1) % 65536) (receive_packet F now p r)
        × (new.packets_received ≡ 1)
        × (new.packets_lost ≡ 0)
        × (new.expected_packets ≡ 1)
  unfolding receive_packet
  first_taken now p r fresh low = ground arith

  -- Of fewer than 2^63 - 1 frames that one session sends to another that has received nothing, in order,
  -- and of which fewer than 32767 in a row are lost between two that arrive, the receiver counts each one
  -- that arrives as received, each lost one between two that arrive as lost, and expects these and those.
  pub losses_counted :
      (fs : List Frame) (s r : RtpSession)
      → length fs < 9223372036854775807
      → short_gaps none fs ≡ true
      → s.next_seq < 65536
      → r.receiver_state ≡ nothing_received
      → let e = (transfer fs s r).1.receiver_state in
        (e.packets_received ≡ arrived fs)
        × (e.packets_lost ≡ lost_between none fs)
        × (e.expected_packets ≡ arrived fs + lost_between none fs)
  unfolding transfer create_packet Counted Packet.new Packet.with_marker Packet.with_payload
  losses_counted [] s r room short low fresh = ground arith
  losses_counted (f ∷ fs) s r room short low fresh =
      let (packet, next) = create_packet f.payload f.samples f.marker s in
      elim (Option-cases f.arrival) [
        | inl gone ↦ ground (arith, losses_counted fs next r)
        | inr (now, comes) ↦ ground (
          arith,
          first_taken now packet r fresh,
          transfer_on fs next (receive_packet F now packet r) 0,
        )
      ]
