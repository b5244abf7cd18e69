-- ===== src/Rtp/Session/Examples.antt =====
-- Runs of an RTP session: frames of which some are lost, and packets that come out of order.
use rsiprtp.Common.{ℕ, ◌+◌, List, [], ◌∷◌, false, Option, none, some, ◌≡◌, refl, arith}
use rsiprtp.Rtp.Packet as Packet
use rsiprtp.Rtp.Packet.{RtpPacket}
use rsiprtp.Rtp.Session.{Floats, RtpSession, new}
use rsiprtp.Rtp.Session.Losses.{Frame, transfer, arrived, lost_between, losses_counted}
use rsiprtp.Rtp.Session.Late.{receive_all, late_packets, late_stays_lost}

abbrev floats : Floats
floats = record {
  samples_i32 = λ duration rate. 160;
  samples_u32 = λ duration rate. 160;
  fraction = λ a b. 0;
}

abbrev frame : Option ℕ → Frame
frame arrival = record { payload = 1 ∷ []; samples = 160; marker = false; arrival = arrival }

-- The sequence numbers wrap around between the first and the last one.
abbrev frames : List Frame
frames = frame (some 1) ∷ frame none ∷ frame none ∷ frame (some 2) ∷ frame none ∷ []

abbrev sender : RtpSession
sender = new 7 0 8000 65534 0 0

losses_counted_example :
    let e = (transfer floats frames sender sender).1.receiver_state in
    (e.packets_received ≡ arrived frames)
    × (e.packets_lost ≡ lost_between none frames)
    × (e.expected_packets ≡ arrived frames + lost_between none frames)
unfolding new
losses_counted_example =
    losses_counted floats frames sender sender (omega arith) refl (omega arith) refl

abbrev packet : ℕ → RtpPacket
packet seq = Packet.new 0 seq 0 7

-- No packet is lost, but 11 comes after 12.
abbrev swapped : List (ℕ × RtpPacket)
swapped = (1, packet 10) ∷ (2, packet 12) ∷ (3, packet 11) ∷ []

late_stays_lost_example :
    let e = (receive_all floats swapped sender).receiver_state in
    e.packets_received + e.packets_lost ≡ e.expected_packets + late_packets swapped
unfolding new
late_stays_lost_example = late_stays_lost floats swapped sender (omega arith) refl
