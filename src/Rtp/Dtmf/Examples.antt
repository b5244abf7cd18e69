-- ===== src/Rtp/Dtmf/Examples.antt =====
-- The theorems on telephone events at a digit that is pressed twice, for 80 ms each.
use rsiprtp.Common.{◌%◌, ℕ, ◌+◌, List, [], map, true, ◌&&◌, none, some, arith, ◌≡◌, refl, ◌==◌}
use rsiprtp.Rtp.Packet.{build}
use rsiprtp.Rtp.Dtmf.{five, event_code, DtmfEvent}
use rsiprtp.Rtp.Dtmf.Sender.{DtmfSender, packet_count, generate_packets}
use rsiprtp.Rtp.Dtmf.Receiver.{DtmfReceiver, is_last}
use rsiprtp.Rtp.Dtmf.Stream.{after}
use rsiprtp.Rtp.Dtmf.Described.{described_packets, rounds, generate_packets_lem}
use rsiprtp.Rtp.Dtmf.Delivery.{receive_all, reported, ended, digit_delivered}

abbrev event : DtmfEvent
event = record { digit = five; end = true; volume = 20; duration = 1000 }

abbrev sender : DtmfSender
sender = record { payload_type = 101; ssrc = 305419896; sequence = 65534; sample_rate = 8000 }

abbrev receiver : DtmfReceiver
receiver = record { payload_type = 101; current_event = none; last_event = some five }

generate_packets_lem_example :
    generate_packets five 180 1000 sender
    ≡ some (
      map build (described_packets sender five 1000 (rounds 8000 180) 0 (rounds 8000 180 + 2)),
      record sender { sequence = (65534 + (rounds 8000 180 + 2)) % 65536 },
    )
generate_packets_lem_example =
    generate_packets_lem five 180 1000 sender (omega arith) (omega arith) (omega arith)

digit_delivered_example :
    let count = packet_count 8000 80 in
    (packets : List (List ℕ)) × (generate_packets five 80 1000 sender
      ≡ some (packets, after (count + 2) sender))
    × (receive_all packets receiver
        ≡ (reported ((count == 1) && is_last receiver.last_event five) five, ended five receiver))
digit_delivered_example =
    digit_delivered five 80 1000 sender receiver (omega arith) (omega arith) (omega arith)
      (omega arith) (omega arith) refl

-- A key pressed for 80 ms takes one round, and a second press of it is not reported.
second_press_lost :
    reported ((packet_count 8000 80 == 1) && is_last receiver.last_event five) five ≡ []
unfolding packet_count event_code
second_press_lost = refl
