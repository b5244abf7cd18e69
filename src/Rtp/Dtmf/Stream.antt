-- ===== src/Rtp/Dtmf/Stream.antt =====
-- What `generate_packets` sends for one digit, as a list of RTP packets.
use Prim.Native.Nat.{bit_or}
use rsiprtp.Common.{
  ℕ, zero, suc, ◌+◌, ◌-◌, ◌/◌, ◌%◌, ◌<◌, ◌≤◌, ◌≡◌, refl, ap, List, [], ◌∷◌, map, Bool, true, false,
  some, leb, ◌==◌, ==_iff, if◌then◌else◌, min, every_below, every_below-row, arith,
}
use rsiprtp.Rtp.Packet.{
  RtpPacket, build, new, with_marker, with_payload, first_byte, second_byte, put_csrc,
  put_extension,
}
use rsiprtp.Rtp.Dtmf.{DtmfDigit, DtmfEvent, encode}
use rsiprtp.Rtp.Dtmf.Sender.{
  DtmfSender, build_rtp_packet, advance, repeat_end, event_at, generate_from, packet_count,
  generate_packets,
}

-- The `k`-th of the packets for a digit that takes `count` rounds: the duration grows until the event
-- ends, in the round `count - 1`, and the end is repeated.
abbrev pub telephone_packet : DtmfSender → DtmfDigit → ℕ → ℕ → ℕ → ℕ → RtpPacket
telephone_packet s digit samples timestamp count k =
    with_payload (encode (event_at digit samples (min k (count - 1)) (leb (count - 1) k)))
      (with_marker (k == 0) (new s.payload_type ((s.sequence + k) % 65536) timestamp s.ssrc))

abbrev pub telephone_packets : DtmfSender → DtmfDigit → ℕ → ℕ → ℕ → ℕ → ℕ → List RtpPacket
telephone_packets s digit samples timestamp count k zero = []
telephone_packets s digit samples timestamp count k (suc todo) =
    telephone_packet s digit samples timestamp count k
    ∷ telephone_packets s digit samples timestamp count (k + 1) todo

abbrev pub after : ℕ → DtmfSender → DtmfSender
after n s = record s { sequence = (s.sequence + n) % 65536 }

type_row : (m : Bool) (t : ℕ) → t < 128 → second_byte m t ≡ bit_or (if m then 128 else 0) t
unfolding every_below second_byte
type_row false t h =
    (==_iff _ _).0 (every_below-row (λ t. second_byte false t == bit_or 0 t) 128 t refl h)
type_row true t h =
    (==_iff _ _).0 (every_below-row (λ t. second_byte true t == bit_or 128 t) 128 t refl h)

-- The header that the sender of events writes by hand is the one that `RtpPacket::build` writes.
build_rtp_packet-build :
    (s : DtmfSender) (event : DtmfEvent) (timestamp : ℕ) (marker : Bool)
    → s.payload_type < 128
    → build_rtp_packet s event timestamp marker
      ≡ build (
          with_payload
            (encode event)
            (with_marker marker (new s.payload_type s.sequence timestamp s.ssrc)))
unfolding build_rtp_packet build new with_marker with_payload first_byte put_csrc put_extension
build_rtp_packet-build s event timestamp marker h = rw (type_row marker s.payload_type h) refl

packet_at :
    (s : DtmfSender) (digit : DtmfDigit) (samples timestamp count k i : ℕ) (is_last marker : Bool)
    → s.payload_type < 128
    → i ≡ min k (count - 1)
    → is_last ≡ leb (count - 1) k
    → marker ≡ (k == 0)
    → build_rtp_packet (after k s) (event_at digit samples i is_last) timestamp marker
      ≡ build (telephone_packet s digit samples timestamp count k)
packet_at s digit samples timestamp count k i is_last marker h hi hl hm =
    rw (hi, hl, hm)
      (build_rtp_packet-build (after k s)
        (event_at digit samples (min k (count - 1)) (leb (count - 1) k)) timestamp (k == 0) h)

advance-after : (n : ℕ) (s : DtmfSender) → advance (after n s) ≡ after (n + 1) s
unfolding advance
advance-after n s = ap (λ q. record s { sequence = q }) (omega arith)

last_round :
    (digit : DtmfDigit) (samples timestamp count i : ℕ) (s : DtmfSender)
    → s.payload_type < 128
    → i + 1 ≡ count
    → generate_from digit samples timestamp count 1 i (after i s)
      ≡ (map build (telephone_packets s digit samples timestamp count i 3), after (count + 2) s)
unfolding generate_from repeat_end
last_round digit samples timestamp count i s h e =
    let last : (i == count - 1) ≡ true = ground arith in
    let pos1 : (i + 1 == 0) ≡ false = ground arith in
    let pos2 : (i + 1 + 1 == 0) ≡ false = ground arith in
    let end : i + 1 + 1 + 1 ≡ count + 2 = omega arith in
    rw
      (
        last,
        advance-after i s,
        advance-after (i + 1) s,
        advance-after (i + 1 + 1) s,
        packet_at s digit samples timestamp count i i true (i == 0) h (omega arith) (ground arith)
            refl,
        packet_at s digit samples timestamp count (i + 1) i true false h (omega arith)
            (ground arith) (ground arith),
        packet_at s digit samples timestamp count (i + 1 + 1) i true false h (omega arith)
            (ground arith) (ground arith),
        end,
      )
      refl

earlier_round :
    (digit : DtmfDigit) (samples timestamp count todo i : ℕ) (s : DtmfSender)
    → (i == count - 1) ≡ false
    → let later = generate_from digit samples timestamp count todo (i + 1) (advance s) in
      generate_from digit samples timestamp count (suc todo) i s
      ≡ (build_rtp_packet s (event_at digit samples i false) timestamp (i == 0) ∷ later.0, later.1)
unfolding generate_from repeat_end
earlier_round digit samples timestamp count todo i s more = rw more refl

generate_from_lem :
    (digit : DtmfDigit) (samples timestamp count todo i : ℕ) (s : DtmfSender)
    → s.payload_type < 128
    → i + suc todo ≡ count
    → generate_from digit samples timestamp count (suc todo) i (after i s) ≡ (
      map build (telephone_packets s digit samples timestamp count i (suc (suc (suc todo)))),
      after (count + 2) s,
    )
generate_from_lem digit samples timestamp count zero i s h e =
    last_round digit samples timestamp count i s h e
generate_from_lem digit samples timestamp count (suc todo) i s h e =
    rw
      (
        earlier_round digit samples timestamp count (suc todo) i (after i s) (ground arith),
        advance-after i s,
        packet_at s digit samples timestamp count i i false (i == 0) h (omega arith) (ground arith)
            refl,
        generate_from_lem digit samples timestamp count todo (i + 1) s h (omega arith),
      )
      refl

pub generate_packets-telephone :
    (digit : DtmfDigit) (duration_ms timestamp : ℕ) (s : DtmfSender)
    → s.payload_type < 128
    → s.sequence < 65536
    → 20 ≤ s.sample_rate
    → let count = packet_count s.sample_rate duration_ms in
      generate_packets digit duration_ms timestamp s
      ≡ some (
        map build (telephone_packets s digit (s.sample_rate / 20) timestamp count 0 (count + 2)),
        after (count + 2) s,
      )
unfolding generate_packets packet_count
generate_packets-telephone digit duration_ms timestamp s ht hs hr =
    let count = packet_count s.sample_rate duration_ms in
    let divides : (s.sample_rate / 20 == 0) ≡ false = ground arith in
    let one_more : count ≡ suc (count - 1) = omega arith in
    let all : suc (suc (suc (count - 1))) ≡ count + 2 = omega arith in
    let start : s ≡ after 0 s = ap (λ q. record s { sequence = q }) (omega arith) in
    let rounds =
      generate_from_lem digit (s.sample_rate / 20) timestamp count (count - 1) 0 s ht
        (omega arith) in
    rw divides (cc)
