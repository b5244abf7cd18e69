-- ===== src/Rtp/Dtmf/Described.antt =====
-- The packets for one digit, written out, and `generate_packets` of crates/rsiprtp/src/rtp/dtmf.rs.
use rsiprtp.Common.{
  ℕ, zero, suc, ◌+◌, ◌-◌, ◌*◌, ◌/◌, ◌%◌, ◌<◌, ◌≤◌, ◌≡◌, refl, List, [], ◌∷◌, map, true, false, none,
  some, Bool-cases, inl, inr, ltb, leb, ◌==◌, if◌then◌else◌, min, max, arith,
}
use rsiprtp.Rtp.Packet.{RtpPacket, build, new, with_marker, with_payload}
use rsiprtp.Rtp.Dtmf.{
  DtmfDigit, digit_zero, one, two, three, four, five, six, seven, eight, nine, star, pound, digit_a,
  digit_b, digit_c, digit_d, event_code, new_event, with_end, encode,
}
use rsiprtp.Rtp.Dtmf.Sender.{DtmfSender, event_at, packet_count, generate_packets}
use rsiprtp.Rtp.Dtmf.Stream.{telephone_packet, telephone_packets, generate_packets-telephone}

-- RFC 4733, table 7.
abbrev pub rfc_code : DtmfDigit → ℕ
rfc_code digit_zero = 0
rfc_code one = 1
rfc_code two = 2
rfc_code three = 3
rfc_code four = 4
rfc_code five = 5
rfc_code six = 6
rfc_code seven = 7
rfc_code eight = 8
rfc_code nine = 9
rfc_code star = 10
rfc_code pound = 11
rfc_code digit_a = 12
rfc_code digit_b = 13
rfc_code digit_c = 14
rfc_code digit_d = 15

-- The whole packets of 50 ms in a digit's duration, at least one; the product is one of u32.
abbrev pub rounds : ℕ → ℕ → ℕ
rounds rate duration_ms = max (duration_ms * rate % 4294967296 / 1000 / (rate / 20)) 1

-- How long the event has lasted at the end of the `k`-th packet, in samples.
abbrev pub lasted : ℕ → ℕ → ℕ → ℕ
lasted samples count k = min (min (k + 1) count * samples % 4294967296) 65535

-- The code, the end flag with the volume 10, and the duration in two bytes.
abbrev pub event_bytes : DtmfDigit → ℕ → ℕ → ℕ → List ℕ
event_bytes digit samples count k =
    rfc_code digit
    ∷ (if ltb (k + 1) count then 10 else 138)
    ∷ (lasted samples count k / 256)
    ∷ (lasted samples count k % 256)
    ∷ []

-- The `k`-th packet for a digit that takes `count` rounds.
abbrev pub described_packet : DtmfSender → DtmfDigit → ℕ → ℕ → ℕ → RtpPacket
described_packet s digit timestamp count k = record {
  version = 2;
  padding = false;
  extension = false;
  marker = k == 0;
  payload_type = s.payload_type;
  sequence_number = (s.sequence + k) % 65536;
  timestamp = timestamp;
  ssrc = s.ssrc;
  csrc = [];
  extension_header = none;
  payload = event_bytes digit (s.sample_rate / 20) count k;
}

-- The packets from the `k`-th on.
abbrev pub described_packets : DtmfSender → DtmfDigit → ℕ → ℕ → ℕ → ℕ → List RtpPacket
described_packets s digit timestamp count k zero = []
described_packets s digit timestamp count k (suc todo) =
    described_packet s digit timestamp count k
    ∷ described_packets s digit timestamp count (k + 1) todo

event_code-rfc : (digit : DtmfDigit) → event_code digit ≡ rfc_code digit
unfolding event_code
event_code-rfc digit = ground arith

encode-event_at :
    (digit : DtmfDigit) (samples count k : ℕ)
    → 1 ≤ count
    → encode (event_at digit samples (min k (count - 1)) (leb (count - 1) k))
      ≡ event_bytes digit samples count k
unfolding encode event_at new_event with_end
encode-event_at digit samples count k h =
    let round : min k (count - 1) + 1 ≡ min (k + 1) count = omega arith in
    elim (Bool-cases (ltb (k + 1) count)) [
      | inl more ↦
          let early : leb (count - 1) k ≡ false = ground arith in
          rw (early, more, round, event_code-rfc digit) (ground arith)
      | inr over ↦
          let late : leb (count - 1) k ≡ true = ground arith in
          rw (late, over, round, event_code-rfc digit) (ground arith)
    ]

telephone_packet-described :
    (s : DtmfSender) (digit : DtmfDigit) (timestamp count k : ℕ)
    → 1 ≤ count
    → telephone_packet s digit (s.sample_rate / 20) timestamp count k
      ≡ described_packet s digit timestamp count k
unfolding new with_marker with_payload
telephone_packet-described s digit timestamp count k h =
    rw (encode-event_at digit (s.sample_rate / 20) count k h) refl

telephone_packets-described :
    (s : DtmfSender) (digit : DtmfDigit) (timestamp count k todo : ℕ)
    → 1 ≤ count
    → telephone_packets s digit (s.sample_rate / 20) timestamp count k todo
      ≡ described_packets s digit timestamp count k todo
telephone_packets-described s digit timestamp count k zero h = refl
telephone_packets-described s digit timestamp count k (suc todo) h =
    rw
      (
        telephone_packet-described s digit timestamp count k h,
        telephone_packets-described s digit timestamp count (k + 1) todo h,
      )
      refl

-- At a sample rate of at least 20 Hz `generate_packets` sends the packets that the description lists,
-- as `RtpPacket::build` writes them: in the arithmetic of u32,
-- one for each 50 ms of the digit, at least one, and two more. Each
-- has the code of the digit, the volume 10 and how long the event has lasted so far, up to 65535
-- samples. They have consecutive sequence numbers with wrap-around, the first one alone has the marker,
-- and the last three have the end flag; the next sequence number is the one after them.
pub generate_packets_lem :
    (digit : DtmfDigit) (duration_ms timestamp : ℕ) (s : DtmfSender)
    → s.payload_type < 128
    → s.sequence < 65536
    → 20 ≤ s.sample_rate
    → let count = rounds s.sample_rate duration_ms in
      generate_packets digit duration_ms timestamp s
      ≡ some (
        map build (described_packets s digit timestamp count 0 (count + 2)),
        record s { sequence = (s.sequence + (count + 2)) % 65536 },
      )
unfolding packet_count
generate_packets_lem digit duration_ms timestamp s ht hs hr =
    let count = rounds s.sample_rate duration_ms in
    rw
      (
        generate_packets-telephone digit duration_ms timestamp s ht hs hr,
        telephone_packets-described s digit timestamp count 0 (count + 2) (omega arith),
      )
      refl
