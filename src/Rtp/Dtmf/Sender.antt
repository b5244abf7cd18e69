-- ===== src/Rtp/Dtmf/Sender.antt =====
-- The sender of telephone events, crates/rsiprtp/src/rtp/dtmf.rs.
use Prim.Native.Nat.{bit_or}
use rsiprtp.Common.{
  ℕ, zero, suc, ◌+◌, ◌-◌, ◌*◌, ◌/◌, ◌%◌, List, [], ◌∷◌, ◌++◌, Bool, false, Option, none, some, ◌==◌,
  if◌then◌else◌, min, max, be16, be32,
}
use rsiprtp.Rtp.Dtmf.{DtmfDigit, DtmfEvent, new_event, with_end, encode}

pub record DtmfSender : Type 0 where
  pub payload_type : ℕ  -- u8
  pub ssrc : ℕ  -- u32
  pub sequence : ℕ  -- u16
  pub sample_rate : ℕ  -- u32

-- `DtmfSender::new`; `random` is what `rand::random` returns.
unfoldable pub new_sender : ℕ → ℕ → ℕ → DtmfSender
new_sender random payload_type ssrc = record {
  payload_type = payload_type;
  ssrc = ssrc;
  sequence = random;
  sample_rate = 8000;
}

unfoldable pub set_sample_rate : ℕ → DtmfSender → DtmfSender
set_sample_rate rate s = record s { sample_rate = rate }

unfoldable pub build_rtp_packet : DtmfSender → DtmfEvent → ℕ → Bool → List ℕ
build_rtp_packet s event timestamp marker =
    128
    ∷ bit_or (if marker then 128 else 0) s.payload_type
    ∷ (be16 s.sequence ++ (be32 timestamp ++ (be32 s.ssrc ++ encode event)))

-- `self.sequence.wrapping_add(1)`.
unfoldable pub advance : DtmfSender → DtmfSender
advance s = record s { sequence = (s.sequence + 1) % 65536 }

-- The two repetitions of the end packet, each after an increment of the sequence number.
unfoldable pub repeat_end : ℕ → DtmfEvent → ℕ → DtmfSender → List (List ℕ) × DtmfSender
repeat_end zero event timestamp s = ([], s)
repeat_end (suc n) event timestamp s =
    let s = advance s in
    let (packets, last) = repeat_end n event timestamp s in
    (build_rtp_packet s event timestamp false ∷ packets, last)

unfoldable pub event_at : DtmfDigit → ℕ → ℕ → Bool → DtmfEvent
event_at digit samples_per_packet i is_last =
    let event = new_event digit (min ((i + 1) * samples_per_packet % 4294967296) 65535) in
    if is_last then with_end event else event

-- The loop from `i` on, `todo` rounds; the packets in the order of `packets.push`.
unfoldable pub generate_from :
    DtmfDigit → ℕ → ℕ → ℕ → ℕ → ℕ → DtmfSender → List (List ℕ) × DtmfSender
generate_from digit samples_per_packet timestamp packet_count zero i s = ([], s)
generate_from digit samples_per_packet timestamp packet_count (suc todo) i s =
    let is_last = i == packet_count - 1 in
    let event = event_at digit samples_per_packet i is_last in
    let packet = build_rtp_packet s event timestamp (i == 0) in
    let (repeated, s) = repeat_end (if is_last then 2 else 0) event timestamp s in
    let (rest, s) =
      generate_from digit samples_per_packet timestamp packet_count todo (i + 1) (advance s) in
    (packet ∷ (repeated ++ rest), s)

-- `total_samples / samples_per_packet`, at least 1.
unfoldable pub packet_count : ℕ → ℕ → ℕ
packet_count sample_rate duration_ms =
    max (duration_ms * sample_rate % 4294967296 / 1000 / (sample_rate / 20)) 1

-- `none`: the division by zero panics, at a sample rate below 20.
unfoldable pub generate_packets :
    DtmfDigit → ℕ → ℕ → DtmfSender → Option (List (List ℕ) × DtmfSender)
generate_packets digit duration_ms timestamp s =
    let samples_per_packet = s.sample_rate / 20 in
    let count = packet_count s.sample_rate duration_ms in
    if samples_per_packet == 0
    then none
    else some (generate_from digit samples_per_packet timestamp count count 0 s)
