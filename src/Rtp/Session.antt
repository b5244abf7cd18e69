-- ===== src/Rtp/Session.antt =====
-- An RTP session, crates/rsiprtp/src/rtp/session.rs: the numbering of the packets that are sent and the
-- statistics of those that are received. A time is a number of nanoseconds, and `now` is an argument; so
-- are the random first sequence number and timestamp.
pub mod Losses
pub mod Late
mod Examples
use rsiprtp.Common.{
  ℕ, ◌+◌, ◌-◌, ◌%◌, ◌/◌, List, [], ◌∷◌, min, Bool, true, false, Option, none, some, ltb,
  if◌then◌else◌, length,
}
use rsiprtp.Rtp.Packet as Packet
use rsiprtp.Rtp.Packet.{RtpPacket}
use rsiprtp.Rtp.Sequence.{ℤ, pos, negsuc, sequence_diff, is_positive}

-- Floating-point arithmetic: a duration in samples of a clock rate, as an i32 and as a u32, which
-- a cast from a float saturates; and 256 times the ratio of two counts, as a u8.
pub record Floats : Type 0 where
  pub samples_i32 : ℕ → ℕ → ℕ
  pub samples_u32 : ℕ → ℕ → ℕ
  pub fraction : ℕ → ℕ → ℕ

pub record ReceiverState : Type 0 where
  pub max_seq : ℕ
  pub base_seq : ℕ
  pub initialized : Bool
  pub packets_received : ℕ
  pub packets_lost : ℕ
  pub expected_packets : ℕ
  pub last_timestamp : ℕ
  pub jitter : ℕ
  pub last_arrival : Option ℕ

-- `ReceiverState::default()`.
abbrev pub nothing_received : ReceiverState
nothing_received = record {
  max_seq = 0;
  base_seq = 0;
  initialized = false;
  packets_received = 0;
  packets_lost = 0;
  expected_packets = 0;
  last_timestamp = 0;
  jitter = 0;
  last_arrival = none;
}

pub record RtpSession : Type 0 where
  pub ssrc : ℕ
  pub payload_type : ℕ
  pub clock_rate : ℕ
  pub next_seq : ℕ
  pub current_timestamp : ℕ
  pub packets_sent : ℕ
  pub octets_sent : ℕ
  pub start_time : ℕ
  pub receiver_state : ReceiverState

unfoldable pub new : ℕ → ℕ → ℕ → ℕ → ℕ → ℕ → RtpSession
new ssrc payload_type clock_rate initial_seq initial_ts now = record {
  ssrc = ssrc;
  payload_type = payload_type;
  clock_rate = clock_rate;
  next_seq = initial_seq;
  current_timestamp = initial_ts;
  packets_sent = 0;
  octets_sent = 0;
  start_time = now;
  receiver_state = nothing_received;
}

abbrev pub add_u64 : ℕ → ℕ → ℕ
add_u64 a b = (a + b) % 18446744073709551616

unfoldable pub create_packet_at : List ℕ → ℕ → Bool → RtpSession → RtpPacket × RtpSession
create_packet_at payload timestamp marker s =
    let packet = Packet.new s.payload_type s.next_seq timestamp s.ssrc in
    (
      Packet.with_payload payload (Packet.with_marker marker packet),
      record s {
        next_seq = (s.next_seq + 1) % 65536;
        current_timestamp = timestamp;
        packets_sent = add_u64 s.packets_sent 1;
        octets_sent = add_u64 s.octets_sent (length payload);
      },
    )

unfoldable pub create_packet : List ℕ → ℕ → Bool → RtpSession → RtpPacket × RtpSession
create_packet payload samples marker s =
    let packet = Packet.new s.payload_type s.next_seq s.current_timestamp s.ssrc in
    (
      Packet.with_payload payload (Packet.with_marker marker packet),
      record s {
        next_seq = (s.next_seq + 1) % 65536;
        current_timestamp = (s.current_timestamp + samples) % 4294967296;
        packets_sent = add_u64 s.packets_sent 1;
        octets_sent = add_u64 s.octets_sent (length payload);
      },
    )

-- `as u64` of a difference that is positive.
abbrev pub advance : ℤ → ℕ
advance (pos n) = n
advance (negsuc n) = 0

-- The middle of `receive_packet`: the highest sequence number and the counts of expected and lost ones.
unfoldable pub note_sequence : ℕ → ReceiverState → ReceiverState
note_sequence seq r =
    let diff = sequence_diff seq r.max_seq in
    if is_positive diff
    then (let increase = advance diff in
        let r = record r { expected_packets = add_u64 r.expected_packets increase } in
        let r : ReceiverState =
          if ltb 1 increase
          then record r { packets_lost = add_u64 r.packets_lost (increase - 1) }
          else r in
        record r { max_seq = seq })
    else r

-- `unsigned_abs` of an i32 that is given as a u32.
abbrev pub unsigned_abs : ℕ → ℕ
unsigned_abs n = if ltb n 2147483648 then n else 4294967296 - n

-- The jitter after a packet that arrives so many samples after the last one. The i32 subtractions wrap
-- around, and `>> 4` rounds down, so that the amount of a negative adjustment is rounded up.
unfoldable pub next_jitter : ℕ → ℕ → ReceiverState → ℕ
next_jitter arrival_samples timestamp r =
    let ts_diff = (timestamp + 4294967296 - r.last_timestamp) % 4294967296 in
    let d = unsigned_abs ((arrival_samples + 4294967296 - ts_diff) % 4294967296) in
    let difference = (d + 4294967296 - r.jitter) % 4294967296 in
    if ltb difference 2147483648
    then min (r.jitter + difference / 16) 4294967295
    else r.jitter - (4294967296 - difference + 15) / 16

module _ (F : Floats) where
  unfoldable pub update_timestamp : ℕ → RtpSession → RtpSession
  update_timestamp now s = record s {
    current_timestamp =
        (s.current_timestamp + F.samples_u32 (now - s.start_time) s.clock_rate) % 4294967296;
    start_time = now;
  }

  unfoldable pub receive_packet : ℕ → RtpPacket → RtpSession → RtpSession
  receive_packet now packet s =
      if s.receiver_state.initialized
      then (let r = record s.receiver_state {
        packets_received = add_u64 s.receiver_state.packets_received 1;
      } in
          let r = note_sequence packet.sequence_number r in
          let jitter : ℕ = elim r.last_arrival [
            | none ↦ r.jitter
            | some last ↦ next_jitter (F.samples_i32 (now - last) s.clock_rate) packet.timestamp r
          ] in
          record s {
            receiver_state = record r {
              jitter = jitter;
              last_timestamp = packet.timestamp;
              last_arrival = some now;
            };
          })
      else record s {
        receiver_state = record s.receiver_state {
          base_seq = packet.sequence_number;
          max_seq = packet.sequence_number;
          initialized = true;
          last_timestamp = packet.timestamp;
          last_arrival = some now;
          packets_received = 1;
          expected_packets = 1;
        };
      }

  unfoldable pub timestamp_for_duration : ℕ → RtpSession → ℕ
  timestamp_for_duration duration s =
      (s.current_timestamp + F.samples_u32 duration s.clock_rate) % 4294967296

-- What the reports have of the receiver. `last_sr` and `delay_since_sr` are always 0.
pub record ReportBlock : Type 0 where
  pub ssrc : ℕ
  pub fraction_lost : ℕ
  pub cumulative_lost : ℕ
  pub extended_seq : ℕ
  pub jitter : ℕ

module _ (F : Floats) where
  -- The report block that `create_sender_report` and `create_receiver_report` make alike, the one with
  -- the SSRC 0.
  unfoldable pub report_blocks : ℕ → ReceiverState → List ReportBlock
  report_blocks ssrc r =
      if r.initialized
      then (record {
        ssrc = ssrc;
        fraction_lost =
            if ltb 0 r.expected_packets then F.fraction r.packets_lost r.expected_packets else 0;
        cumulative_lost = min r.packets_lost 8388607;
        extended_seq = r.max_seq;
        jitter = r.jitter;
      }
          ∷ [])
      else []
