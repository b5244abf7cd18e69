-- ===== src/Media/Jitter.antt =====
-- The jitter buffer, crates/rsiprtp/src/media/jitter.rs: packets by timestamp, taken out in order of
-- their timestamps. The map is a list of entries, of which `keys().next()` is the least key.
mod Values
pub mod Delay
pub mod Run
pub mod Calls
pub mod Frames
pub mod Accounting
pub mod Order
pub mod Reorder
pub mod Skip
mod Examples
pub use Values.{
  Floats, JitterBufferConfig, BufferedPacket, PlayoutDecision, play, expand, conceal, accelerate,
  silence, JitterStats, g711,
}
unfoldable pub use Values.{
  ms_to_samples, samples_to_ms, timestamp_diff, timestamp_before, new_target, adapted, is_late,
  track_sequence,
}
use rsiprtp.Common.{
  ℕ, suc, ◌+◌, ◌-◌, ◌*◌, ◌/◌, ◌%◌, min, max, List, [], ◌∷◌, length, replicate, Bool, true, false,
  Option, none, some, if◌then◌else◌, ltb, leb, ◌==◌, lookup, insert, remove, number_key,
}
use rsiprtp.Rtp.Sequence.{ℤ, pos, negsuc, sequence_diff, is_positive}
use Values.{add_one, as_i32, is_negative, lebℤ, distance}

pub record JitterBuffer (F : Floats) : Type 0 where
  pub config : JitterBufferConfig
  pub packets : List (ℕ × BufferedPacket)
  pub target_delay : ℕ
  pub jitter : F.F64
  pub next_seq : Option ℕ
  pub next_playout_ts : Option ℕ
  pub last_arrival : Option (ℕ × ℕ)
  pub stats : JitterStats F
  pub last_samples : List ℤ
  pub primed : Bool
  pub first_packet_time : Option ℕ

module _ {ℓ} {V : Type ℓ} where
  unfoldable pub first_key : List (ℕ × V) → Option ℕ
  first_key [] = none
  first_key ((k, v) ∷ d) = elim (first_key d) [ none ↦ some k | some j ↦ some (min k j) ]

module _ (F : Floats) where
  unfoldable pub new : JitterBufferConfig → JitterBuffer F
  new config = record {
    config = config;
    packets = [];
    target_delay = ms_to_samples config config.initial_delay_ms;
    jitter = F.zero_f64;
    next_seq = none;
    next_playout_ts = none;
    last_arrival = none;
    stats = record {
      packets_received = 0;
      packets_played = 0;
      packets_lost = 0;
      packets_late = 0;
      packets_duplicate = 0;
      buffer_depth = 0;
      target_delay_ms = 0;
      jitter_ms = F.zero_f64;
    };
    last_samples = replicate config.samples_per_packet (pos 0);
    primed = false;
    first_packet_time = none;
  }

  unfoldable pub fade : ℕ → ℕ → List ℤ → List ℤ
  fade i len [] = []
  fade i len (sample ∷ samples) =
      let factor = F.sub_f32 F.one (F.mul_f32 (F.div_f32 (F.as_f32 i) (F.as_f32 len)) F.half) in
      F.as_i16 (F.mul_f32 (F.i16_as_f32 sample) factor) ∷ fade (suc i) len samples

module _ {F : Floats} where
  unfoldable pub adapt_delay : JitterBuffer F → Option (JitterBuffer F)
  adapt_delay b =
      let delay = adapted (new_target b.config (F.as_u32 b.jitter)) b.target_delay in
      elim (samples_to_ms b.config delay) [
        | none ↦ none
        | some ms ↦ some (record b {
          target_delay = delay;
          stats = record b.stats {
            target_delay_ms = ms;
            jitter_ms = F.div (F.mul b.jitter (F.as_f64 1000)) (F.as_f64 b.config.clock_rate);
          };
        })
      ]

  unfoldable pub start_on_first : ℕ → ℕ → ℕ → JitterBuffer F → JitterBuffer F
  start_on_first now sequence timestamp b = elim b.first_packet_time [
    | some t ↦ b
    | none ↦ record b {
      first_packet_time = some now;
      next_seq = some sequence;
      next_playout_ts = some timestamp;
    }
  ]

  unfoldable pub update_jitter : ℕ → ℕ → JitterBuffer F → JitterBuffer F
  update_jitter now timestamp b = elim b.last_arrival [
    | none ↦ record b { last_arrival = some (now, timestamp) }
    | some (last_time, last_ts) ↦
        let arrival_samples =
          F.as_i64 (F.mul (F.as_secs_f64 (now - last_time)) (F.as_f64 b.config.clock_rate)) in
        let d = F.as_f64 (distance arrival_samples (timestamp_diff timestamp last_ts)) in
        record b {
          jitter = F.add b.jitter (F.div (F.sub d b.jitter) (F.as_f64 16));
          last_arrival = some (now, timestamp);
        }
  ]

  unfoldable pub prime : JitterBuffer F → Option (JitterBuffer F)
  prime b =
      if b.primed
      then some b
      else if b.config.samples_per_packet == 0
      then none
      else (let needed = b.target_delay / b.config.samples_per_packet in
          some (record b { primed = leb (max needed 1) (length b.packets) }))

  -- The end of `push`, for a packet that is neither duplicate nor late.
  unfoldable pub store : ℕ → ℕ → ℕ → List ℤ → JitterBuffer F → Option (JitterBuffer F)
  store now sequence timestamp samples b =
      let packet : BufferedPacket = record {
        sequence = sequence;
        timestamp = timestamp;
        samples = samples;
        received_at = now;
      } in
      let b = record b {
        next_seq = track_sequence sequence b.next_seq;
        packets = insert timestamp packet b.packets;
      } in
      elim (adapt_delay b) [ none ↦ none | some b ↦ prime b ]

  -- `push` from the test for a duplicate on.
  unfoldable pub accept : ℕ → ℕ → ℕ → List ℤ → JitterBuffer F → Option (Bool × JitterBuffer F)
  accept now sequence timestamp samples b = elim (lookup timestamp b.packets) [
    | some p ↦ some (
      false,
      record b { stats = record b.stats { packets_duplicate = add_one b.stats.packets_duplicate } },
    )
    | none ↦
        if is_late b.next_playout_ts timestamp
        then some (
          false,
          record b { stats = record b.stats { packets_late = add_one b.stats.packets_late } },
        )
        else elim (store now sequence timestamp samples b) [ none ↦ none | some b ↦ some (true, b) ]
  ]

  -- `now` is `Instant::now()`; `none` is a panic.
  unfoldable pub push : ℕ → ℕ → ℕ → List ℤ → JitterBuffer F → Option (Bool × JitterBuffer F)
  push now sequence timestamp samples b =
      let b = record b {
        stats = record b.stats { packets_received = add_one b.stats.packets_received };
      } in
      accept now sequence timestamp samples
        (update_jitter now timestamp (start_on_first now sequence timestamp b))

  unfoldable pub conceal_packet : JitterBuffer F → List ℤ × JitterBuffer F
  conceal_packet b =
      let concealed = fade F 0 (length b.last_samples) b.last_samples in
      (concealed, record b { last_samples = concealed })

  -- A packet that is played, with its key.
  unfoldable pub play_packet : ℕ → BufferedPacket → JitterBuffer F → JitterBuffer F
  play_packet ts packet b =
      let packets = remove ts b.packets in
      record b {
        packets = packets;
        last_samples = packet.samples;
        stats = record b.stats {
          packets_played = add_one b.stats.packets_played;
          buffer_depth = length packets;
        };
      }

  unfoldable pub lose_packet : JitterBuffer F → PlayoutDecision × List ℤ × JitterBuffer F
  lose_packet b =
      let b = record b { stats = record b.stats { packets_lost = add_one b.stats.packets_lost } } in
      let (concealed, b) = conceal_packet b in
      (conceal, concealed, record b { stats = record b.stats { buffer_depth = length b.packets } })

  -- The part of `pop` without a packet at the playout time: `next_ts` is the least key.
  unfoldable pub skip_or_conceal :
      ℕ → ℕ → JitterBuffer F → Option (PlayoutDecision × List ℤ × JitterBuffer F)
  skip_or_conceal playout_ts next_ts b =
      let gap = timestamp_diff next_ts playout_ts in
      if lebℤ gap (as_i32 b.config.samples_per_packet)
      then some (lose_packet b)
      else if lebℤ gap (as_i32 ((b.target_delay * 2) % 4294967296))
      then some (lose_packet b)
      else elim (lookup next_ts b.packets) [
        | none ↦ none
        | some packet ↦ some (
          accelerate,
          packet.samples,
          play_packet next_ts packet (record b { next_playout_ts = some next_ts }),
        )
      ]

  -- `pop` from the removal at the playout time on.
  unfoldable pub frame_at : ℕ → JitterBuffer F → Option (PlayoutDecision × List ℤ × JitterBuffer F)
  frame_at playout_ts b = elim (lookup playout_ts b.packets) [
    | some packet ↦ some (play, packet.samples, play_packet playout_ts packet b)
    | none ↦ elim (first_key b.packets) [
      | some next_ts ↦ skip_or_conceal playout_ts next_ts b
      | none ↦ some (lose_packet b)
    ]
  ]

  -- `none` is the panic of `expect`.
  unfoldable pub pop : JitterBuffer F → Option (PlayoutDecision × List ℤ × JitterBuffer F)
  pop b =
      let nothing = replicate b.config.samples_per_packet (pos 0) in
      if b.primed
      then elim b.next_playout_ts [
        | none ↦ some (silence, nothing, b)
        | some playout_ts ↦ frame_at playout_ts (record b {
          next_playout_ts = some ((playout_ts + b.config.samples_per_packet) % 4294967296);
        })
      ]
      else some (silence, nothing, b)

  unfoldable pub reset : JitterBuffer F → JitterBuffer F
  reset b = record b {
    packets = [];
    next_seq = none;
    next_playout_ts = none;
    last_arrival = none;
    last_samples = replicate b.config.samples_per_packet (pos 0);
    primed = false;
    first_packet_time = none;
    jitter = F.zero_f64;
    target_delay = ms_to_samples b.config b.config.initial_delay_ms;
  }
