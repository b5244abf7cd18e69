-- ===== src/Media/Jitter/Values.antt =====
-- The configuration, packets and statistics of the jitter buffer, crates/rsiprtp/src/media/jitter.rs,
-- and its arithmetic: u32 wraps around, and i32 is `ℤ`.
use rsiprtp.Common.{
  ℕ, ◌+◌, ◌-◌, ◌*◌, ◌/◌, ◌%◌, ◌<◌, List, Bool, true, false, Option, none, some, if◌then◌else◌, ltb,
  leb, ◌==◌, min, max,
}
use rsiprtp.Rtp.Sequence.{ℤ, pos, negsuc, sequence_diff}

-- The IEEE 754 arithmetic of the language, as far as the buffer uses it. A cast to an integer
-- saturates, so its result is in range.
pub record Floats : Type 1 where
  pub F64 : Type 0
  pub zero_f64 : F64
  pub as_f64 : ℕ → F64
  pub as_secs_f64 : ℕ → F64
  pub add : F64 → F64 → F64
  pub sub : F64 → F64 → F64
  pub mul : F64 → F64 → F64
  pub div : F64 → F64 → F64
  pub as_i64 : F64 → ℤ
  pub as_u32 : F64 → ℕ
  pub F32 : Type 0
  pub one : F32
  pub half : F32
  pub as_f32 : ℕ → F32
  pub i16_as_f32 : ℤ → F32
  pub sub_f32 : F32 → F32 → F32
  pub mul_f32 : F32 → F32 → F32
  pub div_f32 : F32 → F32 → F32
  pub as_i16 : F32 → ℤ
  pub as_u32_lt : (x : F64) → as_u32 x < 4294967296

pub record JitterBufferConfig : Type 0 where
  pub min_delay_ms : ℕ
  pub max_delay_ms : ℕ
  pub initial_delay_ms : ℕ
  pub clock_rate : ℕ
  pub samples_per_packet : ℕ

abbrev pub g711 : JitterBufferConfig
g711 = record {
  min_delay_ms = 20;
  max_delay_ms = 200;
  initial_delay_ms = 60;
  clock_rate = 8000;
  samples_per_packet = 160;
}

unfoldable pub ms_to_samples : JitterBufferConfig → ℕ → ℕ
ms_to_samples config ms = (ms * config.clock_rate) % 4294967296 / 1000

-- `none` is the panic of a division by zero.
unfoldable pub samples_to_ms : JitterBufferConfig → ℕ → Option ℕ
samples_to_ms config samples =
    if config.clock_rate == 0
    then none
    else some ((samples * 1000) % 4294967296 / config.clock_rate)

-- `Instant` is a number of nanoseconds.
pub record BufferedPacket : Type 0 where
  pub sequence : ℕ
  pub timestamp : ℕ
  pub samples : List ℤ
  pub received_at : ℕ

pub data PlayoutDecision : Type 0 where
  play expand conceal accelerate silence : PlayoutDecision

pub record JitterStats (F : Floats) : Type 0 where
  pub packets_received : ℕ
  pub packets_played : ℕ
  pub packets_lost : ℕ
  pub packets_late : ℕ
  pub packets_duplicate : ℕ
  pub buffer_depth : ℕ
  pub target_delay_ms : ℕ
  pub jitter_ms : F.F64

-- `stats.… += 1` on a u64.
abbrev pub add_one : ℕ → ℕ
add_one n = (n + 1) % 18446744073709551616

-- `as i32` on a u32.
abbrev pub as_i32 : ℕ → ℤ
as_i32 n = if ltb n 2147483648 then pos n else negsuc (4294967295 - n)

unfoldable pub timestamp_diff : ℕ → ℕ → ℤ
timestamp_diff a b = as_i32 ((a + 4294967296 - b) % 4294967296)

abbrev pub is_negative : ℤ → Bool
is_negative (pos n) = false
is_negative (negsuc n) = true

unfoldable pub timestamp_before : ℕ → ℕ → Bool
timestamp_before a b = is_negative (timestamp_diff a b)

abbrev pub lebℤ : ℤ → ℤ → Bool
lebℤ (pos a) (pos b) = leb a b
lebℤ (pos a) (negsuc b) = false
lebℤ (negsuc a) (pos b) = true
lebℤ (negsuc a) (negsuc b) = leb b a

-- `(a - b).unsigned_abs()` in i64.
abbrev pub distance : ℤ → ℤ → ℕ
distance (pos a) (pos b) = (a - b) + (b - a)
distance (pos a) (negsuc b) = a + b + 1
distance (negsuc a) (pos b) = a + b + 1
distance (negsuc a) (negsuc b) = (a - b) + (b - a)

-- The target of `adapt_delay`, and a step towards it.
unfoldable pub new_target : JitterBufferConfig → ℕ → ℕ
new_target config jitter_samples =
    min (max ((2 * jitter_samples) % 4294967296) (ms_to_samples config config.min_delay_ms))
      (ms_to_samples config config.max_delay_ms)

unfoldable pub adapted : ℕ → ℕ → ℕ
adapted target delay =
    if ltb delay target
    then delay + (target - delay) / 4
    else if ltb target delay
    then delay - (delay - target) / 16
    else delay

unfoldable pub is_late : Option ℕ → ℕ → Bool
is_late none timestamp = false
is_late (some playout_ts) timestamp = timestamp_before timestamp playout_ts

unfoldable pub track_sequence : ℕ → Option ℕ → Option ℕ
track_sequence sequence none = none
track_sequence sequence (some expected) =
    if is_negative (sequence_diff sequence expected)
    then some expected
    else some ((sequence + 1) % 65536)
