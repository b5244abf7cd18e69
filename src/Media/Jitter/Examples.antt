-- ===== src/Media/Jitter/Examples.antt =====
-- Runs of the jitter buffer, and its theorems at concrete inputs.
use rsiprtp.Common.{
  ℕ, ◌+◌, ◌-◌, ◌*◌, ◌/◌, ◌≤◌, min, List, [], ◌∷◌, length, none, some, lookup, insert, remove,
  number_key, Distinct, ◌≡◌, refl, arith,
}
use rsiprtp.Rtp.Sequence.{ℤ, pos, sequence_diff}
use rsiprtp.Media.Jitter.{
  Floats, BufferedPacket, JitterBuffer, play, accelerate, g711, new, push, accept, store,
  adapt_delay, prime, pop, frame_at, play_packet, skip_or_conceal, lose_packet, conceal_packet,
  fade, first_key, start_on_first, update_jitter, ms_to_samples, samples_to_ms, timestamp_diff,
  timestamp_before, new_target, adapted, is_late, track_sequence,
}
use rsiprtp.Media.Jitter.Delay.{Valid, Within, Playing, low, high}
use rsiprtp.Media.Jitter.Run.{Input, arrive, take_frame, World, step, run}
use rsiprtp.Media.Jitter.Accounting.{delay_in_range, packets_accounted}
use rsiprtp.Media.Jitter.Order.{Waiting, pop_times}
use rsiprtp.Media.Jitter.Reorder.{arrived, Timely, New, push_all, reordered_packets_play}

-- Whole numbers in the place of the floats, without fading.
abbrev whole : Floats
whole = record {
  F64 = ℕ;
  zero_f64 = 0;
  as_f64 = λ n. n;
  as_secs_f64 = λ n. n / 1000000000;
  add = λ a b. a + b;
  sub = λ a b. a - b;
  mul = λ a b. a * b;
  div = λ a b. a / b;
  as_i64 = pos;
  as_u32 = λ n. min n 4294967295;
  F32 = ℤ;
  one = pos 1;
  half = pos 0;
  as_f32 = pos;
  i16_as_f32 = λ n. n;
  sub_f32 = λ a b. a;
  mul_f32 = λ a b. a;
  div_f32 = λ a b. a;
  as_i16 = λ n. n;
  as_u32_lt = λ n. omega arith;
}

g711-Valid : Valid g711
unfolding ms_to_samples
g711-Valid = record {
  clock = λ e. omega arith;
  frame = λ e. omega arith;
  from_low = omega arith;
  to_high = omega arith;
}

abbrev packet : ℕ → BufferedPacket
packet n = record {
  sequence = n;
  timestamp = n * 160;
  samples = pos n ∷ [];
  received_at = n * 20000000;
}

abbrev heard : ℕ → Input
heard n = arrive (n * 20000000) n (n * 160) (pos n ∷ [])

abbrev start : World whole
start = record { buffer = new whole g711; discarded = 0 }

abbrev after : List Input → World whole
after is = elim (run start is) [ none ↦ start | some w ↦ w ]

-- The packet 1 comes again and then too late.
abbrev mixed : List Input
mixed = heard 0 ∷ heard 1 ∷ heard 1 ∷ heard 2 ∷ take_frame ∷ take_frame ∷ heard 1 ∷ take_frame ∷ []

run-mixed : run start mixed ≡ some (after mixed)
unfolding run step push accept store adapt_delay prime pop frame_at play_packet start_on_first
    update_jitter ms_to_samples samples_to_ms timestamp_diff timestamp_before new_target adapted
    is_late track_sequence new lookup insert remove sequence_diff first_key lose_packet
    conceal_packet fade skip_or_conceal
run-mixed = refl

delay_in_range_example :
    (v : World whole) × (run start mixed ≡ some v)
    × (low g711 ≤ v.buffer.target_delay)
    × (v.buffer.target_delay ≤ high g711)
delay_in_range_example = delay_in_range g711 mixed g711-Valid (omega arith)

packets_accounted_example :
    (after mixed).buffer.stats.packets_received
    ≡ (after mixed).buffer.stats.packets_late
      + (after mixed).buffer.stats.packets_duplicate
      + (after mixed).buffer.stats.packets_played
      + length (after mixed).buffer.packets
      + (after mixed).discarded
packets_accounted_example =
    packets_accounted g711 mixed (after mixed) g711-Valid (omega arith) run-mixed

abbrev warm : List Input
warm = heard 0 ∷ heard 1 ∷ heard 2 ∷ take_frame ∷ take_frame ∷ take_frame ∷ []

abbrev playing : JitterBuffer whole
playing = (after warm).buffer

abbrev late_first : List BufferedPacket
late_first = packet 4 ∷ packet 3 ∷ []

abbrev next_two : List BufferedPacket
next_two = packet 3 ∷ packet 4 ∷ []

late_first_fits : Distinct (arrived late_first) × Waiting 160 480 next_two (arrived late_first)
unfolding lookup
late_first_fits = ((refl, (refl, tt)), (refl, (refl, tt)))

warm_facts :
    Within playing
    × Playing 0 480 playing
    × (playing.config ≡ g711)
    × Timely 480 late_first
    × New late_first playing.packets
unfolding run step push accept store adapt_delay prime pop frame_at play_packet start_on_first
    update_jitter ms_to_samples samples_to_ms timestamp_diff timestamp_before new_target adapted
    is_late track_sequence new lookup insert remove sequence_diff first_key lose_packet
    conceal_packet fade skip_or_conceal
warm_facts =
    ((omega arith, omega arith), (refl, refl, refl), refl, (refl, (refl, tt)), (refl, (refl, tt)))

reordered_packets_play_example :
    (n m : JitterBuffer whole) × (push_all late_first playing ≡ some n)
    × (pop_times 2 n ≡ some ((play, pos 3 ∷ []) ∷ (play, pos 4 ∷ []) ∷ [], m))
reordered_packets_play_example =
    reordered_packets_play late_first next_two playing 0 480 (rw warm_facts.2 g711-Valid)
      warm_facts.0 warm_facts.1 (omega arith) late_first_fits.0 warm_facts.3 warm_facts.4
      (rw warm_facts.2 (omega arith)) (rw warm_facts.2 late_first_fits.1)

-- The packet 20 comes next.
abbrev behind : JitterBuffer whole
behind =
    (after
      (heard 0 ∷ heard 1 ∷ heard 2 ∷ take_frame ∷ take_frame ∷ take_frame ∷ heard 20 ∷ [])).buffer

abbrev skipped : JitterBuffer whole
skipped = elim (pop behind) [ none ↦ behind | some (decision, samples, n) ↦ n ]

behind-skipped : pop behind ≡ some (accelerate, pos 20 ∷ [], skipped)
unfolding run step push accept store adapt_delay prime pop frame_at play_packet start_on_first
    update_jitter ms_to_samples samples_to_ms timestamp_diff timestamp_before new_target adapted
    is_late track_sequence new lookup insert remove sequence_diff first_key lose_packet
    conceal_packet fade skip_or_conceal
behind-skipped = refl
