-- ===== src/Media/Jitter/Delay.antt =====
-- The target delay of the jitter buffer, crates/rsiprtp/src/media/jitter.rs, and what a packet that is
-- accepted changes.
use rsiprtp.Common.{
  ℕ, ◌*◌, ◌/◌, ◌%◌, leb, ◌≤◌, min, max, List, length, true, false, some, Bool-cases, inl, inr,
  insert, number_key, ◌==◌, ◌≡◌, ◌≢◌, ◌∙◌, refl, arith,
}
use rsiprtp.Rtp.Sequence.{ℤ}
use rsiprtp.Media.Jitter.{
  Floats, JitterBufferConfig, BufferedPacket, JitterBuffer, ms_to_samples, samples_to_ms,
  new_target, adapted, adapt_delay, prime, store, start_on_first, update_jitter, track_sequence,
}

abbrev pub low : JitterBufferConfig → ℕ
low c = ms_to_samples c c.min_delay_ms

abbrev pub high : JitterBufferConfig → ℕ
high c = ms_to_samples c c.max_delay_ms

-- A configuration that divides by no zero, with the initial delay between the other two.
pub record Valid (c : JitterBufferConfig) : Type 0 where
  pub clock : c.clock_rate ≢ 0
  pub frame : c.samples_per_packet ≢ 0
  pub from_low : low c ≤ ms_to_samples c c.initial_delay_ms
  pub to_high : ms_to_samples c c.initial_delay_ms ≤ high c

adapted-new_target :
    (lo hi x delay : ℕ)
    → lo ≤ delay
    → delay ≤ hi
    → (lo ≤ adapted (min (max x lo) hi) delay) × (adapted (min (max x lo) hi) delay ≤ hi)
unfolding adapted
adapted-new_target lo hi x delay a b = (ground arith, ground arith)

module _ {F : Floats} where
  -- A buffer that plays, since its first packet at `t`, and plays the time `ts` next.
  abbrev pub Playing : ℕ → ℕ → JitterBuffer F → Type 0
  Playing t ts b =
      (b.primed ≡ true) × (b.first_packet_time ≡ some t) × (b.next_playout_ts ≡ some ts)

  -- All but the estimates, and the delay within its bounds.
  pub record Kept (b n : JitterBuffer F) : Type 0 where
    pub same_playing : (t ts : ℕ) → Playing t ts b → Playing t ts n
    pub same_config : n.config ≡ b.config
    pub same_packets : n.packets ≡ b.packets
    pub same_received : n.stats.packets_received ≡ b.stats.packets_received
    pub same_played : n.stats.packets_played ≡ b.stats.packets_played
    pub same_late : n.stats.packets_late ≡ b.stats.packets_late
    pub same_duplicate : n.stats.packets_duplicate ≡ b.stats.packets_duplicate

  abbrev pub Within : JitterBuffer F → Type 0
  Within b = (low b.config ≤ b.target_delay) × (b.target_delay ≤ high b.config)

  adapt_delay_lem :
      (b : JitterBuffer F)
      → b.config.clock_rate ≢ 0
      → Within b
      → (n : JitterBuffer F) × (adapt_delay b ≡ some n) × Kept b n × Within n
  unfolding adapt_delay samples_to_ms new_target
  adapt_delay_lem b clock (from, to) =
      let nonzero : (b.config.clock_rate == 0) ≡ false = ground arith in
      let delay = adapted (new_target b.config (F.as_u32 b.jitter)) b.target_delay in
      let n : JitterBuffer F = record b {
        target_delay = delay;
        stats = record b.stats {
          target_delay_ms = (delay * 1000) % 4294967296 / b.config.clock_rate;
          jitter_ms = F.div (F.mul b.jitter (F.as_f64 1000)) (F.as_f64 b.config.clock_rate);
        };
      } in
      (
        n,
        rw (adapt_delay, nonzero) refl,
        record {
          same_playing = λ t ts h. h;
          same_config = refl;
          same_packets = refl;
          same_received = refl;
          same_played = refl;
          same_late = refl;
          same_duplicate = refl;
        },
        adapted-new_target (low b.config) (high b.config) _ b.target_delay from to,
      )

  prime_lem :
      (b : JitterBuffer F)
      → b.config.samples_per_packet ≢ 0
      → Within b
      → (n : JitterBuffer F) × (prime b ≡ some n) × Kept b n × Within n
  unfolding prime
  prime_lem b frame within =
      let nonzero : (b.config.samples_per_packet == 0) ≡ false = ground arith in
      let all : Kept b b = record {
        same_playing = λ t ts h. h;
        same_config = refl;
        same_packets = refl;
        same_received = refl;
        same_played = refl;
        same_late = refl;
        same_duplicate = refl;
      } in
      elim (Bool-cases b.primed) [
        | inl done ↦ (b, rw (prime, done) refl, all, within)
        | inr waiting ↦ (
          record b {
            primed = leb (max (b.target_delay / b.config.samples_per_packet) 1) (length b.packets);
          },
          rw (prime, waiting, nonzero) refl,
          record {
            same_playing = λ t ts (primed, at, due). (ground arith, at, due);
            same_config = refl;
            same_packets = refl;
            same_received = refl;
            same_played = refl;
            same_late = refl;
            same_duplicate = refl;
          },
          within,
        )
      ]

  -- The packet is stored, the delay stays within its bounds, and nothing panics.
  pub store_lem :
      (now sequence timestamp : ℕ) (samples : List ℤ) (b : JitterBuffer F)
      → Valid b.config
      → Within b
      → let packet : BufferedPacket = record {
        sequence = sequence;
        timestamp = timestamp;
        samples = samples;
        received_at = now;
      } in
        (n : JitterBuffer F) × (store now sequence timestamp samples b ≡ some n)
        × Kept (record b { packets = insert timestamp packet b.packets }) n
        × Within n
  unfolding store
  store_lem now sequence timestamp samples b valid within =
      let packet : BufferedPacket = record {
        sequence = sequence;
        timestamp = timestamp;
        samples = samples;
        received_at = now;
      } in
      let start : JitterBuffer F = record b {
        next_seq = track_sequence sequence b.next_seq;
        packets = insert timestamp packet b.packets;
      } in
      let (m, adapts, k, w) = adapt_delay_lem start valid.clock within in
      let (n, primes, l, v) = prime_lem m (rw k.same_config valid.frame) w in
      (
        n,
        rw (store, adapts, primes) refl,
        record {
          same_playing = λ t ts h. l.same_playing t ts (k.same_playing t ts h);
          same_config = l.same_config ∙ k.same_config;
          same_packets = l.same_packets ∙ k.same_packets;
          same_received = l.same_received ∙ k.same_received;
          same_played = l.same_played ∙ k.same_played;
          same_late = l.same_late ∙ k.same_late;
          same_duplicate = l.same_duplicate ∙ k.same_duplicate;
        },
        v,
      )

  -- The two steps before the tests of `push`.
  abbrev pub noted : ℕ → ℕ → ℕ → JitterBuffer F → JitterBuffer F
  noted now sequence timestamp b =
      update_jitter now timestamp (start_on_first now sequence timestamp b)

  pub noted_lem :
      (now sequence timestamp : ℕ) (b : JitterBuffer F)
      → Kept b (noted now sequence timestamp b)
        × ((noted now sequence timestamp b).target_delay ≡ b.target_delay)
  unfolding start_on_first update_jitter
  noted_lem now sequence timestamp b = (
    record {
      same_playing = λ t ts h. ground arith;
      same_config = ground arith;
      same_packets = ground arith;
      same_received = ground arith;
      same_played = ground arith;
      same_late = ground arith;
      same_duplicate = ground arith;
    },
    ground arith,
  )
