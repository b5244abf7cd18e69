-- ===== src/Media/Jitter/Accounting.antt =====
-- The delay and the counters of the jitter buffer, crates/rsiprtp/src/media/jitter.rs, over sequences
-- of calls.
use rsiprtp.Common.{
  ℕ, ◌+◌, ◌≤◌, ◌<◌, List, [], ◌∷◌, length, Option, none, some, Distinct, number_key, ◌≡◌, ◌∙◌, refl,
  sym, ap, arith,
}
use rsiprtp.Media.Jitter.{Floats, JitterBufferConfig, new, reset}
use rsiprtp.Media.Jitter.Delay.{Valid, Within, low, high}
use rsiprtp.Media.Jitter.Calls.{total, push-Counts}
use rsiprtp.Media.Jitter.Frames.{pop-Frame}
use rsiprtp.Media.Jitter.Run.{Input, arrive, take_frame, restart, World, step, run}

module _ {F : Floats} where
  -- After at most `k` calls of a buffer with the configuration `c`.
  pub record Good (c : JitterBufferConfig) (k : ℕ) (w : World F) : Type 0 where
    pub good_config : w.buffer.config ≡ c
    pub good_within : Within w.buffer
    pub good_distinct : Distinct w.buffer.packets
    pub good_total : w.buffer.stats.packets_received ≡ total w.buffer + w.discarded
    pub good_few : w.buffer.stats.packets_received ≤ k

  step-Good :
      (c : JitterBufferConfig) (k : ℕ) (w : World F) (i : Input)
      → Valid c
      → k + 1 < 18446744073709551616
      → Good c k w
      → (v : World F) × (step w i ≡ some v) × Good c (k + 1) v
  unfolding step reset
  step-Good c k w (arrive now sequence timestamp samples) valid room g =
      let (accepted, n, e, t) =
        push-Counts now sequence timestamp samples w.buffer (rw g.good_config valid) g.good_within
          g.good_distinct (omega (arith, g.good_total, g.good_few)) (omega (arith, g.good_few)) in
      (
        record w { buffer = n },
        rw (step, e) refl,
        record {
          good_config = t.counts_config ∙ g.good_config;
          good_within = t.counts_within;
          good_distinct = t.counts_distinct;
          good_total = omega (arith, t.counts_total, t.counts_received, g.good_total);
          good_few = omega (arith, t.counts_received, g.good_few);
        },
      )
  step-Good c k w take_frame valid room g =
      let (decision, samples, n, e, t) =
        pop-Frame w.buffer
          (g.good_within, g.good_distinct, omega (arith, g.good_total, g.good_few)) in
      (
        record w { buffer = n },
        rw (step, e) refl,
        record {
          good_config = t.counts_config ∙ g.good_config;
          good_within = t.counts_within;
          good_distinct = t.counts_distinct;
          good_total = omega (arith, t.counts_total, t.counts_received, g.good_total);
          good_few = omega (arith, t.counts_received, g.good_few);
        },
      )
  step-Good c k w restart valid room g = (
    record { buffer = reset w.buffer; discarded = w.discarded + length w.buffer.packets },
    refl,
    record {
      good_config = g.good_config;
      good_within = rw g.good_config (valid.from_low, valid.to_high);
      good_distinct = tt;
      good_total = omega (arith, g.good_total);
      good_few = omega (arith, g.good_few);
    },
  )

  run-Good :
      (c : JitterBufferConfig) (k : ℕ) (w : World F) (is : List Input)
      → Valid c
      → k + length is < 18446744073709551616
      → Good c k w
      → (v : World F) × (run w is ≡ some v) × Good c (k + length is) v
  unfolding run
  run-Good c k w [] valid room g = (
    w,
    refl,
    record {
      good_config = g.good_config;
      good_within = g.good_within;
      good_distinct = g.good_distinct;
      good_total = g.good_total;
      good_few = omega (arith, g.good_few);
    },
  )
  run-Good c k w (i ∷ is) valid room g =
      let (v, e, h) = step-Good c k w i valid (omega arith) g in
      let (u, d, l) = run-Good c (k + 1) v is valid (omega arith) h in
      (
        u,
        rw (run, e) d,
        record {
          good_config = l.good_config;
          good_within = l.good_within;
          good_distinct = l.good_distinct;
          good_total = l.good_total;
          good_few = omega (arith, l.good_few);
        },
      )

  new-Good :
      (c : JitterBufferConfig) → Valid c → Good c 0 (record { buffer = new F c; discarded = 0 })
  unfolding new
  new-Good c valid = record {
    good_config = refl;
    good_within = (valid.from_low, valid.to_high);
    good_distinct = tt;
    good_total = refl;
    good_few = omega arith;
  }

  -- A new buffer with a valid configuration returns from every sequence of `push`, `pop` and `reset` of
  -- fewer than 2^64 calls, and its target delay then lies between the least and the greatest delay.
  pub delay_in_range :
      (c : JitterBufferConfig) (is : List Input)
      → Valid c
      → length is < 18446744073709551616
      → (v : World F) × (run (record { buffer = new F c; discarded = 0 }) is ≡ some v)
        × (low c ≤ v.buffer.target_delay)
        × (v.buffer.target_delay ≤ high c)
  delay_in_range c is valid short =
      let (v, e, g) = run-Good c 0 _ is valid (omega arith) (new-Good c valid) in
      let (from, to) : Within v.buffer = g.good_within in
      (v, e, rw⁻¹ g.good_config from, rw⁻¹ g.good_config to)

  -- In whatever state a new buffer with a valid configuration comes to by fewer than 2^64 calls, the
  -- number of packets received is the number of those counted as late, counted as duplicate, counted as
  -- played, waiting in the buffer, or thrown away by `reset`.
  pub packets_accounted :
      (c : JitterBufferConfig) (is : List Input) (v : World F)
      → Valid c
      → length is < 18446744073709551616
      → run (record { buffer = new F c; discarded = 0 }) is ≡ some v
      → v.buffer.stats.packets_received
        ≡ v.buffer.stats.packets_late
          + v.buffer.stats.packets_duplicate
          + v.buffer.stats.packets_played
          + length v.buffer.packets
          + v.discarded
  packets_accounted c is v valid short e =
      let (u, d, g) = run-Good c 0 _ is valid (omega arith) (new-Good c valid) in
      let same : u ≡ v =
        ap (λ (o : Option (World F)). elim o [ none ↦ u | some x ↦ x ]) (sym d ∙ e) in
      rw⁻¹ same (g.good_total)
