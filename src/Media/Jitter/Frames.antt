-- ===== src/Media/Jitter/Frames.antt =====
-- What a `pop` of the jitter buffer, crates/rsiprtp/src/media/jitter.rs, does to its counters.
use rsiprtp.Common.{
  ℕ, ◌+◌, ◌*◌, ◌%◌, ◌<◌, List, Option, some, Option-cases, Bool-cases, inl, inr, lookup, number_key,
  remove-Distinct, Distinct, length-remove, replicate, ◌≡◌, ◌∙◌, refl, arith,
}
use rsiprtp.Rtp.Sequence.{ℤ, pos}
use rsiprtp.Media.Jitter.{
  Floats, BufferedPacket, JitterBuffer, PlayoutDecision, play, accelerate, silence, timestamp_diff,
  first_key, frame_at, pop, skip_or_conceal, play_packet, lose_packet, conceal_packet,
}
use rsiprtp.Media.Jitter.Values.{as_i32, lebℤ}
use rsiprtp.Media.Jitter.Delay.{Within}
use rsiprtp.Media.Jitter.Calls.{first_key-lookup, total, Counts}

module _ {F : Floats} where
  -- The configuration, the delay and the counts of packets of a buffer, but for the packets lost.
  abbrev pub Ready : JitterBuffer F → Type 0
  Ready b = Within b × Distinct b.packets × (total b < 18446744073709551616)

  play_packet-Counts :
      (ts : ℕ) (packet : BufferedPacket) (b : JitterBuffer F)
      → lookup ts b.packets ≡ some packet
      → Ready b
      → Counts 0 0 b (play_packet ts packet b)
  unfolding play_packet
  play_packet-Counts ts packet b found (within, distinct, room) =
      let fewer = length-remove ts packet b.packets distinct found in
      record {
        counts_config = refl;
        counts_within = within;
        counts_distinct = remove-Distinct ts b.packets distinct;
        counts_total = ground (arith, fewer);
        counts_received = omega arith;
      }

  lose_packet-Counts : (b : JitterBuffer F) → Ready b → Counts 0 0 b (lose_packet b).2
  unfolding lose_packet conceal_packet
  lose_packet-Counts b (within, distinct, room) = record {
    counts_config = refl;
    counts_within = within;
    counts_distinct = distinct;
    counts_total = omega arith;
    counts_received = omega arith;
  }

  abbrev pub Frame : JitterBuffer F → Option (PlayoutDecision × List ℤ × JitterBuffer F) → Type 0
  Frame b result =
      (decision : PlayoutDecision) × (samples : List ℤ) × (n : JitterBuffer F) × (result
        ≡ some (decision, samples, n))
      × Counts 0 0 b n

  lost : (b : JitterBuffer F) → Ready b → Frame b (some (lose_packet b))
  lost b ready =
      ((lose_packet b).0, (lose_packet b).1, (lose_packet b).2, refl, lose_packet-Counts b ready)

  skip_or_conceal-Frame :
      (playout_ts next_ts : ℕ) (packet : BufferedPacket) (b : JitterBuffer F)
      → lookup next_ts b.packets ≡ some packet
      → Ready b
      → Frame b (skip_or_conceal playout_ts next_ts b)
  unfolding skip_or_conceal
  skip_or_conceal-Frame playout_ts next_ts packet b found ready =
      let gap = timestamp_diff next_ts playout_ts in
      elim (Bool-cases (lebℤ gap (as_i32 b.config.samples_per_packet))) [
        | inl near ↦ rw (skip_or_conceal, near) (lost b ready)
        | inr far ↦ elim (Bool-cases (lebℤ gap (as_i32 ((b.target_delay * 2) % 4294967296)))) [
          | inl close ↦ rw (skip_or_conceal, far, close) (lost b ready)
          | inr beyond ↦
              let skipped : JitterBuffer F = record b { next_playout_ts = some next_ts } in
              let c = play_packet-Counts next_ts packet skipped found ready in
              (
                accelerate,
                packet.samples,
                play_packet next_ts packet skipped,
                rw (skip_or_conceal, far, beyond, found) refl,
                record {
                  counts_config = c.counts_config;
                  counts_within = c.counts_within;
                  counts_distinct = c.counts_distinct;
                  counts_total = c.counts_total;
                  counts_received = c.counts_received;
                },
              )
        ]
      ]

  frame_at-Frame : (playout_ts : ℕ) (b : JitterBuffer F) → Ready b → Frame b (frame_at playout_ts b)
  unfolding frame_at
  frame_at-Frame playout_ts b ready = elim (Option-cases (lookup playout_ts b.packets)) [
    | inr (packet, found) ↦ (
      play,
      packet.samples,
      play_packet playout_ts packet b,
      rw (frame_at, found) refl,
      play_packet-Counts playout_ts packet b found ready,
    )
    | inl absent ↦ elim (Option-cases (first_key b.packets)) [
      | inl empty ↦ rw (frame_at, absent, empty) (lost b ready)
      | inr (next_ts, first) ↦
          let (packet, found) = first_key-lookup next_ts b.packets first in
          rw (frame_at, absent, first)
            (skip_or_conceal-Frame playout_ts next_ts packet b found ready)
    ]
  ]

  -- A `pop` returns, and keeps the number of packets that are counted.
  pub pop-Frame : (b : JitterBuffer F) → Ready b → Frame b (pop b)
  unfolding pop
  pop-Frame b ready =
      let nothing = replicate b.config.samples_per_packet (pos 0) in
      let (within, distinct, room) = ready in
      let same : Counts 0 0 b b = record {
        counts_config = refl;
        counts_within = within;
        counts_distinct = distinct;
        counts_total = omega arith;
        counts_received = omega arith;
      } in
      elim (Bool-cases b.primed) [
        | inr early ↦ (silence, nothing, b, ground arith, same)
        | inl primed ↦ elim (Option-cases b.next_playout_ts) [
          | inl none_yet ↦ (silence, nothing, b, ground arith, same)
          | inr (playout_ts, due) ↦
              let advanced : JitterBuffer F = record b {
                next_playout_ts = some ((playout_ts + b.config.samples_per_packet) % 4294967296);
              } in
              let opened : pop b ≡ frame_at playout_ts advanced = ground arith in
              let (decision, samples, n, e, c) = frame_at-Frame playout_ts advanced ready in
              (
                decision,
                samples,
                n,
                opened ∙ e,
                record {
                  counts_config = c.counts_config;
                  counts_within = c.counts_within;
                  counts_distinct = c.counts_distinct;
                  counts_total = c.counts_total;
                  counts_received = c.counts_received;
                },
              )
        ]
      ]
