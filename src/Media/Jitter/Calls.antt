-- ===== src/Media/Jitter/Calls.antt =====
-- What a `push` of the jitter buffer, crates/rsiprtp/src/media/jitter.rs, does to its counters.
use rsiprtp.Common.{
  ℕ, ◌+◌, ◌<◌, List, [], ◌∷◌, length, Bool, true, false, some, Option-cases, Bool-cases, inl, inr,
  lookup, number_key, insert-Distinct, Distinct, length-insert, ◌==◌, ◌≡◌, ◌∙◌, refl, ap, arith,
}
use rsiprtp.Rtp.Sequence.{ℤ}
use rsiprtp.Media.Jitter.{Floats, BufferedPacket, JitterBuffer, first_key, push, accept, is_late}
use rsiprtp.Media.Jitter.Values.{add_one}
use rsiprtp.Media.Jitter.Delay.{Valid, Within, noted, noted_lem, store_lem}

pub first_key-lookup :
    (k : ℕ) (d : List (ℕ × BufferedPacket))
    → first_key d ≡ some k
    → (p : BufferedPacket) × (lookup k d ≡ some p)
unfolding first_key lookup
first_key-lookup k [] h = ground arith
first_key-lookup k ((j, p) ∷ d) h = elim (Option-cases (first_key d)) [
  | inl last ↦ (p, ground arith)
  | inr (i, more) ↦ elim (Bool-cases (j == k)) [
    | inl here ↦ (p, rw here refl)
    | inr there ↦
        let (q, found) = first_key-lookup k d (ground arith) in (q, rw (there, found) refl)
  ]
]

module _ {F : Floats} where
  abbrev pub total : JitterBuffer F → ℕ
  total b =
      b.stats.packets_late + b.stats.packets_duplicate + b.stats.packets_played + length b.packets

  -- From `b` to `n`, `k` packets are counted more and `r` more arrived.
  pub record Counts (k r : ℕ) (b n : JitterBuffer F) : Type 0 where
    pub counts_config : n.config ≡ b.config
    pub counts_within : Within n
    pub counts_distinct : Distinct n.packets
    pub counts_total : total n ≡ total b + k
    pub counts_received : n.stats.packets_received ≡ b.stats.packets_received + r

  accept-Counts :
      (now sequence timestamp : ℕ) (samples : List ℤ) (b : JitterBuffer F)
      → Valid b.config
      → Within b
      → Distinct b.packets
      → total b + 1 < 18446744073709551616
      → (accepted : Bool) × (n : JitterBuffer F) × (accept now sequence timestamp samples b
          ≡ some (accepted, n))
        × Counts 1 0 b n
  unfolding accept
  accept-Counts now sequence timestamp samples b valid within distinct room =
      let packet : BufferedPacket = record {
        sequence = sequence;
        timestamp = timestamp;
        samples = samples;
        received_at = now;
      } in
      elim (Option-cases (lookup timestamp b.packets)) [
        | inr (p, found) ↦ (
          false,
          record b {
            stats = record b.stats { packets_duplicate = add_one b.stats.packets_duplicate };
          },
          rw (accept, found) refl,
          record {
            counts_config = refl;
            counts_within = within;
            counts_distinct = distinct;
            counts_total = omega arith;
            counts_received = omega arith;
          },
        )
        | inl absent ↦ elim (Bool-cases (is_late b.next_playout_ts timestamp)) [
          | inl late ↦ (
            false,
            record b { stats = record b.stats { packets_late = add_one b.stats.packets_late } },
            rw (accept, absent, late) refl,
            record {
              counts_config = refl;
              counts_within = within;
              counts_distinct = distinct;
              counts_total = omega arith;
              counts_received = omega arith;
            },
          )
          | inr timely ↦
              let (n, stored, k, fine) = store_lem now sequence timestamp samples b valid within in
              (
                true,
                n,
                rw (accept, absent, timely, stored) refl,
                record {
                  counts_config = k.same_config;
                  counts_within = fine;
                  counts_distinct =
                      rw k.same_packets (insert-Distinct timestamp packet b.packets distinct);
                  counts_total = ground (
                    arith,
                    ap length k.same_packets,
                    length-insert timestamp packet b.packets absent,
                    k.same_late,
                    k.same_duplicate,
                    k.same_played,
                  );
                  counts_received = omega (arith, k.same_received);
                },
              )
        ]
      ]

  -- A `push` returns, and counts the packet once.
  pub push-Counts :
      (now sequence timestamp : ℕ) (samples : List ℤ) (b : JitterBuffer F)
      → Valid b.config
      → Within b
      → Distinct b.packets
      → total b + 1 < 18446744073709551616
      → b.stats.packets_received + 1 < 18446744073709551616
      → (accepted : Bool) × (n : JitterBuffer F) × (push now sequence timestamp samples b
          ≡ some (accepted, n))
        × Counts 1 1 b n
  unfolding push
  push-Counts now sequence timestamp samples b valid within distinct room more =
      let counted : JitterBuffer F = record b {
        stats = record b.stats { packets_received = add_one b.stats.packets_received };
      } in
      let start = noted now sequence timestamp counted in
      let (kept, delay) = noted_lem now sequence timestamp counted in
      let same = ap length kept.same_packets in
      let (accepted, n, e, c) =
        accept-Counts now sequence timestamp samples start (rw kept.same_config valid)
          (rw (kept.same_config, delay) within) (rw kept.same_packets distinct)
          (ground (arith, same, kept.same_late, kept.same_duplicate, kept.same_played)) in
      (
        accepted,
        n,
        e,
        record {
          counts_config = c.counts_config ∙ kept.same_config;
          counts_within = c.counts_within;
          counts_distinct = c.counts_distinct;
          counts_total =
              ground (
                arith, same, c.counts_total, kept.same_late, kept.same_duplicate, kept.same_played,
              );
          counts_received = ground (arith, c.counts_received, kept.same_received);
        },
      )
