-- ===== src/Media/Jitter/Skip.antt =====
-- The state of the jitter buffer, crates/rsiprtp/src/media/jitter.rs, after it has skipped ahead.
use rsiprtp.Common.{
  ℕ, ◌+◌, ◌%◌, List, false, none, some, Option-cases, Bool-cases, inl, inr, lookup, lookup-remove,
  number_key, ==_iff, ◌≡◌, arith,
}
use rsiprtp.Rtp.Sequence.{ℤ}
use rsiprtp.Media.Jitter.{
  Floats, BufferedPacket, JitterBuffer, accelerate, timestamp_diff, timestamp_before, is_late,
  first_key, frame_at, pop, skip_or_conceal, play_packet, lose_packet, conceal_packet,
}
use rsiprtp.Media.Jitter.Calls.{first_key-lookup}

not_late : (ts : ℕ) → is_late (some ts) ts ≡ false
unfolding is_late timestamp_before timestamp_diff
not_late ts = ground arith

module _ {F : Floats} where
  -- `n` has the time of a packet of `b`, which is gone, for its next playout time.
  abbrev pub Repeats : JitterBuffer F → List ℤ → JitterBuffer F → Type 0
  Repeats b samples n =
      (ts : ℕ) × (p : BufferedPacket) × (lookup ts b.packets ≡ some p)
      × (p.samples ≡ samples)
      × (n.next_playout_ts ≡ some ts)
      × (lookup ts n.packets ≡ none)
      × (is_late n.next_playout_ts ts ≡ false)

  skip-Repeats :
      (now ts : ℕ) (p : BufferedPacket) (b n : JitterBuffer F) (samples : List ℤ)
      → lookup ts b.packets ≡ some p
      → skip_or_conceal now ts b ≡ some (accelerate, samples, n)
      → Repeats b samples n
  unfolding skip_or_conceal play_packet lose_packet conceal_packet
  skip-Repeats now ts p b n samples here e =
      let due : n.next_playout_ts ≡ some ts = ground arith in
      (
        ts,
        p,
        here,
        ground arith,
        due,
        ground (arith, lookup-remove ts ts b.packets, ==_iff ts ts),
        rw due (not_late ts),
      )

  frame_at-Repeats :
      (now : ℕ) (b n : JitterBuffer F) (samples : List ℤ)
      → frame_at now b ≡ some (accelerate, samples, n)
      → Repeats b samples n
  unfolding frame_at lose_packet
  frame_at-Repeats now b n samples e = elim (Option-cases (lookup now b.packets)) [
    | inr (p, found) ↦ absurd (ground arith)
    | inl absent ↦ elim (Option-cases (first_key b.packets)) [
      | inl empty ↦ absurd (ground arith)
      | inr (ts, first) ↦
          let (p, here) = first_key-lookup ts b.packets first in
          skip-Repeats now ts p b n samples here (rw (frame_at, absent, first) at e)
    ]
  ]

  -- When `pop` skips ahead to a packet, its next playout time stays that packet's: the packet is gone, so
  -- the next frame cannot be its successor, and a second copy of it would not be refused as late.
  pub skipped_packet-Repeats :
      (b n : JitterBuffer F) (samples : List ℤ)
      → pop b ≡ some (accelerate, samples, n)
      → Repeats b samples n
  unfolding pop
  skipped_packet-Repeats b n samples e = elim (Bool-cases b.primed) [
    | inr early ↦ absurd (ground arith)
    | inl primed ↦ elim (Option-cases b.next_playout_ts) [
      | inl none_yet ↦ absurd (ground arith)
      | inr (now, due) ↦
          frame_at-Repeats now
            (record b { next_playout_ts = some ((now + b.config.samples_per_packet) % 4294967296) })
            n samples (ground arith)
    ]
  ]
