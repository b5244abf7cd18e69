-- ===== src/Media/Jitter/Order.antt =====
-- The order of playout of the jitter buffer, crates/rsiprtp/src/media/jitter.rs.
use rsiprtp.Common.{
  ℕ, zero, suc, ◌+◌, ◌*◌, ◌%◌, ◌≤◌, ◌<◌, List, [], ◌∷◌, map, length, true, Option, none, some,
  lookup, remove, lookup-remove, number_key, ==_iff, ◌≡◌, ◌∙◌, refl, ap, arith,
}
use native.Mathlib.Nat.{suc-mul}
use rsiprtp.Rtp.Sequence.{ℤ}
use rsiprtp.Media.Jitter.{
  Floats, BufferedPacket, JitterBuffer, PlayoutDecision, play, frame_at, play_packet, pop,
}

-- The packets wait for the playout times `ts`, `ts + step`, `ts + 2 * step` and so on.
abbrev pub Waiting : ℕ → ℕ → List BufferedPacket → List (ℕ × BufferedPacket) → Type 0
Waiting step ts [] d = Unit {0}
Waiting step ts (p ∷ ps) d = (lookup ts d ≡ some p) × Waiting step ((ts + step) % 4294967296) ps d

abbrev span : ℕ → List BufferedPacket → ℕ
span step [] = 0
span step (p ∷ ps) = step + span step ps

span-length : (step : ℕ) (ps : List BufferedPacket) → span step ps ≡ length ps * step
span-length step [] = omega arith
span-length step (p ∷ ps) = omega (arith, span-length step ps, suc-mul (length ps) step)

-- A removal at `j` leaves the packets at later times, within one turn of the 32-bit clock.
remove-Waiting :
    (step j offset : ℕ) (ps : List BufferedPacket) (d : List (ℕ × BufferedPacket))
    → 0 < step
    → 0 < offset
    → j < 4294967296
    → offset + span step ps ≤ 4294967296
    → Waiting step ((j + offset) % 4294967296) ps d
    → Waiting step ((j + offset) % 4294967296) ps (remove j d)
remove-Waiting step j offset [] d a b c e w = tt
remove-Waiting step j offset (p ∷ ps) d a b c e (here, rest) =
    let ts = (j + offset) % 4294967296 in
    let next : (ts + step) % 4294967296 ≡ (j + (offset + step)) % 4294967296 = omega arith in
    (
      ground (arith, lookup-remove j ts d, ==_iff j ts),
      rw next (
          remove-Waiting step j (offset + step) ps d a (omega arith) c (omega arith)
            (rw⁻¹ next rest)),
    )

module _ {F : Floats} where
  -- `count` calls of `pop`.
  unfoldable pub pop_times :
      ℕ → JitterBuffer F → Option (List (PlayoutDecision × List ℤ) × JitterBuffer F)
  pop_times zero b = some ([], b)
  pop_times (suc count) b = elim (pop b) [
    | none ↦ none
    | some (decision, samples, b) ↦ elim (pop_times count b) [
      | none ↦ none
      | some (frames, b) ↦ some ((decision, samples) ∷ frames, b)
    ]
  ]

  pop_due :
      (b : JitterBuffer F) (ts : ℕ) (p : BufferedPacket)
      → b.primed ≡ true
      → b.next_playout_ts ≡ some ts
      → lookup ts b.packets ≡ some p
      → pop b
        ≡ some (
          play,
          p.samples,
          play_packet ts p (record b {
            next_playout_ts = some ((ts + b.config.samples_per_packet) % 4294967296);
          }),
        )
  unfolding pop frame_at
  pop_due b ts p primed due here = ground arith

  played_in_order :
      (b : JitterBuffer F) (ts : ℕ) (ps : List BufferedPacket)
      → b.primed ≡ true
      → b.next_playout_ts ≡ some ts
      → 0 < b.config.samples_per_packet
      → ts < 4294967296
      → span b.config.samples_per_packet ps ≤ 4294967296
      → Waiting b.config.samples_per_packet ts ps b.packets
      → (n : JitterBuffer F) × (pop_times (length ps) b ≡ some (map (λ p. (play, p.samples)) ps, n))
        × (n.next_playout_ts ≡ some ((ts + span b.config.samples_per_packet ps) % 4294967296))
  unfolding pop_times play_packet
  played_in_order b ts [] primed due some_samples in_clock short w =
      (b, refl, due ∙ ap some (omega arith))
  played_in_order b ts (p ∷ ps) primed due some_samples in_clock short (here, rest) =
      let step = b.config.samples_per_packet in
      let next = (ts + step) % 4294967296 in
      let advanced : JitterBuffer F = record b { next_playout_ts = some next } in
      let after = play_packet ts p advanced in
      let (n, frames, at) =
        played_in_order after next ps primed refl some_samples (omega arith) (omega arith) (
          remove-Waiting step ts step ps b.packets some_samples some_samples in_clock short rest) in
      let first = pop_due b ts p primed due here in
      (n, rw (pop_times, first, frames) refl, at ∙ ap some (omega arith))

  -- The packets of the next playout times wait in a primed buffer: as many calls of `pop` play them, in
  -- the order of their times, and nothing else, if their times span at most one turn of the 32-bit clock.
  pub plays_in_order :
      (b : JitterBuffer F) (ts : ℕ) (ps : List BufferedPacket)
      → b.primed ≡ true
      → b.next_playout_ts ≡ some ts
      → 0 < b.config.samples_per_packet
      → ts < 4294967296
      → length ps * b.config.samples_per_packet ≤ 4294967296
      → Waiting b.config.samples_per_packet ts ps b.packets
      → (n : JitterBuffer F) × (pop_times (length ps) b ≡ some (map (λ p. (play, p.samples)) ps, n))
        × (n.next_playout_ts ≡ some ((ts + length ps * b.config.samples_per_packet) % 4294967296))
  plays_in_order b ts ps primed due some_samples in_clock short w =
      let same = span-length b.config.samples_per_packet ps in
      rw⁻¹ same (played_in_order b ts ps primed due some_samples in_clock (rw same short) w)
