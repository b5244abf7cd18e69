-- ===== src/Media/Jitter/Run.antt =====
-- The jitter buffer over a sequence of calls, crates/rsiprtp/src/media/jitter.rs.
use rsiprtp.Common.{ℕ, ◌+◌, List, [], ◌∷◌, length, Option, none, some}
use rsiprtp.Rtp.Sequence.{ℤ}
use rsiprtp.Media.Jitter.{Floats, JitterBuffer, push, pop, reset}

-- `arrive` has the time, the sequence number, the timestamp and the samples.
pub data Input : Type 0 where
  arrive : ℕ → ℕ → ℕ → List ℤ → Input
  take_frame : Input
  restart : Input

-- The buffer, and the number of packets that `reset` threw away.
pub record World (F : Floats) : Type 0 where
  pub buffer : JitterBuffer F
  pub discarded : ℕ

module _ {F : Floats} where
  unfoldable pub step : World F → Input → Option (World F)
  step w (arrive now sequence timestamp samples) =
      elim (push now sequence timestamp samples w.buffer) [
        | none ↦ none
        | some (accepted, b) ↦ some (record w { buffer = b })
      ]
  step w take_frame = elim (pop w.buffer) [
    | none ↦ none
    | some (decision, samples, b) ↦ some (record w { buffer = b })
  ]
  step w restart =
      some (record { buffer = reset w.buffer; discarded = w.discarded + length w.buffer.packets })

  unfoldable pub run : World F → List Input → Option (World F)
  run w [] = some w
  run w (i ∷ is) = elim (step w i) [ none ↦ none | some v ↦ run v is ]
