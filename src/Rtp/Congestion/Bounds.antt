-- ===== src/Rtp/Congestion/Bounds.antt =====
-- The bit rate of the congestion controller over sequences of calls, crates/rsiprtp/src/rtp/session.rs.
use rsiprtp.Common.{
  ℕ, ◌*◌, ◌/◌, ◌≤◌, List, [], ◌∷◌, max, Bool, true, false, Option, none, some, ◌≡◌, arith,
}
use rsiprtp.Rtp.Congestion.{
  Loss, CongestionState, slow_start, congestion_avoidance, recovery, CongestionController,
  on_packet_sent, on_nack, on_remb, on_rtt, raise, update, reset,
}

pub data Input : Type 0 where
  sent : Input
  nack : ℕ → ℕ → Input
  remb : ℕ → ℕ → Input
  rtt : ℕ → Input
  tick : ℕ → Input
  restart : ℕ → Input

module _ (L : Loss) where
  unfoldable pub step : CongestionController → Input → CongestionController
  step c sent = on_packet_sent c
  step c (nack lost now) = on_nack lost now c
  step c (remb bitrate now) = on_remb bitrate now c
  step c (rtt sample) = on_rtt sample c
  step c (tick now) = update L now c
  step c (restart bitrate) = reset bitrate c

  unfoldable pub run : CongestionController → List Input → CongestionController
  run c [] = c
  run c (i ∷ is) = run (step c i) is

-- The receiver's estimates are not below `low`, and a reset starts between `low` and `high`.
abbrev pub Within : ℕ → ℕ → List Input → Type 0
Within low high [] = Unit {0}
Within low high (remb bitrate now ∷ is) = (low ≤ bitrate) × Within low high is
Within low high (restart bitrate ∷ is) = (low ≤ bitrate) × (bitrate ≤ high) × Within low high is
Within low high (i ∷ is) = Within low high is

-- 90 percent of the target, rounded down, is at most the receiver's last estimate.
abbrev pub Near : Option ℕ → ℕ → Type 0
Near none target = Unit {0}
Near (some bitrate) target = target * 90 / 100 ≤ bitrate

abbrev Capped : Option ℕ → ℕ → Type 0
Capped none ceiling = Unit {0}
Capped (some bitrate) ceiling = ceiling ≤ bitrate

record Ranged (low high : ℕ) (c : CongestionController) : Type 0 where
  floor : c.min_bitrate ≡ low
  above : low ≤ c.target_bitrate
  below : c.target_bitrate ≤ high
  ceiling : low ≤ c.max_bitrate
  top : c.max_bitrate ≤ high
  capped : Capped c.last_remb c.max_bitrate
  near : Near c.last_remb c.target_bitrate

-- The calls other than `reset`.
abbrev pub no_restart : Input → Bool
no_restart (restart bitrate) = false
no_restart i = true

abbrev pub NoRestart : List Input → Type 0
NoRestart [] = Unit {0}
NoRestart (i ∷ is) = (no_restart i ≡ true) × NoRestart is

record Below (bitrate target : ℕ) (c : CongestionController) : Type 0 where
  ceiling : c.max_bitrate ≤ bitrate
  floor : c.min_bitrate ≤ target
  highest : c.target_bitrate ≤ target

raise-Below :
    (bitrate target : ℕ) (s : CongestionState) (c : CongestionController)
    → bitrate ≤ target
    → Below bitrate target c
    → Below bitrate target (raise s c)
unfolding raise
raise-Below bitrate target slow_start c ordered h = ground arith
raise-Below bitrate target congestion_avoidance c ordered h = ground arith
raise-Below bitrate target recovery c ordered h = ground arith

module _ (L : Loss) where
  step-Below :
      (bitrate target : ℕ) (i : Input) (c : CongestionController)
      → bitrate ≤ target
      → no_restart i ≡ true
      → Below bitrate target c
      → Below bitrate target (step L c i)
  unfolding step update on_packet_sent on_rtt on_nack on_remb
  step-Below bitrate target sent c ordered e h = ground arith
  step-Below bitrate target (nack lost now) c ordered e h = ground arith
  step-Below bitrate target (remb b now) c ordered e h = ground arith
  step-Below bitrate target (rtt sample) c ordered e h = ground arith
  step-Below bitrate target (tick now) c ordered e h = ground (
    arith,
    raise-Below bitrate target c.state (record c { nacks_in_interval = 0; packets_in_interval = 0 })
        ordered,
  )
  step-Below bitrate target (restart b) c ordered e h = absurd (ground arith)

  run-Below :
      (bitrate target : ℕ) (is : List Input) (c : CongestionController)
      → bitrate ≤ target
      → NoRestart is
      → Below bitrate target c
      → Below bitrate target (run L c is)
  unfolding run
  run-Below bitrate target [] c ordered w h = h
  run-Below bitrate target (i ∷ is) c ordered (e, w) h =
      run-Below bitrate target is (step L c i) ordered w (step-Below bitrate target i c ordered e h)

  -- Once the receiver has estimated a bit rate that is not below the least one, no later estimate lets
  -- the target rise again above that rate, or above the target it had then, before a reset.
  pub estimate_caps_for_good :
      (c : CongestionController) (bitrate now : ℕ) (is : List Input)
      → c.min_bitrate ≤ bitrate
      → NoRestart is
      → (run L (on_remb bitrate now c) is).target_bitrate ≤ max bitrate c.target_bitrate
  unfolding on_remb
  estimate_caps_for_good c bitrate now is enough w =
      let start : Below bitrate (max bitrate c.target_bitrate) (on_remb bitrate now c) =
        ground arith in
      (run-Below bitrate (max bitrate c.target_bitrate) is (on_remb bitrate now c) (omega arith) w
        start).highest
