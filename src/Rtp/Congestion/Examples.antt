-- ===== src/Rtp/Congestion/Examples.antt =====
-- A run of the congestion controller: a low estimate of the receiver, then a high one.
use rsiprtp.Common.{◌≤◌, List, [], ◌∷◌, max, ltb, ◌*◌, refl, arith}
use rsiprtp.Rtp.Congestion.{Loss, CongestionController, new, on_remb}
use rsiprtp.Rtp.Congestion.Bounds.{Input, tick, remb, nack, rtt, sent, run, estimate_caps_for_good}

abbrev loss : Loss
loss = record { is_significant = λ nacks packets. ltb (2 * packets) (100 * nacks) }

abbrev inputs : List Input
inputs =
    sent
    ∷ tick 100000000
    ∷ rtt 40000000
    ∷ remb 60000 120000000
    ∷ nack 1 200000000
    ∷ remb 90000 250000000
    ∷ tick 300000000
    ∷ []

abbrev ending : CongestionController
ending = run loss (new 64000 6000 128000 0) inputs

abbrev later : List Input
later = remb 100000 200000000 ∷ tick 300000000 ∷ tick 400000000 ∷ []

estimate_caps_for_good_example :
    (run loss (on_remb 20000 100000000 (new 64000 6000 128000 0)) later).target_bitrate
    ≤ max 20000 (new 64000 6000 128000 0).target_bitrate
unfolding new
estimate_caps_for_good_example =
    estimate_caps_for_good loss (new 64000 6000 128000 0) 20000 100000000 later (omega arith)
      (refl, (refl, (refl, tt)))
