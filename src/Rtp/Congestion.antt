-- ===== src/Rtp/Congestion.antt =====
-- The congestion controller, crates/rsiprtp/src/rtp/session.rs. A time and a `Duration` are numbers of
-- nanoseconds, and `Instant::now()` is an argument.
pub mod Bounds
mod Examples
use rsiprtp.Common.{
  ℕ, ◌+◌, ◌-◌, ◌*◌, ◌/◌, ◌%◌, List, [], ◌∷◌, ◌++◌, min, max, Bool, true, false, Option, none, some,
  ltb, leb, if◌then◌else◌, length, ◌==◌,
}

-- Whether the first number divided by the second as an f64, or 0.0 if the second is 0, is above 0.02.
pub record Loss : Type 0 where
  pub is_significant : ℕ → ℕ → Bool

pub data CongestionState : Type 0 where
  slow_start congestion_avoidance recovery : CongestionState

pub record CongestionController : Type 0 where
  pub state : CongestionState
  pub target_bitrate : ℕ
  pub min_bitrate : ℕ
  pub max_bitrate : ℕ
  pub ssthresh : ℕ
  pub last_increase : ℕ
  pub last_decrease : ℕ
  pub rtt_samples : List ℕ
  pub smoothed_rtt : ℕ
  pub rtt_var : ℕ
  pub nacks_in_interval : ℕ
  pub packets_in_interval : ℕ
  pub last_remb : Option ℕ

unfoldable pub new : ℕ → ℕ → ℕ → ℕ → CongestionController
new initial_bitrate min_bitrate max_bitrate now = record {
  state = slow_start;
  target_bitrate = initial_bitrate;
  min_bitrate = min_bitrate;
  max_bitrate = max_bitrate;
  ssthresh = max_bitrate / 2;
  last_increase = now;
  last_decrease = now;
  rtt_samples = [];
  smoothed_rtt = 100000000;
  rtt_var = 50000000;
  nacks_in_interval = 0;
  packets_in_interval = 0;
  last_remb = none;
}

unfoldable pub on_packet_sent : CongestionController → CongestionController
on_packet_sent c = record c { packets_in_interval = (c.packets_in_interval + 1) % 4294967296 }

unfoldable pub on_nack : ℕ → ℕ → CongestionController → CongestionController
on_nack lost_packets now c =
    let c = record c { nacks_in_interval = (c.nacks_in_interval + lost_packets) % 4294967296 } in
    if ltb (now - c.last_decrease) c.smoothed_rtt
    then c
    else (let target = max (c.target_bitrate / 2) c.min_bitrate in
        record c {
          target_bitrate = target;
          ssthresh = target;
          state = recovery;
          last_decrease = now;
        })

unfoldable pub on_remb : ℕ → ℕ → CongestionController → CongestionController
on_remb bitrate now c =
    let c = record c { last_remb = some bitrate } in
    let c : CongestionController =
      if ltb bitrate (c.target_bitrate * 90 % 18446744073709551616 / 100)
      then (let target = max bitrate c.min_bitrate in
          record c {
            target_bitrate = target;
            ssthresh = target;
            state = congestion_avoidance;
            last_decrease = now;
          })
      else c in
    if ltb bitrate c.max_bitrate then record c { max_bitrate = bitrate } else c

abbrev pub abs_diff : ℕ → ℕ → ℕ
abs_diff a b = if ltb a b then b - a else a - b

abbrev pub pop_front : List ℕ → List ℕ
pop_front [] = []
pop_front (x ∷ xs) = xs

unfoldable pub on_rtt : ℕ → CongestionController → CongestionController
on_rtt rtt c =
    let samples : List ℕ =
      if leb 10 (length c.rtt_samples) then pop_front c.rtt_samples else c.rtt_samples in
    let c = record c { rtt_samples = samples ++ (rtt ∷ []) } in
    if length c.rtt_samples == 1
    then record c { smoothed_rtt = rtt; rtt_var = rtt / 2 }
    else record c {
      rtt_var = c.rtt_var * 3 / 4 + abs_diff c.smoothed_rtt rtt / 4;
      smoothed_rtt = c.smoothed_rtt * 7 / 8 + rtt / 8;
    }

abbrev pub add_u64 : ℕ → ℕ → ℕ
add_u64 a b = (a + b) % 18446744073709551616

-- The match on the state: by a tenth, up to the threshold, or by at least 10 kbit/s.
unfoldable pub raise : CongestionState → CongestionController → CongestionController
raise slow_start c =
    let target = min (add_u64 c.target_bitrate (c.target_bitrate / 10)) c.max_bitrate in
    let c = record c { target_bitrate = target } in
    if leb c.ssthresh target then record c { state = congestion_avoidance } else c
raise s c =
    let packets_per_second = c.target_bitrate / 9600 in
    let increase = max (packets_per_second / 10) 10000 in
    let target = min (add_u64 c.target_bitrate increase) c.max_bitrate in
    elim c.last_remb [
      | none ↦ record c { target_bitrate = target }
      | some remb ↦ record c { target_bitrate = min target remb }
    ]

module _ (L : Loss) where
  unfoldable pub update : ℕ → CongestionController → CongestionController
  update now c =
      let significant = L.is_significant c.nacks_in_interval c.packets_in_interval in
      let c = record c { nacks_in_interval = 0; packets_in_interval = 0 } in
      if significant
      then c
      else if ltb (now - c.last_increase) 100000000
      then c
      else record (raise c.state c) { last_increase = now }

unfoldable pub reset : ℕ → CongestionController → CongestionController
reset initial_bitrate c = record c {
  state = slow_start;
  target_bitrate = initial_bitrate;
  ssthresh = c.max_bitrate / 2;
  nacks_in_interval = 0;
  packets_in_interval = 0;
  last_remb = none;
}
