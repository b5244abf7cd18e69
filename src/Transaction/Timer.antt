-- ===== src/Transaction/Timer.antt =====
-- Timer names and active timers, crates/rsiprtp/src/transaction/timer.rs.
use rsiprtp.Common.{ℕ, Bool, leb, ◌==◌}

-- `Timer::A` is `timer_a`, and so on.
pub data Timer : Type 0 where
  timer_a timer_b timer_c timer_d timer_e timer_f timer_g timer_h timer_i timer_j timer_k timer_n :
      Timer

abbrev pub timer_index : Timer → ℕ
timer_index timer_a = 0
timer_index timer_b = 1
timer_index timer_c = 2
timer_index timer_d = 3
timer_index timer_e = 4
timer_index timer_f = 5
timer_index timer_g = 6
timer_index timer_h = 7
timer_index timer_i = 8
timer_index timer_j = 9
timer_index timer_k = 10
timer_index timer_n = 11

-- The derived equality of timers.
abbrev pub same_timer : Timer → Timer → Bool
same_timer t u = timer_index t == timer_index u

pub record ActiveTimer : Type 0 where
  pub timer : Timer
  pub deadline_us : ℕ  -- u64

unfoldable pub is_expired : ActiveTimer → ℕ → Bool
is_expired t now_us = leb t.deadline_us now_us
