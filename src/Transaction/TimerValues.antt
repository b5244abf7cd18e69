-- ===== src/Transaction/TimerValues.antt =====
-- The durations that the timers run for, crates/rsiprtp/src/transaction/timer.rs.
pub mod Backoff
use rsiprtp.Common.{ℕ, ◌+◌, ◌*◌, min, Bool, ◌==◌, if◌then◌else◌}

-- A `std::time::Duration`, in nanoseconds.
abbrev pub Duration : Type 0
Duration = ℕ

abbrev pub from_millis : ℕ → Duration
from_millis ms = ms * 1000000

abbrev pub from_secs : ℕ → Duration
from_secs s = s * 1000000000

abbrev pub is_zero : Duration → Bool
is_zero d = d == 0

-- `Duration::MAX`: 2 ^ 64 - 1 seconds and 999999999 nanoseconds.
abbrev pub duration_max : Duration
duration_max = 18446744073709551615999999999

pub record TimerValues : Type 0 where
  pub t1 : Duration
  pub t2 : Duration
  pub t4 : Duration

-- `TimerValues::default`.
abbrev pub default : TimerValues
default = record { t1 = from_millis 500; t2 = from_secs 4; t4 = from_secs 5 }

unfoldable pub with_t1 : ℕ → TimerValues
with_t1 t1_ms = record default { t1 = from_millis t1_ms }

unfoldable pub timer_a : TimerValues → Duration
timer_a v = v.t1

unfoldable pub timer_b : TimerValues → Duration
timer_b v = v.t1 * 64

unfoldable pub timer_c : TimerValues → Duration
timer_c v = from_secs 180 + from_secs 1

unfoldable pub timer_d : TimerValues → Duration
timer_d v = from_secs 32 + from_secs 1

unfoldable pub timer_e : TimerValues → Duration
timer_e v = v.t1

unfoldable pub timer_f : TimerValues → Duration
timer_f v = v.t1 * 64

unfoldable pub timer_g : TimerValues → Duration
timer_g v = v.t1

unfoldable pub timer_h : TimerValues → Duration
timer_h v = v.t1 * 64

unfoldable pub timer_i : TimerValues → Duration
timer_i v = v.t4

unfoldable pub timer_j : TimerValues → Bool → Duration
timer_j v reliable = if reliable then 0 else v.t1 * 64

unfoldable pub timer_k : TimerValues → Bool → Duration
timer_k v reliable = if reliable then 0 else v.t4

unfoldable pub next_retransmit : TimerValues → Duration → Duration
next_retransmit v current = let doubled = current * 2 in min doubled v.t2
