-- ===== src/Time.antt =====
-- threadx-rs/src/time.rs: durations as kernel ticks.
pub mod Rounding
use threadx_rust.Base.{ℕ, ◌+◌, ◌*◌, ◌/◌, ◌%◌, ◌^◌, Option, none, some, ◌==◌, if◌then◌else◌}

-- `core::time::Duration`, with `nanos` below one second.
pub record Duration : Type 0 where
  pub secs : ℕ
  pub nanos : ℕ

abbrev pub as_millis : Duration → ℕ
as_millis d = d.secs * 1000 + d.nanos / 1_000_000

abbrev pub from_millis : ℕ → Duration
from_millis n = record { secs = n / 1000; nanos = n % 1000 * 1_000_000 }

-- `MILLIS_PER_TICK`, for the ticks per second of the build configuration.
unfoldable pub millis_per_tick : ℕ → ℕ
millis_per_tick ticks_per_second = 1000 / ticks_per_second

-- `From<Duration> for TxTicks`, then `Into<u32>`. `none`: the division by zero.
unfoldable pub ticks : ℕ → Duration → Option ℕ
unfolding millis_per_tick
ticks ticks_per_second d =
    if millis_per_tick ticks_per_second == 0
    then none
    else some (as_millis d / millis_per_tick ticks_per_second % 2 ^ 32)
