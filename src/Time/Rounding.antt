-- ===== src/Time/Rounding.antt =====
-- threadx-rs/src/time.rs: how a duration is rounded.
use native.Mathlib.Nat.{le-div_iff_mul-le, div-eq_of_lt, div-mul-le_self, lt-div-mul-add}
use native.Mathlib.Decide.{dec_le}
use threadx_rust.Base.{ℕ, ◌+◌, ◌*◌, ◌/◌, ◌%◌, ◌^◌, ◌≤◌, ◌<◌, ◌≡◌, ◌⊎◌, none, some, arith, inl, inr}
use threadx_rust.Time.{Duration, as_millis, millis_per_tick, ticks}

pub millis_per_tick-pos : (tps : ℕ) → 0 < tps → tps ≤ 1000 → 0 < millis_per_tick tps
unfolding millis_per_tick
millis_per_tick-pos tps pos le = (le-div_iff_mul-le pos).1 (omega arith)

millis_per_tick-zero : (tps : ℕ) → 1000 < tps → millis_per_tick tps ≡ 0
unfolding millis_per_tick
millis_per_tick-zero tps h = div-eq_of_lt h

pub ticks-some :
    (tps : ℕ) (d : Duration)
    → 0 < millis_per_tick tps
    → ticks tps d ≡ some (as_millis d / millis_per_tick tps % 2 ^ 32)
unfolding ticks
ticks-some tps d h = ground arith

ticks-zero : (tps : ℕ) (d : Duration) → millis_per_tick tps ≡ 0 → ticks tps d ≡ none
unfolding ticks
ticks-zero tps d h = ground arith

-- For a positive number of ticks per second, a duration converts to whole ticks, rounded down, and
-- is reduced modulo 2 ^ 32. The conversion divides by zero exactly when there are more than 1000
-- ticks per second.
pub ticks_round_down :
    (tps : ℕ) (d : Duration)
    → 0 < tps
    → ((ticks tps d ≡ none) × (1000 < tps))
      ⊎ ((t : ℕ) × (ticks tps d ≡ some (t % 2 ^ 32))
          × (tps ≤ 1000)
          × (t * millis_per_tick tps ≤ as_millis d)
          × (as_millis d < (t + 1) * millis_per_tick tps))
ticks_round_down tps d pos = elim (dec_le tps 1000) [
  | yes le ↦
      let p = millis_per_tick-pos tps pos le in
      inr (
        as_millis d / millis_per_tick tps,
        ticks-some tps d p,
        le,
        div-mul-le_self _ _,
        omega (arith, lt-div-mul-add {a = as_millis d} p),
      )
  | no gt ↦ inl (ticks-zero tps d (millis_per_tick-zero tps (omega arith)), omega arith)
]
