-- ===== src/Board/Reload.antt =====
-- threadx-app/cross/board/src/lib.rs: the period of the system tick.
use native.Mathlib.Nat.{
  mul-div-le, lt-mul-div-succ, div-le_of_le-mul, le-div_iff_mul-le, div-eq_of_lt-le,
}
use mathlib.Core.Path.{subst}
use native.Mathlib.Decide.{dec_le}
use threadx_rust.Base.{
  ℕ, ◌+◌, ◌-◌, ◌*◌, ◌/◌, ◌^◌, ◌≤◌, ◌<◌, ◌≡◌, Bool, some, none, arith, ◌↔◌, ◌⊎◌, inl, inr,
  if◌then◌else◌,
}
use threadx_rust.Allocator.{sub_usize}
use threadx_rust.Board.{reload}

module _ (tps : ℕ) (pos : 1 ≤ tps) where
  quotient_pos : tps ≤ 96_000_000 → 1 ≤ 96_000_000 / tps
  quotient_pos h = (le-div_iff_mul-le {k = tps} {x = 1} {y = 96_000_000} pos).1 (omega arith)

  quotient_zero : 96_000_000 < tps → 96_000_000 / tps ≡ 0
  quotient_zero h = div-eq_of_lt-le tps (omega arith) (omega arith)

  quotient_small : 6 ≤ tps → 96_000_000 / tps ≤ 16_000_000
  quotient_small h = div-le_of_le-mul tps (omega arith)

  quotient_large : tps ≤ 5 → 19_200_000 ≤ 96_000_000 / tps
  quotient_large h =
      (le-div_iff_mul-le {k = tps} {x = 19_200_000} {y = 96_000_000} pos).1 (omega arith)

  counter_fits : (v : ℕ) → v + 1 ≡ 96_000_000 / tps → (v < 2 ^ 24) ↔ (6 ≤ tps)
  counter_fits v e = elim (dec_le 6 tps) [
    | yes h ↦ (λ _. h, λ _. omega (arith, quotient_small h))
    | no h ↦ (λ f. absurd (omega (arith, quotient_large (omega arith))), λ f. absurd (h f))
  ]

-- The reload value of the system tick at 96 MHz, for every tick rate. From 1 to 96,000,000 ticks
-- a second, a tick is the longest whole number of cycles that gives at least that rate, and the
-- value fits into the 24 bits of the counter exactly from 6 ticks a second on. A rate of 0 is a
-- panic. A rate above 96,000,000 is a panic with overflow checks, and the largest `u32` without.
pub reload_lem :
    (checks : Bool) (tps : ℕ)
    → ((tps ≡ 0) × (reload checks tps ≡ none))
      ⊎ ((v : ℕ) × (reload checks tps ≡ some v)
          × (tps * (v + 1) ≤ 96_000_000)
          × (96_000_000 < tps * (v + 2))
          × ((v < 2 ^ 24) ↔ (6 ≤ tps)))
      ⊎ ((96_000_000 < tps) × (reload checks tps ≡ (if checks then none else some (2 ^ 32 - 1))))
unfolding reload sub_usize
reload_lem checks tps = elim (dec_le 1 tps) [
  | no zero_rate ↦ inl (omega arith, ground arith)
  | yes pos ↦ elim (dec_le tps 96_000_000) [
    | yes h ↦
        let q = 96_000_000 / tps in
        let some_q = quotient_pos tps pos h in
        inr (
          inl (
            q - 1,
            ground arith,
            subst (λ x. tps * x ≤ 96_000_000) (omega arith) (mul-div-le 96_000_000 tps),
            subst (λ x. 96_000_000 < tps * x) (omega arith)
                (lt-mul-div-succ 96_000_000 {b = tps} pos),
            counter_fits tps pos (q - 1) (omega arith),
          ))
    | no h ↦ inr (inr (omega arith, ground (arith, quotient_zero tps pos (omega arith))))
  ]
]
