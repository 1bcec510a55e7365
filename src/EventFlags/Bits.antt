-- ===== src/EventFlags/Bits.antt =====
-- The bits of a word of event flags.
use native.Mathlib.Nat.{div-eq_of_lt, pow-suc, mod-eq_of_lt, div_self}
use threadx_rust.Base.{
  inr, ==_iff, ap, inl, Bool-cases, ℕ, zero, suc, ◌/◌, ◌%◌, ◌^◌, ◌<◌, ◌≡◌, refl, Bool, true, arith,
  ◌==◌,
}

-- Bit `i` of `flags`.
unfoldable pub has_bit : ℕ → ℕ → Bool
has_bit flags i = flags / 2 ^ i % 2 == 1

pow_two-pos : (i : ℕ) → 0 < 2 ^ i
pow_two-pos zero = omega arith
pow_two-pos (suc i) = omega (arith, pow_two-pos i, pow-suc 2 i)

pub has_bit-one : (i : ℕ) → has_bit 1 i ≡ (i == 0)
unfolding has_bit
has_bit-one zero = refl
has_bit-one (suc i) =
    let h : 1 < 2 ^ suc i = omega (arith, pow_two-pos i, pow-suc 2 i) in
    rw (div-eq_of_lt h) (ground arith)

pow_two-lt : (n i : ℕ) → i < n → 2 ^ i < 2 ^ n
pow_two-lt zero i h = absurd (omega arith)
pow_two-lt (suc n) i h = elim (Bool-cases (i == n)) [
  | inl last ↦
      let same : 2 ^ i ≡ 2 ^ n = ap (λ k. 2 ^ k) ((==_iff i n).0 last) in
      omega (arith, same, pow-suc 2 n, pow_two-pos n)
  | inr before ↦
      let below : i < n = ground arith in
      omega (arith, pow_two-lt n i below, pow-suc 2 n, pow_two-pos n)
]

-- `0b1 << i` has bit `i`.
pub has_bit-shift : (i : ℕ) → i < 32 → has_bit (2 ^ i % 2 ^ 32) i ≡ true
unfolding has_bit
has_bit-shift i h =
    let same : 2 ^ i % 2 ^ 32 ≡ 2 ^ i = mod-eq_of_lt (pow_two-lt 32 i h) in
    rw (same, div_self (pow_two-pos i)) refl
