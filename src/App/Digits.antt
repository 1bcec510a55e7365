-- ===== src/App/Digits.antt =====
-- threadx-app/cross/app/src/bin/network.rs: which temperatures arrive in the payload.
use native.Mathlib.Decide.{dec_le}
use native.Mathlib.Nat.{pow-suc}
use threadx_rust.Base.{
  ◌⊎◌, ◌%◌, refl, ◌-◌, ◌/◌, ◌^◌, ◌+◌, ◌*◌, ◌≤◌, ◌<◌, ℕ, zero, suc, ◌≡◌, List, [], ◌∷◌, ◌++◌, length,
  length-append, Bool-cases, ltb, inl, inr, arith,
}
use threadx_rust.App.Payload.{pos, negsuc, temperature_measurement, decimal, event_bytes}

-- The number that these digits stand for, after a number that has been read.
abbrev pub value : ℕ → List ℕ → ℕ
value read [] = read
value read (d ∷ l) = value (read * 10 + (d - 48)) l

value-append :
    (read : ℕ) (l : List ℕ) (d : ℕ) → value read (l ++ d ∷ []) ≡ value read l * 10 + (d - 48)
value-append read [] d = refl
value-append read (x ∷ l) d = value-append (read * 10 + (x - 48)) l d

value-decimal : (fuel n : ℕ) → n < 10 ^ suc fuel → value 0 (decimal fuel n) ≡ n
unfolding decimal
value-decimal zero n h = omega arith
value-decimal (suc fuel) n h = elim (Bool-cases (ltb n 10)) [
  | inl one ↦ rw one (omega arith)
  | inr more ↦
      let small : n / 10 < 10 ^ suc fuel = omega (arith, pow-suc 10 (suc fuel)) in
      rw
        (
          more,
          value-append 0 (decimal fuel (n / 10)) (48 + n % 10),
          value-decimal fuel (n / 10) small,
        )
        (omega arith)
]

length-decimal_le : (d fuel n : ℕ) → d ≤ fuel → n < 10 ^ suc d → length (decimal fuel n) ≤ suc d
unfolding decimal
length-decimal_le d zero n le h = omega arith
length-decimal_le zero (suc fuel) n le h = let one : n < 10 = h in ground arith
length-decimal_le (suc d) (suc fuel) n le h =
    let small : n / 10 < 10 ^ suc d = omega (arith, pow-suc 10 (suc d)) in
    let ih = length-decimal_le d fuel (n / 10) (omega arith) small in
    ground (arith, length-append (decimal fuel (n / 10)) ((48 + n % 10) ∷ []))

pow_ten-pos : (d : ℕ) → 0 < 10 ^ d
pow_ten-pos zero = omega arith
pow_ten-pos (suc d) = omega (arith, pow_ten-pos d, pow-suc 10 d)

length-decimal_gt : (d fuel n : ℕ) → d ≤ fuel → 10 ^ d ≤ n → d < length (decimal fuel n)
unfolding decimal
length-decimal_gt zero zero n le h = omega arith
length-decimal_gt zero (suc fuel) n le h =
    ground (arith, length-append (decimal fuel (n / 10)) ((48 + n % 10) ∷ []))
length-decimal_gt (suc d) zero n le h = absurd (omega arith)
length-decimal_gt (suc d) (suc fuel) n le h =
    let two_digits : 10 ≤ n = omega (arith, pow-suc 10 d, pow_ten-pos d) in
    let large : 10 ^ d ≤ n / 10 = omega (arith, pow-suc 10 d) in
    let ih = length-decimal_gt d fuel (n / 10) (omega arith) large in
    ground (arith, length-append (decimal fuel (n / 10)) ((48 + n % 10) ∷ []))

-- For numbers below 2 ^ 31: the payload of a temperature from -999 to 9999 reads back as that
-- temperature, its digits after a `-` for a negative one. Of a larger one the payload is empty, and
-- of a smaller one it is the sign alone.
pub payload_lem :
    (n : ℕ)
    → n < 2 ^ 31
    → (((n < 10000) × (value 0 (event_bytes (temperature_measurement (pos n))) ≡ n))
        ⊎ ((10000 ≤ n) × (event_bytes (temperature_measurement (pos n)) ≡ [])))
      × (((l : List ℕ) × (suc n < 1000)
            × (event_bytes (temperature_measurement (negsuc n)) ≡ 45 ∷ l)
            × (value 0 l ≡ suc n))
          ⊎ ((1000 ≤ suc n) × (event_bytes (temperature_measurement (negsuc n)) ≡ 45 ∷ [])))
unfolding event_bytes
payload_lem n h = (
  elim (dec_le 10000 n) [
    | yes large ↦ let len = length-decimal_gt 4 9 n (omega arith) large in inr (large, ground arith)
    | no not_large ↦
        let len = length-decimal_le 3 9 n (omega arith) (omega arith) in
        let v = value-decimal 9 n (omega arith) in inl (omega arith, ground arith)
  ],
  elim (dec_le 1000 (suc n)) [
    | yes large ↦
        let len = length-decimal_gt 3 9 (suc n) (omega arith) large in inr (large, ground arith)
    | no not_large ↦
        let len = length-decimal_le 2 9 (suc n) (omega arith) (omega arith) in
        inl (decimal 9 (suc n), omega arith, ground arith, value-decimal 9 (suc n) (omega arith))
  ],
)
