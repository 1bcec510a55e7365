-- ===== src/App/Payload.antt =====
-- threadx-app/cross/app/src/bin/network.rs: an event as the bytes of a message.
use threadx_rust.Base.{
  ◌%◌, ◌/◌, ◌+◌, ℕ, zero, suc, List, [], ◌∷◌, ◌++◌, length, ltb, leb, if◌then◌else◌,
}

-- `i32`, by its value.
pub data ℤ : Type 0 where
  pos : ℕ → ℤ
  negsuc : ℕ → ℤ

pub data Event : Type 0 where
  temperature_measurement : ℤ → Event

-- The decimal digits of a number as bytes, on fuel; 9 is enough for the ten digits of an `i32`.
unfoldable pub decimal : (fuel n : ℕ) → List ℕ
decimal zero n = (48 + n) ∷ []
decimal (suc fuel) n =
    let rest = decimal fuel (n / 10) in
    if ltb n 10 then (48 + n) ∷ [] else rest ++ (48 + n % 10) ∷ []

-- A write to a `String<4>`: a text that does not fit is not written at all.
abbrev pub push_str : List ℕ → List ℕ → List ℕ
push_str s t = if leb (length s + length t) 4 then s ++ t else s

-- `write!(str, "{measure}")`: the sign, if there is one, and then the digits. An error of the
-- write is ignored, and what was written before it stays.
unfoldable pub event_bytes : Event → List ℕ
event_bytes (temperature_measurement (pos n)) = push_str [] (decimal 9 n)
event_bytes (temperature_measurement (negsuc n)) = push_str (45 ∷ []) (decimal 9 (suc n))
