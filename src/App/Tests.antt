-- ===== src/App/Tests.antt =====
-- threadx-app/cross/app/src/bin/network.rs: payloads.
use threadx_rust.Base.{arith, ◌≤◌, ◌⊎◌, ◌<◌, ℕ, ◌≡◌, refl, List, [], ◌∷◌}
use threadx_rust.App.Payload.{event_bytes, temperature_measurement, pos, negsuc, decimal}
use threadx_rust.App.Digits.{value, payload_lem}

payload_lem_example :
    (((205 < 10000) × (value 0 (event_bytes (temperature_measurement (pos 205))) ≡ 205))
      ⊎ ((10000 ≤ 205) × (event_bytes (temperature_measurement (pos 205)) ≡ [])))
    × (((l : List ℕ) × (206 < 1000)
          × (event_bytes (temperature_measurement (negsuc 205)) ≡ 45 ∷ l)
          × (value 0 l ≡ 206))
        ⊎ ((1000 ≤ 206) × (event_bytes (temperature_measurement (negsuc 205)) ≡ 45 ∷ [])))
payload_lem_example = payload_lem 205 (omega arith)

warm : event_bytes (temperature_measurement (pos 205)) ≡ 50 ∷ 48 ∷ 53 ∷ []
unfolding event_bytes decimal
warm = refl
