-- ===== src/Network/Once.antt =====
-- threadx-app/cross/app/src/network/network.rs: the network comes up at most once.
use threadx_rust.Base.{arith, err, List, ℕ, ◌≡◌}
use threadx_rust.Network.Setup.{SetupApi, Memory, SetupState, initialize}
use threadx_rust.Network.{already_initialized}

module _ {K : Type 0} (os : SetupApi K) (mem : Memory) where
  -- After one call of `initialize`, whatever its result, every later call is refused with
  -- `AlreadyInitialized` and touches nothing: a network that failed to come up stays down.
  pub initialize_once :
      (s : SetupState K) (ssid pw ssid' pw' : List ℕ)
      → let s' = (initialize os mem ssid pw s).1 in
        initialize os mem ssid' pw' s' ≡ (err already_initialized, s')
  unfolding initialize
  initialize_once s ssid pw ssid' pw' = ground arith
