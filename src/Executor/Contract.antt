-- ===== src/Executor/Contract.antt =====
-- What the executor relies on of the kernel's mutexes and event flags, as ThreadX documents them.
use threadx_rust.Base.{ℕ, ◌≡◌, Bool, true, not, ◌&&◌, ◌||◌}
use threadx_rust.Sys
use threadx_rust.EventFlags.Bits.{has_bit}
use threadx_rust.Executor.{ExecutorApi}

-- All requested flags are set.
abbrev pub AllSet : (ℕ → Bool) → ℕ → Type 0
AllSet flags requested = (i : ℕ) → has_bit requested i ≡ true → flags i ≡ true

module _ {K : Type 0} (os : ExecutorApi K) where
  abbrev pub mutex_get : K → ℕ × Unit {0} × K
  mutex_get = os.mutexes.tx_mutex_get os.mutex_s Sys.tx_wait_forever

  abbrev pub mutex_put : K → ℕ × Unit {0} × K
  mutex_put = os.mutexes.tx_mutex_put os.mutex_s

  -- `TX_OR`
  abbrev pub flags_set : ℕ → K → ℕ × Unit {0} × K
  flags_set flags = os.flags.tx_event_flags_set os.executor_event flags 0

  abbrev pub flags_get : ℕ → K → ℕ × ℕ × K
  flags_get flags =
      os.flags.tx_event_flags_get os.executor_event flags Sys.tx_and_clear Sys.tx_wait_forever

-- `bit k i` is flag `i` of the executor's group. A get of the mutex that waits forever succeeds;
-- mutex calls leave the flags alone; a set adds its flags; a get of flags that are all set
-- succeeds and clears them.
pub record KernelContract {K : Type 0} (os : ExecutorApi K) : Type 0 where
  pub bit : K → ℕ → Bool
  pub mutex_get_ok : (k : K) → (mutex_get os k).0 ≡ Sys.tx_success
  pub bit-mutex_get : (k : K) (i : ℕ) → bit (mutex_get os k).2 i ≡ bit k i
  pub bit-mutex_put : (k : K) (i : ℕ) → bit (mutex_put os k).2 i ≡ bit k i
  pub flags_set_ok : (flags : ℕ) (k : K) → (flags_set os flags k).0 ≡ Sys.tx_success
  pub bit-flags_set :
      (flags : ℕ) (k : K) (i : ℕ) → bit (flags_set os flags k).2 i ≡ (bit k i || has_bit flags i)
  pub flags_get_ok :
      (flags : ℕ) (k : K) → AllSet (bit k) flags → (flags_get os flags k).0 ≡ Sys.tx_success
  pub bit-flags_get :
      (flags : ℕ) (k : K)
      → AllSet (bit k) flags
      → (i : ℕ) → bit (flags_get os flags k).2 i ≡ (bit k i && not (has_bit flags i))
