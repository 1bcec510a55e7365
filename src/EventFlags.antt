-- ===== src/EventFlags.antt =====
-- threadx-rs/src/event_flags.rs: groups of event flags.
pub mod Bits
use threadx_rust.Base.{ℕ, Prog, pure, ◌>>=◌, ◌>>◌}
use threadx_rust.Sys
use threadx_rust.Error.{TxError}
use threadx_rust.Call.{KernelCall, tx_checked_call, WaitOption, wait_code}

pub data GetOption : Type 0 where
  wait_all : GetOption
  wait_all_and_clear : GetOption
  wait_any : GetOption
  wait_any_and_clear : GetOption

-- `get_option as ULONG`
unfoldable pub get_code : GetOption → ℕ
get_code wait_all = Sys.tx_and
get_code wait_all_and_clear = Sys.tx_and_clear
get_code wait_any = Sys.tx_or
get_code wait_any_and_clear = Sys.tx_or_clear

pub data SetOption : Type 0 where
  set_and_clear : SetOption
  set_any : SetOption

unfoldable pub set_code : SetOption → ℕ
set_code set_and_clear = Sys.tx_and
set_code set_any = Sys.tx_or

-- `tx_event_flags_get` writes the flags that it found through its out pointer.
pub record EventFlagsApi (K : Type 0) : Type 0 where
  pub tx_event_flags_create : (group_ptr name : ℕ) → KernelCall K (Unit {0})
  pub tx_event_flags_set : (group_ptr flags_to_set set_option : ℕ) → KernelCall K (Unit {0})
  pub tx_event_flags_get : (group_ptr requested_flags get_option wait_option : ℕ) → KernelCall K ℕ

pub record EventFlagsGroupHandle : Type 0 where
  pub flag_group_ptr : ℕ

module _ {K : Type 0} (os : EventFlagsApi K) where
  -- `EventFlagsGroup::initialize`, for the group at the given address.
  unfoldable pub initialize : (group_ptr name : ℕ) → Prog K TxError EventFlagsGroupHandle
  initialize group_ptr name = do
    tx_checked_call (os.tx_event_flags_create group_ptr name)
    pure (record { flag_group_ptr = group_ptr })

  unfoldable pub publish : EventFlagsGroupHandle → (flags_to_set : ℕ) → Prog K TxError (Unit {0})
  publish h flags_to_set = tx_checked_call (os.tx_event_flags_set h.flag_group_ptr flags_to_set 0)

  unfoldable pub get :
      EventFlagsGroupHandle → (requested_flags : ℕ) → GetOption → WaitOption → Prog K TxError ℕ
  get h requested_flags get_option wait_option = tx_checked_call (
      os.tx_event_flags_get h.flag_group_ptr requested_flags (get_code get_option)
        (wait_code wait_option))
