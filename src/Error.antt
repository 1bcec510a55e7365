-- ===== src/Error.antt =====
-- threadx-rs/src/error.rs: the status codes of the kernel as an enum.
pub mod Codes
mod Tests
use threadx_rust.Base.{ℕ, Option, List, [], ◌∷◌, find_code}
use threadx_rust.Sys

pub data TxError : Type 0 where
  deleted : TxError
  pool_error : TxError
  ptr_error : TxError
  wait_error : TxError
  size_error : TxError
  group_error : TxError
  no_events : TxError
  option_error : TxError
  queue_error : TxError
  queue_empty : TxError
  queue_full : TxError
  semaphore_error : TxError
  no_instance : TxError
  thread_error : TxError
  priority_error : TxError
  no_memory_or_start_error : TxError
  delete_error : TxError
  resume_error : TxError
  caller_error : TxError
  suspend_error : TxError
  timer_error : TxError
  tick_error : TxError
  activate_error : TxError
  thresh_error : TxError
  suspend_lifted : TxError
  wait_aborted : TxError
  wait_abort_error : TxError
  mutex_error : TxError
  not_available : TxError
  not_owned : TxError
  inherit_error : TxError
  not_done : TxError
  ceiling_exceeded : TxError
  invalid_ceiling : TxError
  feature_not_enabled : TxError
  unknown : TxError

-- The discriminants of the `repr(u32)`.
unfoldable pub discriminant : TxError → ℕ
discriminant deleted = Sys.tx_deleted
discriminant pool_error = Sys.tx_pool_error
discriminant ptr_error = Sys.tx_ptr_error
discriminant wait_error = Sys.tx_wait_error
discriminant size_error = Sys.tx_size_error
discriminant group_error = Sys.tx_group_error
discriminant no_events = Sys.tx_no_events
discriminant option_error = Sys.tx_option_error
discriminant queue_error = Sys.tx_queue_error
discriminant queue_empty = Sys.tx_queue_empty
discriminant queue_full = Sys.tx_queue_full
discriminant semaphore_error = Sys.tx_semaphore_error
discriminant no_instance = Sys.tx_no_instance
discriminant thread_error = Sys.tx_thread_error
discriminant priority_error = Sys.tx_priority_error
discriminant no_memory_or_start_error = Sys.tx_no_memory
discriminant delete_error = Sys.tx_delete_error
discriminant resume_error = Sys.tx_resume_error
discriminant caller_error = Sys.tx_caller_error
discriminant suspend_error = Sys.tx_suspend_error
discriminant timer_error = Sys.tx_timer_error
discriminant tick_error = Sys.tx_tick_error
discriminant activate_error = Sys.tx_activate_error
discriminant thresh_error = Sys.tx_thresh_error
discriminant suspend_lifted = Sys.tx_suspend_lifted
discriminant wait_aborted = Sys.tx_wait_aborted
discriminant wait_abort_error = Sys.tx_wait_abort_error
discriminant mutex_error = Sys.tx_mutex_error
discriminant not_available = Sys.tx_not_available
discriminant not_owned = Sys.tx_not_owned
discriminant inherit_error = Sys.tx_inherit_error
discriminant not_done = Sys.tx_not_done
discriminant ceiling_exceeded = Sys.tx_ceiling_exceeded
discriminant invalid_ceiling = Sys.tx_invalid_ceiling
discriminant feature_not_enabled = Sys.tx_feature_not_enabled
discriminant unknown = 0xfe

-- The variants in the order of the declaration, which is the order of the derived `match`.
abbrev pub variants : List TxError
variants =
    deleted ∷ pool_error ∷ ptr_error ∷ wait_error ∷ size_error ∷ group_error ∷ no_events
    ∷ option_error ∷ queue_error ∷ queue_empty ∷ queue_full ∷ semaphore_error ∷ no_instance
    ∷ thread_error ∷ priority_error ∷ no_memory_or_start_error ∷ delete_error ∷ resume_error
    ∷ caller_error ∷ suspend_error ∷ timer_error ∷ tick_error ∷ activate_error ∷ thresh_error
    ∷ suspend_lifted ∷ wait_aborted ∷ wait_abort_error ∷ mutex_error ∷ not_available ∷ not_owned
    ∷ inherit_error ∷ not_done ∷ ceiling_exceeded ∷ invalid_ceiling ∷ feature_not_enabled ∷ unknown
    ∷ []

-- `TxError::from_u32`, derived by `FromPrimitive`.
unfoldable pub from_u32 : ℕ → Option TxError
unfolding discriminant
from_u32 n = find_code discriminant n variants
