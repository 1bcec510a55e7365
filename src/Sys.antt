-- ===== src/Sys.antt =====
-- threadx-sys/src/lib.rs: the constants that the wrappers use.
use threadx_rust.Base.{ℕ}

abbrev pub tx_no_wait : ℕ
tx_no_wait = 0

abbrev pub tx_wait_forever : ℕ
tx_wait_forever = 0xffffffff

abbrev pub tx_and : ℕ
tx_and = 2

abbrev pub tx_and_clear : ℕ
tx_and_clear = 3

abbrev pub tx_or : ℕ
tx_or = 0

abbrev pub tx_or_clear : ℕ
tx_or_clear = 1

abbrev pub tx_success : ℕ
tx_success = 0x00

abbrev pub tx_deleted : ℕ
tx_deleted = 0x01

abbrev pub tx_pool_error : ℕ
tx_pool_error = 0x02

abbrev pub tx_ptr_error : ℕ
tx_ptr_error = 0x03

abbrev pub tx_wait_error : ℕ
tx_wait_error = 0x04

abbrev pub tx_size_error : ℕ
tx_size_error = 0x05

abbrev pub tx_group_error : ℕ
tx_group_error = 0x06

abbrev pub tx_no_events : ℕ
tx_no_events = 0x07

abbrev pub tx_option_error : ℕ
tx_option_error = 0x08

abbrev pub tx_queue_error : ℕ
tx_queue_error = 0x09

abbrev pub tx_queue_empty : ℕ
tx_queue_empty = 0x0a

abbrev pub tx_queue_full : ℕ
tx_queue_full = 0x0b

abbrev pub tx_semaphore_error : ℕ
tx_semaphore_error = 0x0c

abbrev pub tx_no_instance : ℕ
tx_no_instance = 0x0d

abbrev pub tx_thread_error : ℕ
tx_thread_error = 0x0e

abbrev pub tx_priority_error : ℕ
tx_priority_error = 0x0f

abbrev pub tx_no_memory : ℕ
tx_no_memory = 0x10

abbrev pub tx_delete_error : ℕ
tx_delete_error = 0x11

abbrev pub tx_resume_error : ℕ
tx_resume_error = 0x12

abbrev pub tx_caller_error : ℕ
tx_caller_error = 0x13

abbrev pub tx_suspend_error : ℕ
tx_suspend_error = 0x14

abbrev pub tx_timer_error : ℕ
tx_timer_error = 0x15

abbrev pub tx_tick_error : ℕ
tx_tick_error = 0x16

abbrev pub tx_activate_error : ℕ
tx_activate_error = 0x17

abbrev pub tx_thresh_error : ℕ
tx_thresh_error = 0x18

abbrev pub tx_suspend_lifted : ℕ
tx_suspend_lifted = 0x19

abbrev pub tx_wait_aborted : ℕ
tx_wait_aborted = 0x1a

abbrev pub tx_wait_abort_error : ℕ
tx_wait_abort_error = 0x1b

abbrev pub tx_mutex_error : ℕ
tx_mutex_error = 0x1c

abbrev pub tx_not_available : ℕ
tx_not_available = 0x1d

abbrev pub tx_not_owned : ℕ
tx_not_owned = 0x1e

abbrev pub tx_inherit_error : ℕ
tx_inherit_error = 0x1f

abbrev pub tx_not_done : ℕ
tx_not_done = 0x20

abbrev pub tx_ceiling_exceeded : ℕ
tx_ceiling_exceeded = 0x21

abbrev pub tx_invalid_ceiling : ℕ
tx_invalid_ceiling = 0x22

abbrev pub tx_feature_not_enabled : ℕ
tx_feature_not_enabled = 0xff
