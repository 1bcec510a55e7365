-- ===== src/Semaphore.antt =====
-- threadx-rs/src/semaphore.rs: counting semaphores.
pub mod Notify
pub mod Permits
mod Tests
use threadx_rust.Base.{ℕ, Prog, pure, ◌>>=◌, ◌>>◌, gets, panic_if, not, ◌==◌}
use threadx_rust.Error.{TxError}
use threadx_rust.Call.{KernelCall, tx_checked_call, WaitOption, wait_code}

-- What the kernel is given to call after a put: the one trampoline of the wrapper.
pub data NotifyCallback : Type 0 where
  semaphore_trampoline : NotifyCallback

-- The calls of the kernel, the name pointer of a control block, and its first word.
pub record SemaphoreApi (K : Type 0) : Type 0 where
  pub tx_semaphore_create : (sem_ptr name initial_count : ℕ) → KernelCall K (Unit {0})
  pub tx_semaphore_delete : (sem_ptr : ℕ) → KernelCall K (Unit {0})
  pub tx_semaphore_get : (sem_ptr wait_option : ℕ) → KernelCall K (Unit {0})
  pub tx_semaphore_put : (sem_ptr : ℕ) → KernelCall K (Unit {0})
  pub tx_semaphore_prioritize : (sem_ptr : ℕ) → KernelCall K (Unit {0})
  pub tx_semaphore_put_notify : (sem_ptr : ℕ) → NotifyCallback → KernelCall K (Unit {0})
  pub tx_semaphore_name : (sem_ptr : ℕ) → K → ℕ
  pub first_word : (sem_ptr : ℕ) → K → ℕ

-- `SemaphoreOwnerHandle` and `SemaphoreUserHandle`
pub record SemaphoreOwnerHandle : Type 0 where
  pub owner_ptr : ℕ

pub record SemaphoreUserHandle : Type 0 where
  pub user_ptr : ℕ

-- `SemaphoreOwnerHandle::new`
unfoldable pub new_owner : {K E : Type 0} → (sem_ptr : ℕ) → Prog K E SemaphoreOwnerHandle
new_owner sem_ptr = do panic_if (sem_ptr == 0); pure (record { owner_ptr = sem_ptr })

unfoldable pub get_semaphore_user : SemaphoreOwnerHandle → SemaphoreUserHandle
get_semaphore_user h = record { user_ptr = h.owner_ptr }

-- A notify function is a function pointer, given by its address. `get_notify_trampoline` uses its
-- type alone.
unfoldable pub get_notify_trampoline : (notify : ℕ) → NotifyCallback
get_notify_trampoline notify = semaphore_trampoline

module _ {K : Type 0} (os : SemaphoreApi K) where
  -- `Semaphore::initialize`, for the control block at the given address.
  unfoldable pub initialize : (sem_ptr name initial_count : ℕ) → Prog K TxError SemaphoreOwnerHandle
  unfolding tx_checked_call new_owner
  initialize sem_ptr name initial_count = do
    panic_if (sem_ptr == 0)
    named ← gets (os.tx_semaphore_name sem_ptr)
    panic_if (not (named == 0))
    tx_checked_call (os.tx_semaphore_create sem_ptr name initial_count)
    new_owner sem_ptr

  unfoldable pub delete : SemaphoreOwnerHandle → Prog K TxError (Unit {0})
  unfolding tx_checked_call
  delete h = tx_checked_call (os.tx_semaphore_delete h.owner_ptr)

  unfoldable pub get : SemaphoreUserHandle → WaitOption → Prog K TxError (Unit {0})
  get h wait = tx_checked_call (os.tx_semaphore_get h.user_ptr (wait_code wait))

  unfoldable pub put : SemaphoreUserHandle → Prog K TxError (Unit {0})
  put h = tx_checked_call (os.tx_semaphore_put h.user_ptr)

  unfoldable pub prioritize : SemaphoreUserHandle → Prog K TxError (Unit {0})
  unfolding tx_checked_call
  prioritize h = tx_checked_call (os.tx_semaphore_prioritize h.user_ptr)

  unfoldable pub semaphore_put_notify :
      SemaphoreUserHandle → (notify : ℕ) → Prog K TxError (Unit {0})
  unfolding tx_checked_call get_notify_trampoline
  semaphore_put_notify h notify =
      tx_checked_call (os.tx_semaphore_put_notify h.user_ptr (get_notify_trampoline notify))

  -- `semaphore_cb_trampoline::<fn(SemaphoreUserHandle)>`: it reads a function pointer at the
  -- address that it is called with, and calls it with a handle; the result is that pointer and
  -- the handle.
  unfoldable pub semaphore_cb_trampoline : (arg : ℕ) → K → ℕ × SemaphoreUserHandle
  semaphore_cb_trampoline arg k = (os.first_word arg k, record { user_ptr = arg })
