-- ===== src/Mutex.antt =====
-- threadx-rs/src/mutex.rs: `Mutex`, `StaticMutex` and their guards.
pub mod Protocol
pub mod Static
pub mod Owners
pub mod Exclusion
mod OwnerTests
mod Tests
use threadx_rust.Base.{
  ℕ, Bool, true, false, not, Prog, pure, fail, panics, catch, ◌>>=◌, ◌>>◌, gets, modify, ◌==◌,
  if◌then◌else◌,
}
use threadx_rust.Error.{TxError}
use threadx_rust.Call.{KernelCall, tx_checked_call, WaitOption, wait_code}

-- The kernel's calls on a control block, which is given by its address.
pub record MutexApi (K : Type 0) : Type 0 where
  pub tx_mutex_create : (mutex_ptr name inherit : ℕ) → KernelCall K (Unit {0})
  pub tx_mutex_get : (mutex_ptr wait_option : ℕ) → KernelCall K (Unit {0})
  pub tx_mutex_put : (mutex_ptr : ℕ) → KernelCall K (Unit {0})
  pub tx_mutex_delete : (mutex_ptr : ℕ) → KernelCall K (Unit {0})

pub data MutexError : Type 0 where
  mutex_error : TxError → MutexError
  poison_error : MutexError

-- `inherit as u32`
abbrev pub bool_code : Bool → ℕ
bool_code b = if b then 1 else 0

-- `Mutex<T>`: the protected value, the address of the control block inside, and the flag.
pub record Mutex (T : Type 0) : Type 0 where
  pub inner : T
  pub mutex : ℕ
  pub initialized : Bool

-- A `Mutex` in memory, and the kernel beside it.
pub record Cell (T K : Type 0) : Type 0 where
  pub value : Mutex T
  pub kernel : K

abbrev pub on_kernel : {T K A : Type 0} → KernelCall K A → KernelCall (Cell T K) A
on_kernel f c = let (ret, out, k) = f c.kernel in (ret, out, record c { kernel = k })

-- `Mutex::new`, placed so that its control block has the given address.
unfoldable pub new : {T : Type 0} → T → ℕ → Mutex T
new inner mutex = record { inner = inner; mutex = mutex; initialized = false }

-- `MutexGuard` holds no more than the reference to its mutex.
pub data MutexGuard : Type 0 where
  guard : MutexGuard

abbrev set_initialized : {T K : Type 0} → Cell T K → Cell T K
set_initialized c = record c { value = record (c.value) { initialized = true } }

module _ {T K : Type 0} (os : MutexApi K) where
  unfoldable pub initialize : (name : ℕ) (inherit : Bool) → Prog (Cell T K) TxError (Unit {0})
  unfolding tx_checked_call
  initialize name inherit = do
    done ← gets (λ c. c.value.initialized)
    mutex_ptr ← gets (λ c. c.value.mutex)
    if done
        then pure tt
        else catch
            (tx_checked_call (on_kernel (os.tx_mutex_create mutex_ptr name (bool_code inherit))))
            (λ _. modify set_initialized) fail

  unfoldable pub lock : WaitOption → Prog (Cell T K) MutexError MutexGuard
  unfolding tx_checked_call wait_code
  lock wait_option = do
    done ← gets (λ c. c.value.initialized)
    mutex_ptr ← gets (λ c. c.value.mutex)
    if not done
        then fail poison_error
        else if mutex_ptr == 0
        then fail poison_error
        else catch (tx_checked_call (on_kernel (os.tx_mutex_get mutex_ptr (wait_code wait_option))))
            (λ _. pure guard) (λ e. fail (mutex_error e))

  -- `Drop for MutexGuard`. A failure to release is only logged.
  unfoldable pub drop_guard : {E : Type 0} → MutexGuard → Prog (Cell T K) E (Unit {0})
  unfolding tx_checked_call
  drop_guard g = do
    mutex_ptr ← gets (λ c. c.value.mutex)
    if mutex_ptr == 0
        then panics
        else catch (tx_checked_call (on_kernel (os.tx_mutex_put mutex_ptr))) (λ _. pure tt)
            (λ _. pure tt)

  -- `Drop for Mutex`
  unfoldable pub drop_mutex : {E : Type 0} → Prog (Cell T K) E (Unit {0})
  unfolding tx_checked_call
  drop_mutex = do
    done ← gets (λ c. c.value.initialized)
    mutex_ptr ← gets (λ c. c.value.mutex)
    if not done
        then pure tt
        else catch (tx_checked_call (on_kernel (os.tx_mutex_delete mutex_ptr))) (λ _. pure tt)
            (λ _. pure tt)

module _ {T K : Type 0} where
  -- `Deref` and `DerefMut` of the guard.
  unfoldable pub deref : {E : Type 0} → MutexGuard → Prog (Cell T K) E T
  deref g = gets (λ c. c.value.inner)

  unfoldable pub deref_mut : {E : Type 0} → MutexGuard → (T → T) → Prog (Cell T K) E (Unit {0})
  deref_mut g f = modify (λ c. record c { value = record (c.value) { inner = f c.value.inner } })

-- `StaticMutex<T>`: the control block lies elsewhere, and there is no flag.
pub record StaticMutex (T : Type 0) : Type 0 where
  pub inner : T
  pub mutex : ℕ

-- `MutexGuardStatic`, by the address of the control block of its mutex.
pub record MutexGuardStatic : Type 0 where
  pub mutex_ptr : ℕ

module _ {K : Type 0} (os : MutexApi K) where
  unfoldable pub static_initialize :
      (mutex_ptr name : ℕ) (inherit : Bool) → Prog K TxError (Unit {0})
  static_initialize mutex_ptr name inherit =
      tx_checked_call (os.tx_mutex_create mutex_ptr name (bool_code inherit))

  unfoldable pub static_lock : (mutex_ptr : ℕ) → WaitOption → Prog K MutexError MutexGuardStatic
  static_lock mutex_ptr wait_option =
      catch (tx_checked_call (os.tx_mutex_get mutex_ptr (wait_code wait_option)))
        (λ _. pure (record { mutex_ptr = mutex_ptr })) (λ e. fail (mutex_error e))

  -- `Drop for MutexGuardStatic`
  unfoldable pub drop_static_guard : {E : Type 0} → MutexGuardStatic → Prog K E (Unit {0})
  drop_static_guard g =
      catch (tx_checked_call (os.tx_mutex_put g.mutex_ptr)) (λ _. pure tt) (λ _. pure tt)

  -- `Drop for StaticMutex`
  unfoldable pub drop_static_mutex : {E : Type 0} → (mutex_ptr : ℕ) → Prog K E (Unit {0})
  drop_static_mutex mutex_ptr =
      catch (tx_checked_call (os.tx_mutex_delete mutex_ptr)) (λ _. pure tt) (λ _. pure tt)
