-- ===== src/Mutex/Static.antt =====
-- threadx-rs/src/mutex.rs: a `StaticMutex` when the kernel grants the lock.
use threadx_rust.Base.{arith, ◌∙◌, catch-state, Never, catch, ◌≡◌, ok, inl, inr, ℕ}
use threadx_rust.Sys
use threadx_rust.Call.{KernelCall, tx_checked_call, WaitOption, wait_code}
use threadx_rust.Error.Codes.{tx_checked_call_lem, tx_checked_call-ok}
use threadx_rust.Mutex.{MutexApi, MutexGuardStatic, static_lock, drop_static_guard}

module _ {K : Type 0} (os : MutexApi K) where
  pub static_lock-ok :
      (ptr : ℕ) (w : WaitOption) (k : K)
      → (os.tx_mutex_get ptr (wait_code w) k).0 ≡ Sys.tx_success
      → static_lock os ptr w k
        ≡ (ok (record { mutex_ptr = ptr }), (os.tx_mutex_get ptr (wait_code w) k).2)
  unfolding static_lock
  static_lock-ok ptr w k h =
      rw (tx_checked_call-ok (os.tx_mutex_get ptr (wait_code w)) k h, static_lock, catch)
        (rw (tx_checked_call-ok (os.tx_mutex_get ptr (wait_code w)) k h))

  -- The guard's drop succeeds whatever the kernel answers.
  pub drop_static_guard-ok :
      {E : Type 0} (g : MutexGuardStatic) (k : K)
      → drop_static_guard os {E = E} g k ≡ (ok tt, (os.tx_mutex_put g.mutex_ptr k).2)
  unfolding drop_static_guard
  drop_static_guard-ok g k = elim (tx_checked_call_lem (os.tx_mutex_put g.mutex_ptr) k) [
    | inl (_, p) ↦ rw (p, drop_static_guard, catch) (rw p)
    | inr (e, _, p, _) ↦ rw (p, drop_static_guard, catch) (rw p)
  ]

-- The state after a call of a mutex is the one that the kernel leaves.
pub tx_checked_call-state :
    {K A : Type 0} (f : KernelCall K A) (k : K) → (tx_checked_call f k).1 ≡ (f k).2
unfolding tx_checked_call
tx_checked_call-state f k = ground arith

pub static_lock-state :
    {K : Type 0} (os : MutexApi K) (m : ℕ) (w : WaitOption) (k : K)
    → (static_lock os m w k).1 ≡ (os.tx_mutex_get m (wait_code w) k).2
unfolding static_lock
static_lock-state os m w k =
    catch-state (tx_checked_call (os.tx_mutex_get m (wait_code w))) _ _ k
    ∙ tx_checked_call-state (os.tx_mutex_get m (wait_code w)) k

pub drop_static_guard-state :
    {K : Type 0} (os : MutexApi K) (g : MutexGuardStatic) (k : K)
    → (drop_static_guard os {E = Never} g k).1 ≡ (os.tx_mutex_put g.mutex_ptr k).2
unfolding drop_static_guard
drop_static_guard-state os g k =
    catch-state (tx_checked_call (os.tx_mutex_put g.mutex_ptr)) _ _ k
    ∙ tx_checked_call-state (os.tx_mutex_put g.mutex_ptr) k
