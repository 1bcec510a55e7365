-- ===== src/Semaphore/Notify.antt =====
-- threadx-rs/src/semaphore.rs: the callback after a put.
use threadx_rust.Semaphore.{
  SemaphoreUserHandle, semaphore_cb_trampoline, semaphore_put_notify, SemaphoreApi,
}
use threadx_rust.Base.{◌≢◌, ℕ, ◌≡◌, refl}

module _ {K : Type 0} (os : SemaphoreApi K) where
  -- The kernel is given the same callback whatever notify function is passed, and when it calls
  -- that callback on a semaphore, the function that runs is the one that the first word of the
  -- control block points to. A notify function at any other address is never called.
  pub notify_function_is_lost :
      (h : SemaphoreUserHandle) (notify other : ℕ) (k : K)
      → os.first_word h.user_ptr k ≢ notify
      → (semaphore_put_notify os h notify ≡ semaphore_put_notify os h other)
        × ((semaphore_cb_trampoline os h.user_ptr k).0 ≢ notify)
  unfolding semaphore_put_notify semaphore_cb_trampoline
  notify_function_is_lost h notify other k ne = (refl, ne)
