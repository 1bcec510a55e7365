-- ===== src/Launch/Locks.antt =====
-- threadx-app/cross/app/src/bin: a mutex is initialised, locked and released where the kernel's calls
-- succeed.
use threadx_rust.Base.{
  ℕ, ◌≡◌, ◌≢◌, ◌∙◌, sym, ap, true, false, List, Never, unwrap, unwrap-ok, Runs, arith,
}
use threadx_rust.Call.{KernelCall, tx_checked_call, wait_forever, wait_code}
use threadx_rust.Mutex
use threadx_rust.Mutex.{Mutex, Cell, MutexGuard, guard, lock, drop_guard, bool_code}
use threadx_rust.Launch.{StartApi}
use threadx_rust.Launch.Success.{Succeeds}

-- A mutex in memory, and the static cells that are taken.
abbrev pub InCell : {V K : Type 0} → (K → List ℕ) → Mutex V → List ℕ → Cell V K → Type 0
InCell taken m l c = (c.value ≡ m) × (taken c.kernel ≡ l)

module _ {C T V K : Type 0} {api : StartApi C T K} {code : C → ℕ} {taken : K → List ℕ}
    (s : Succeeds api code taken) (m : Mutex V) (l : List ℕ) where
  -- A call on the control block of the mutex that succeeds.
  abbrev beside : {A : Type 0} → KernelCall K A → KernelCall (Cell (V) K) A
  beside f = Mutex.on_kernel f

  pub initialize-Runs :
      (name : ℕ)
      → m.initialized ≡ false
      → Runs
          (InCell taken m l)
          (InCell taken (record m { initialized = true }) l)
          (unwrap (Mutex.initialize api.mutexes name false))
  unfolding Mutex.initialize tx_checked_call
  initialize-Runs name fresh = record {
    runs = λ c x.
        let call = api.mutexes.tx_mutex_create c.value.mutex name (bool_code false) in
        let calm = s.mutex_created c.value.mutex name (bool_code false) c.kernel in
        let free : c.value.initialized ≡ false = ap (λ v. v.initialized) x.0 ∙ fresh in
        (
          tt,
          record { value = record (c.value) { initialized = true }; kernel = (call c.kernel).2 },
          unwrap-ok (Mutex.initialize api.mutexes name false) {k = c} (ground arith),
          (ap (λ (v : Mutex V). record v { initialized = true }) x.0, calm.1 ∙ x.1),
        );
  }

  pub lock-Runs :
      m.mutex ≢ 0
      → m.initialized ≡ true
      → Runs (InCell taken m l) (InCell taken m l) (unwrap (lock api.mutexes wait_forever))
  unfolding lock tx_checked_call wait_code
  lock-Runs placed ready = record {
    runs = λ c x.
        let call = api.mutexes.tx_mutex_get c.value.mutex (wait_code wait_forever) in
        let calm = s.mutex_got c.value.mutex (wait_code wait_forever) c.kernel in
        let done : c.value.initialized ≡ true = ap (λ v. v.initialized) x.0 ∙ ready in
        let there : c.value.mutex ≢ 0 = λ e. placed (sym (ap (λ v. v.mutex) x.0) ∙ e) in
        (
          guard,
          record c { kernel = (call c.kernel).2 },
          unwrap-ok (lock api.mutexes wait_forever) {k = c} (ground arith),
          (x.0, calm.1 ∙ x.1),
        );
  }

  pub drop_guard-Runs :
      m.mutex ≢ 0
      → (g : MutexGuard)
      → Runs (InCell taken m l) (InCell taken m l) (drop_guard api.mutexes {E = Never} g)
  unfolding drop_guard tx_checked_call
  drop_guard-Runs placed g = record {
    runs = λ c x.
        let call = api.mutexes.tx_mutex_put c.value.mutex in
        let calm = s.mutex_put c.value.mutex c.kernel in
        let there : c.value.mutex ≢ 0 = λ e. placed (sym (ap (λ v. v.mutex) x.0) ∙ e) in
        (tt, record c { kernel = (call c.kernel).2 }, ground arith, (x.0, calm.1 ∙ x.1));
  }
