-- ===== src/Executor/Effects.antt =====
-- threadx-rs/src/executor.rs: what each operation on a signal does to the table and to the flags.
use threadx_rust.Mutex.Static.{static_lock-ok, drop_static_guard-ok}
use threadx_rust.Error.Codes.{tx_checked_call-ok}
use threadx_rust.Executor.{
  first_unused, get_signal, set_signal, notify_on, wait_on, on_kernel, lock_signals, unlock_signals,
  publish_first,
}
use threadx_rust.EventFlags.{get, publish}
use threadx_rust.Executor.Contract.{mutex_get, mutex_put, flags_set, flags_get}
use threadx_rust.Error.{TxError}
use threadx_rust.Mutex.{MutexGuardStatic, static_lock, drop_static_guard}
use threadx_rust.Base.{
  ◌⊎◌, ◌>>◌, run_next, unwrap_option, pure, Never, unwrap, ◌>>=◌, unwrap-ok, >>=-ok, ap, Prog,
}
use threadx_rust.Base.{
  ℕ, ◌%◌, ◌^◌, ◌≡◌, ◌∙◌, Option, none, some, arith, ok, panic, Outcome, get_elem?, set,
}
use threadx_rust.Call.{tx_checked_call, wait_code, wait_forever}
use threadx_rust.EventFlags.{get_code}
use threadx_rust.Executor.{
  publish_first, unlock_signals, lock_signals, SignalState, unused, empty, waiting, notified,
  ExecutorApi, World, Signal, wait_enter, wait_flags, notify, position_unused, claim_slot,
  release_slot,
}
use threadx_rust.Executor.Contract.{
  KernelContract, AllSet, mutex_get, mutex_put, flags_set, flags_get,
}

module _ {K : Type 0} (os : ExecutorApi K) where
  -- The signal of slot `i` of this executor.
  abbrev pub signal : ℕ → Signal
  signal i = record {
    state_index = i;
    event_flag_handle = record { flag_group_ptr = os.executor_event };
  }

pub on_kernel-ok :
    {K E A : Type 0} (p : Prog K E A) (w : World K) {o : Outcome E A} {k : K}
    → p w.kernel ≡ (o, k)
    → on_kernel p w ≡ (o, record w { kernel = k })
on_kernel-ok {K} {E} {A} p w h =
    ap (λ (x : Outcome E A × K). let (o, k) = x in (o, record w { kernel = k })) h

module _ {K : Type 0} {os : ExecutorApi K} (c : KernelContract os) where
  open c use {mutex_get_ok, flags_set_ok, flags_get_ok}

  lock_signals_lem :
      (w : World K)
      → lock_signals os w
        ≡ (ok (record { mutex_ptr = os.mutex_s }), record w { kernel = (mutex_get os w.kernel).2 })
  unfolding lock_signals wait_code
  lock_signals_lem w =
      let m = static_lock os.mutexes os.mutex_s wait_forever in
      on_kernel-ok (unwrap m) w (
        unwrap-ok m
          (static_lock-ok os.mutexes os.mutex_s wait_forever w.kernel (mutex_get_ok w.kernel)))

  unlock_signals_lem :
      (w : World K)
      → unlock_signals os (record { mutex_ptr = os.mutex_s }) w
        ≡ (ok tt, record w { kernel = (mutex_put os w.kernel).2 })
  unfolding unlock_signals
  unlock_signals_lem w =
      let g : MutexGuardStatic = record { mutex_ptr = os.mutex_s } in
      on_kernel-ok (drop_static_guard os.mutexes g) w (drop_static_guard-ok os.mutexes g w.kernel)

  publish_first_lem :
      (i : ℕ) (w : World K)
      → publish_first os (signal os i) w
        ≡ (ok tt, record w { kernel = (flags_set os 1 w.kernel).2 })
  unfolding publish_first publish
  publish_first_lem i w =
      let m : Prog K TxError (Unit {0}) = tx_checked_call (flags_set os 1) in
      on_kernel-ok (unwrap m) w
        (unwrap-ok m (tx_checked_call-ok (flags_set os 1) w.kernel (flags_set_ok 1 w.kernel)))

  abbrev held : MutexGuardStatic
  held = record { mutex_ptr = os.mutex_s }

  abbrev locked : World K → World K
  locked w = record w { kernel = (mutex_get os w.kernel).2 }

  -- The kernel after a lock and an unlock, and after a lock, a publish and an unlock.
  abbrev pub passed : K → K
  passed k = (mutex_put os (mutex_get os k).2).2

  abbrev pub published : K → K
  published k = (mutex_put os (flags_set os 1 (mutex_get os k).2).2).2

  module _ (w : World K) (i : ℕ) where
    abbrev state : Option SignalState
    state = get_elem? w.signals i

    with_state :
        {A : Type 0} (f : MutexGuardStatic → SignalState → Prog (World K) Never A) {v : SignalState}
        → state ≡ some v
        → (lock_signals os >>= λ g. get_signal i >>= f g) w ≡ f held v (locked w)
    with_state f {v} h =
        >>=-ok (lock_signals os) (λ g. get_signal i >>= f g) (lock_signals_lem w)
        ∙ >>=-ok (get_signal i) (f held) (ap (λ o. unwrap_option o (locked w)) h)

    -- An index beyond the table is a panic.
    missing_state :
        {A : Type 0} (f : MutexGuardStatic → SignalState → Prog (World K) Never A)
        → state ≡ none
        → ((lock_signals os >>= λ g. get_signal i >>= f g) w).0 ≡ panic
    missing_state f h =
        ap (λ r. r.0)
          (>>=-ok (lock_signals os) (λ g. get_signal i >>= f g) (lock_signals_lem w)
            ∙ ap (run_next (f held)) (ap (λ o. unwrap_option o (locked w)) h))

    pub wait-missing : state ≡ none → (wait_enter os (signal os i) w).0 ≡ panic
    unfolding wait_enter
    wait-missing h = missing_state (λ g v. wait_on os g i v) h

    pub notify-missing : state ≡ none → (notify os (signal os i) w).0 ≡ panic
    unfolding notify
    notify-missing h = missing_state (λ g v. notify_on os g (signal os i) v) h

    pub release_slot-missing : state ≡ none → (release_slot os i w).0 ≡ panic
    unfolding release_slot
    release_slot-missing h = missing_state (λ g _. set_signal i unused >> unlock_signals os g) h

    pub wait-notified :
        state ≡ some notified
        → wait_enter os (signal os i) w
          ≡ (ok none, record w { signals = set w.signals i empty; kernel = passed w.kernel })
    unfolding wait_enter
    wait-notified h =
        with_state (λ g v. wait_on os g i v) h
        ∙ >>=-ok (unlock_signals os held) (λ _. pure none) (unlock_signals_lem _)

    pub wait-empty :
        state ≡ some empty
        → wait_enter os (signal os i) w ≡ (
          ok (some (2 ^ i % 2 ^ 32)),
          record w { signals = set w.signals i waiting; kernel = passed w.kernel },
        )
    unfolding wait_enter
    wait-empty h =
        with_state (λ g v. wait_on os g i v) h
        ∙ >>=-ok (unlock_signals os held) (λ _. pure (some (2 ^ i % 2 ^ 32))) (unlock_signals_lem _)

    -- A second wait on a signal is a panic, and so is one on a free slot.
    pub wait-panic :
        {v : SignalState}
        → state ≡ some v
        → (v ≡ waiting) ⊎ (v ≡ unused)
        → (wait_enter os (signal os i) w).0 ≡ panic
    unfolding wait_enter
    wait-panic {v = waiting} h q = ap (λ r. r.0) (with_state (λ g v. wait_on os g i v) h)
    wait-panic {v = unused} h q = ap (λ r. r.0) (with_state (λ g v. wait_on os g i v) h)
    wait-panic {v = empty} h q = absurd (ground arith)
    wait-panic {v = notified} h q = absurd (ground arith)

    pub notify-notified :
        state ≡ some notified
        → notify os (signal os i) w ≡ (ok tt, record w { kernel = passed w.kernel })
    unfolding notify
    notify-notified h = with_state (λ g v. notify_on os g (signal os i) v) h ∙ unlock_signals_lem _

    pub notify-empty :
        state ≡ some empty
        → notify os (signal os i) w
          ≡ (ok tt, record w { signals = set w.signals i notified; kernel = passed w.kernel })
    unfolding notify
    notify-empty h = with_state (λ g v. notify_on os g (signal os i) v) h ∙ unlock_signals_lem _

    -- The flag that a notification publishes is flag 0, whatever the slot.
    pub notify-waiting :
        state ≡ some waiting
        → notify os (signal os i) w
          ≡ (ok tt, record w { signals = set w.signals i empty; kernel = published w.kernel })
    unfolding notify
    notify-waiting h =
        with_state (λ g v. notify_on os g (signal os i) v) h
        ∙ >>=-ok (publish_first os (signal os i)) (λ _. unlock_signals os held)
            (publish_first_lem i _)
        ∙ unlock_signals_lem _

    pub notify-unused : state ≡ some unused → (notify os (signal os i) w).0 ≡ panic
    unfolding notify
    notify-unused h = ap (λ r. r.0) (with_state (λ g v. notify_on os g (signal os i) v) h)

    pub wait_flags-lem :
        (flags : ℕ)
        → AllSet (c.bit w.kernel) flags
        → wait_flags os (signal os i) flags w
          ≡ (ok tt, record w { kernel = (flags_get os flags w.kernel).2 })
    unfolding wait_flags get_code wait_code get
    wait_flags-lem flags h =
        let m : Prog K TxError ℕ = tx_checked_call (flags_get os flags) in
        >>=-ok (on_kernel (unwrap m)) (λ _. pure tt)
          (on_kernel-ok (unwrap m) w (
            unwrap-ok m
              (tx_checked_call-ok (flags_get os flags) w.kernel (flags_get_ok flags w.kernel h))))

    pub release_slot-lem :
        {v : SignalState}
        → state ≡ some v
        → release_slot os i w
          ≡ (ok tt, record w { signals = set w.signals i unused; kernel = passed w.kernel })
    unfolding release_slot
    release_slot-lem h =
        with_state (λ g _. set_signal i unused >> unlock_signals os g) h ∙ unlock_signals_lem _

  -- A free slot is claimed, if there is one; otherwise the call panics.
  pub claim_slot-some :
      (w : World K) (i : ℕ)
      → position_unused w.signals ≡ some i
      → claim_slot os w
        ≡ (ok i, record w { signals = set w.signals i empty; kernel = passed w.kernel })
  unfolding claim_slot
  claim_slot-some w i h =
      >>=-ok (lock_signals os) (λ g. first_unused >>= take_slot g) (lock_signals_lem w)
      ∙ >>=-ok first_unused (take_slot held) (ap (λ o. unwrap_option o (locked w)) h)
      ∙ >>=-ok (unlock_signals os held) (λ _. pure i) (unlock_signals_lem _)
    where
      take_slot : MutexGuardStatic → ℕ → Prog (World K) Never ℕ
      take_slot g idx = set_signal idx empty >> (unlock_signals os g >> pure idx)

  pub claim_slot-none :
      (w : World K) → position_unused w.signals ≡ none → (claim_slot os w).0 ≡ panic
  unfolding claim_slot
  claim_slot-none w h =
      ap (λ r. r.0)
        (>>=-ok (lock_signals os) (λ g. first_unused >>= take_slot g) (lock_signals_lem w)
          ∙ ap (run_next (take_slot held)) (ap (λ o. unwrap_option o (locked w)) h))
    where
      take_slot : MutexGuardStatic → ℕ → Prog (World K) Never ℕ
      take_slot g idx = set_signal idx empty >> (unlock_signals os g >> pure idx)
