-- ===== src/Executor.antt =====
-- threadx-rs/src/executor.rs: the executor, its table of signals, and `block_on`.
pub mod Contract
pub mod Effects
pub mod Inversion
pub mod System
pub mod Slots
pub mod Claim
pub mod Stuck
pub mod Single
pub mod Simulation
pub mod Wakeups
pub mod Waker
pub mod CrossTalk
pub mod Completion
mod Tests
use mathlib.Core.Option
use threadx_rust.Base.{
  ℕ, zero, suc, ◌%◌, ◌^◌, Bool, true, false, Option, none, some, List, [], ◌∷◌, Prog, Never, pure,
  panics, unwrap, unwrap_option, panic_if, gets, modify, ◌>>=◌, ◌>>◌, get_elem?, set, replicate,
}
use threadx_rust.Call.{wait_forever}
use threadx_rust.Mutex.{
  MutexApi, MutexGuardStatic, static_initialize, static_lock, drop_static_guard,
}
use threadx_rust.EventFlags.{
  EventFlagsApi, EventFlagsGroupHandle, wait_all_and_clear, initialize, publish, get,
}

pub data SignalState : Type 0 where
  unused : SignalState
  empty : SignalState
  waiting : SignalState
  notified : SignalState

-- The kernel's calls, and the addresses of `MUTEX_S`, `EXECUTOR_EVENT` and their names.
pub record ExecutorApi (K : Type 0) : Type 0 where
  pub mutexes : MutexApi K
  pub flags : EventFlagsApi K
  pub mutex_s : ℕ
  pub executor_event : ℕ
  pub signal_mtx_name : ℕ
  pub executor_group_name : ℕ

-- The statics of the module, and the kernel beside them: the value inside `SIGNALS`, whether the
-- `StaticCell` has been taken, and `EXECUTOR_INITIALIZED`.
pub record World (K : Type 0) : Type 0 where
  pub signals : List SignalState
  pub event_taken : Bool
  pub initialized : Bool
  pub kernel : K

unfoldable pub initial : {K : Type 0} → K → World K
initial k = record {
  signals = replicate 31 unused;
  event_taken = false;
  initialized = false;
  kernel = k;
}

abbrev pub on_kernel : {K E A : Type 0} → Prog K E A → Prog (World K) E A
on_kernel p w = let (r, k) = p w.kernel in (r, record w { kernel = k })

pub record Signal : Type 0 where
  pub state_index : ℕ
  pub event_flag_handle : EventFlagsGroupHandle

pub record Executor : Type 0 where
  pub event_handle : EventFlagsGroupHandle

abbrev pub set_signal : {K E : Type 0} → ℕ → SignalState → Prog (World K) E (Unit {0})
set_signal i v = modify (λ w. record w { signals = set w.signals i v })

abbrev pub get_signal : {K E : Type 0} → ℕ → Prog (World K) E SignalState
get_signal i w = unwrap_option (get_elem? w.signals i) w

module _ {K : Type 0} (os : ExecutorApi K) where
  -- `SIGNALS.lock(WaitForever).unwrap()`
  unfoldable pub lock_signals : Prog (World K) Never MutexGuardStatic
  unfolding static_lock
  lock_signals = on_kernel (unwrap (static_lock os.mutexes os.mutex_s wait_forever))

  unfoldable pub unlock_signals : MutexGuardStatic → Prog (World K) Never (Unit {0})
  unfolding drop_static_guard
  unlock_signals g = on_kernel (drop_static_guard os.mutexes g)

  -- The `match` of `Signal::wait`, up to the drop of the guard: `some` are the flags to wait for.
  unfoldable pub wait_on : MutexGuardStatic → ℕ → SignalState → Prog (World K) Never (Option ℕ)
  wait_on g i notified = do set_signal i empty; unlock_signals g; pure none
  wait_on g i waiting = panics
  wait_on g i empty = do
    set_signal i waiting
    let requested_flag = 2 ^ i % 2 ^ 32
    unlock_signals g
    pure (some requested_flag)
  wait_on g i unused = panics

  unfoldable pub wait_enter : Signal → Prog (World K) Never (Option ℕ)
  unfolding wait_on
  wait_enter s = do
    g ← lock_signals
    state ← get_signal s.state_index
    wait_on g s.state_index state

  -- The wait for the event flags, when it returns.
  unfoldable pub wait_flags : Signal → ℕ → Prog (World K) Never (Unit {0})
  unfolding get
  wait_flags s requested_flag = do
    on_kernel
        (unwrap (get os.flags s.event_flag_handle requested_flag wait_all_and_clear wait_forever))
    pure tt

  -- `self.event_flag_handle.publish(0x1).unwrap()`
  unfoldable pub publish_first : Signal → Prog (World K) Never (Unit {0})
  unfolding publish
  publish_first s = on_kernel (unwrap (publish os.flags s.event_flag_handle 1))

  unfoldable pub notify_on :
      MutexGuardStatic → Signal → SignalState → Prog (World K) Never (Unit {0})
  notify_on g s notified = unlock_signals g
  notify_on g s empty = do set_signal s.state_index notified; unlock_signals g
  notify_on g s waiting = do set_signal s.state_index empty; publish_first s; unlock_signals g
  notify_on g s unused = panics

  -- `Signal::notify`, which is also `wake` and `wake_by_ref`.
  unfoldable pub notify : Signal → Prog (World K) Never (Unit {0})
  unfolding notify_on
  notify s = do g ← lock_signals; state ← get_signal s.state_index; notify_on g s state

  unfoldable pub new : Prog (World K) Never Executor
  unfolding static_initialize initialize
  new = do
    started ← gets (λ w. w.initialized)
    panic_if started
    on_kernel (unwrap (static_initialize os.mutexes os.mutex_s os.signal_mtx_name false))
    taken ← gets (λ w. w.event_taken)
    panic_if taken
    modify (λ w. record w { event_taken = true })
    handle ← on_kernel (unwrap (initialize os.flags os.executor_event os.executor_group_name))
    modify (λ w. record w { initialized = true })
    pure (record { event_handle = handle })

-- `position(|p| SignalState::Unused == p)`
unfoldable pub position_unused : List SignalState → Option ℕ
position_unused [] = none
position_unused (unused ∷ l) = some 0
position_unused (_ ∷ l) = Option.map suc (position_unused l)

-- The same, with `expect`.
abbrev pub first_unused : {K : Type 0} → Prog (World K) Never ℕ
first_unused w = unwrap_option (position_unused w.signals) w

module _ {K : Type 0} (os : ExecutorApi K) where
  -- The first block of `block_on`: a free slot of the table.
  unfoldable pub claim_slot : Prog (World K) Never ℕ
  claim_slot = do
    g ← lock_signals os
    idx ← first_unused
    set_signal idx empty
    unlock_signals os g
    pure idx

  -- The last block of `block_on`.
  unfoldable pub release_slot : ℕ → Prog (World K) Never (Unit {0})
  release_slot idx = do
    g ← lock_signals os
    get_signal idx
    set_signal idx unused
    unlock_signals os g

pub data Poll (Fut Item : Type 0) : Type 0 where
  pending : Fut → Poll Fut Item
  ready : Item → Poll Fut Item

module _ {K : Type 0} (os : ExecutorApi K) where
  -- `Signal::wait` with what the other threads do while this one is suspended.
  unfoldable pub wait : (others : World K → World K) → Signal → Prog (World K) Never (Unit {0})
  unfolding wait_enter wait_flags
  wait others s = do
    flag ← wait_enter os s
    elim flag [ none ↦ pure tt | some f ↦ (λ w. wait_flags os s f (others w)) ]

module _ {K Fut Item : Type 0} (os : ExecutorApi K) where
  -- The loop of `block_on`. A poll of the future may use the waker of the signal. On fuel: `none`
  -- stands for a loop that goes on.
  unfoldable pub poll_loop :
      (poll : Signal → Fut → Prog (World K) Never (Poll Fut Item)) (others : World K → World K)
      (fuel : ℕ)
      → Signal
      → Fut
      → Prog (World K) Never (Option Item)
  unfolding wait
  poll_loop poll others zero s fut = pure none
  poll_loop poll others (suc fuel) s fut =
      let again = poll_loop poll others fuel s in
      poll s fut >>= λ r. elim r [
        | pending fut' ↦ (wait os others s >> again fut')
        | ready item ↦ pure (some item)
      ]

  unfoldable pub block_on :
      (poll : Signal → Fut → Prog (World K) Never (Poll Fut Item)) (others : World K → World K)
      (fuel : ℕ)
      → Executor
      → Fut
      → Prog (World K) Never (Option Item)
  unfolding claim_slot release_slot poll_loop
  block_on poll others fuel e fut = do
    idx ← claim_slot os
    let signal : Signal = record { state_index = idx; event_flag_handle = e.event_handle }
    item ← poll_loop poll others fuel signal fut
    elim item [ none ↦ pure none | some x ↦ (release_slot os idx >> pure (some x)) ]
