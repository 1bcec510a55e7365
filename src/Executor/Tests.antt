-- ===== src/Executor/Tests.antt =====
-- threadx-rs/src/executor.rs: a kernel that is its event flags, and runs on it.
use threadx_rust.Executor.CrossTalk.{foreign_notify_panics}
use threadx_rust.Executor.Single.{Others, Stands}
use threadx_rust.Executor.Waker
use threadx_rust.Executor.Waker.{off, WakerRun, Waker}
use threadx_rust.Base.{
  [], ◌∷◌, panic, not, true, ◌&&◌, some, Option, ◌||◌, ok, replicate, set, false, ℕ, Bool, ◌≡◌,
  refl,
}
use threadx_rust.Mutex.{static_lock, drop_static_guard}
use threadx_rust.EventFlags.{publish}
use threadx_rust.EventFlags.Bits.{has_bit}
use threadx_rust.Call.{tx_checked_call, wait_code}
use threadx_rust.Executor.{
  release_slot, empty, waiting, unused, ExecutorApi, World, claim_slot, wait_enter, notify,
  lock_signals, unlock_signals, position_unused, wait_on, notify_on, publish_first, wait_flags,
}
use threadx_rust.Executor.Effects.{signal}
use threadx_rust.Executor.Contract.{AllSet, KernelContract}
use threadx_rust.Executor.System.{
  idle, update, polling, blocked, Task, Reach, here, next, begin, block, notify_task, start, Alone,
  Anyone, System,
}
use threadx_rust.Executor.Slots.{IsFresh}
use threadx_rust.Executor.Wakeups.{
  acts, act, block_on_refines_waker, polling_never_panics, notify_never_panics, notified_task_wakes,
}
use threadx_rust.Executor.Stuck.{higher_slot_never_wakes}

abbrev Flags : Type 0
Flags = ℕ → Bool

abbrev os : ExecutorApi Flags
os = record {
  mutexes = record {
    tx_mutex_create = λ p n i k. (0, tt, k);
    tx_mutex_get = λ p w k. (0, tt, k);
    tx_mutex_put = λ p k. (0, tt, k);
    tx_mutex_delete = λ p k. (0, tt, k);
  };
  flags = record {
    tx_event_flags_create = λ p n k. (0, tt, λ i. false);
    tx_event_flags_set = λ p f o k. (0, tt, λ i. k i || has_bit f i);
    tx_event_flags_get = λ p f o w k. (0, f, λ i. k i && not (has_bit f i));
  };
  mutex_s = 100;
  executor_event = 200;
  signal_mtx_name = 300;
  executor_group_name = 400;
}

contract : KernelContract os
contract = record {
  bit = λ k. k;
  mutex_get_ok = λ k. refl;
  bit-mutex_get = λ k i. refl;
  bit-mutex_put = λ k i. refl;
  flags_set_ok = λ f k. refl;
  bit-flags_set = λ f k i. refl;
  flags_get_ok = λ f k a. refl;
  bit-flags_get = λ f k a i. refl;
}

abbrev w0 : World Flags
w0 = record {
  signals = replicate 31 unused;
  event_taken = true;
  initialized = true;
  kernel = λ i. false;
}

fresh : IsFresh contract w0
unfolding contract
fresh = record { table = refl; clear = λ i. refl }

-- The worlds after a first `block_on` has its slot, after it waits, and after its notification.
abbrev w1 : World Flags
w1 = record w0 { signals = set w0.signals 0 empty }

abbrev w2 : World Flags
w2 = record w0 { signals = set w0.signals 0 waiting }

abbrev w3 : World Flags
w3 = record w0 { signals = set w0.signals 0 empty; kernel = λ i. false || has_bit 1 i }

claims : claim_slot os w0 ≡ (ok 0, w1)
unfolding claim_slot lock_signals unlock_signals static_lock drop_static_guard tx_checked_call
    wait_code position_unused
claims = refl

waits : wait_enter os (signal os 0) w1 ≡ (ok (some 1), w2)
unfolding wait_enter wait_on lock_signals unlock_signals static_lock drop_static_guard
    tx_checked_call wait_code
waits = refl

notifies : notify os (signal os 0) w2 ≡ (ok tt, w3)
unfolding notify notify_on publish_first publish lock_signals unlock_signals static_lock
    drop_static_guard tx_checked_call wait_code
notifies = refl

abbrev s1 : System Flags
s1 = record { world = w1; task = update (λ _. idle) 0 polling }

abbrev s2 : System Flags
s2 = record { world = w2; task = update s1.task 0 (blocked 1) }

abbrev to_s1 : Reach contract Alone (start w0) s1
to_s1 = next here (begin 0 (λ i. refl) claims)

abbrev to_s2 : Reach contract Alone (start w0) s2
to_s2 = next to_s1 (block 0 refl waits)

abbrev to_s3 : Reach contract Alone (start w0) (record { world = w3; task = s2.task })
to_s3 = next to_s2 (notify_task 0 (λ p. cc) notifies)

-- A `block_on` that waits and has been notified.
block_on_refines_waker_example :
    (a : Waker) × WakerRun off (Waker.notifies ∷ Waker.sleeps ∷ Waker.begins ∷ []) a
    × Stands contract (record { world = w3; task = s2.task }) a
    × Others contract (record { world = w3; task = s2.task })
unfolding acts act
block_on_refines_waker_example = block_on_refines_waker contract w0 fresh to_s3

notified_task_wakes_example :
    AllSet (contract.bit w3.kernel) 1 × ((wait_flags os (signal os 0) 1 w3).0 ≡ ok tt)
notified_task_wakes_example = notified_task_wakes contract w0 1 fresh to_s2 refl notifies

polling_never_panics_example :
    ((r : Option ℕ) × ((wait_enter os (signal os 0) w1).0 ≡ ok r))
    × ((release_slot os 0 w1).0 ≡ ok tt)
polling_never_panics_example = polling_never_panics contract w0 fresh to_s1 refl

notify_never_panics_example : (notify os (signal os 0) w2).0 ≡ ok tt
notify_never_panics_example = notify_never_panics contract w0 fresh to_s2 (λ p. cc)

-- A second `block_on` beside the first, which waits in slot 1 and is notified.
abbrev v1 : World Flags
v1 = record w0 { signals = set w1.signals 1 empty }

abbrev v2 : World Flags
v2 = record w0 { signals = set w1.signals 1 waiting }

abbrev v3 : World Flags
v3 = record w0 { signals = set w1.signals 1 empty; kernel = λ i. false || has_bit 1 i }

second_claims : claim_slot os w1 ≡ (ok 1, v1)
unfolding claim_slot lock_signals unlock_signals static_lock drop_static_guard tx_checked_call
    wait_code position_unused
second_claims = refl

second_waits : wait_enter os (signal os 1) v1 ≡ (ok (some 2), v2)
unfolding wait_enter wait_on lock_signals unlock_signals static_lock drop_static_guard
    tx_checked_call wait_code
second_waits = refl

second_notified : notify os (signal os 1) v2 ≡ (ok tt, v3)
unfolding notify notify_on publish_first publish lock_signals unlock_signals static_lock
    drop_static_guard tx_checked_call wait_code
second_notified = refl

abbrev tasks : ℕ → Task
tasks = update (update s1.task 1 polling) 1 (blocked 2)

both : Reach contract Anyone (start w0) (record { world = v2; task = tasks })
both =
    next (next (next here (begin 0 tt claims)) (begin 1 tt second_claims))
      (block 1 refl second_waits)

higher_slot_never_wakes_example : tasks 1 ≡ blocked 2
higher_slot_never_wakes_example =
    higher_slot_never_wakes contract Anyone w0 0 2 fresh both refl
      (next here (notify_task 1 (λ p. cc) second_notified))

abbrev answer : ℕ
answer = 42

-- Another thread notifies the task that sleeps.
abbrev notifier : World Flags → World Flags
notifier w = (notify os (signal os 0) w).1

-- Two waiting tasks, in slots 0 and 1.
abbrev w_two : World Flags
w_two = record w0 { signals = set (set w0.signals 0 waiting) 1 waiting }

foreign_notify_panics_example :
    let (r, woken) = notify os (signal os 1) w_two in
    let (r', back) = wait_flags os (signal os 0) 1 woken in
    (r ≡ ok tt) × (r' ≡ ok tt) × ((wait_enter os (signal os 0) back).0 ≡ panic)
foreign_notify_panics_example = foreign_notify_panics contract w_two 0 refl refl
