-- ===== src/Demos/Flags.antt =====
-- threadx-app/cross/app/src/bin/event_flag.rs: a timer that publishes a flag, and three threads
-- that wait for it.
use threadx_rust.Base.{ℕ, Prog, Never, unwrap, ◌>>=◌, ◌>>◌}
use threadx_rust.Call.{wait_forever}
use threadx_rust.Time.{from_millis}
use threadx_rust.Thread.{ThreadApi, sleep}
use threadx_rust.EventFlags.{EventFlagsApi, EventFlagsGroupHandle, wait_all_and_clear, publish, get}

module _ {K : Type 0} (flags : EventFlagsApi K) where
  -- The closure of the timer.
  unfoldable pub timer_fn : EventFlagsGroupHandle → Prog K Never (Unit {0})
  unfolding publish
  timer_fn evt_handle = unwrap (publish flags evt_handle 1)

  -- The wait for the event, the same in all three threads.
  unfoldable pub await_event : EventFlagsGroupHandle → Prog K Never ℕ
  unfolding get
  await_event evt_handle = unwrap (get flags evt_handle 1 wait_all_and_clear wait_forever)

-- `sleep(Duration::from_millis(100))`
unfoldable pub nap : {K : Type 0} → ThreadApi K → (ticks_per_second : ℕ) → Prog K Never (Unit {0})
unfolding sleep
nap threads ticks_per_second = unwrap (sleep threads ticks_per_second (from_millis 100))

module _ {K : Type 0} (flags : EventFlagsApi K) (threads : ThreadApi K) (ticks_per_second : ℕ)
    (print : ℕ → Prog K Never (Unit {0})) where
  -- One turn of the loops of the first and second thread, and of the third, which sleeps first.
  unfoldable pub print_then_nap : EventFlagsGroupHandle → Prog K Never (Unit {0})
  unfolding await_event nap
  print_then_nap evt_handle = do
    event ← await_event flags evt_handle
    print event
    nap threads ticks_per_second

  unfoldable pub nap_then_print : EventFlagsGroupHandle → Prog K Never (Unit {0})
  unfolding await_event nap
  nap_then_print evt_handle = do
    event ← await_event flags evt_handle
    nap threads ticks_per_second
    print event
