-- ===== src/Demos/Start.antt =====
-- threadx-app/cross/app/src/bin/queue.rs, event_flag.rs: the closures that define the application.
use threadx_rust.Boxed.{Slice}
use threadx_rust.Base.{ℕ, Bool, true, Prog, Never, unwrap, ◌>>=◌, ◌>>◌}
use threadx_rust.Allocator.{Layout}
use threadx_rust.Pool.{consume}
use threadx_rust.Timer.{initialize_with_closure}
use threadx_rust.EventFlags
use threadx_rust.EventFlags.{EventFlagsApi, EventFlagsGroupHandle}
use threadx_rust.Queue
use threadx_rust.Queue.{QueueApi, QueueSender, QueueReceiver}
use threadx_rust.Demos.Queue.{Event}
use threadx_rust.Launch.{
  StartApi, fn_box, Memory, on_kernel, timers_beside, init_static, init_heap, box_new, new_pool,
  stack_from, start_thread,
}

-- The `StaticCell`s of the two programs.
pub data Cell : Type 0 where
  heap : Cell
  bp_mem : Cell
  bp : Cell
  queue : Cell
  event_group : Cell
  timer : Cell
  thread1 : Cell
  thread2 : Cell
  thread3 : Cell

-- The closures of queue.rs: the loop of `send_turn`, and that of `receive_turn`.
pub data QueueJob : Type 0 where
  sends : QueueSender → QueueJob
  receives : QueueReceiver → QueueJob

-- The closures of event_flag.rs: that of the timer, and the loops of the three threads.
pub data FlagJob : Type 0 where
  on_timer : EventFlagsGroupHandle → FlagJob
  prints_then_naps : (number : ℕ) → EventFlagsGroupHandle → FlagJob
  naps_then_prints : EventFlagsGroupHandle → FlagJob

module _ {K : Type 0} (api : StartApi Cell Event K) (checks : Bool) (ticks_per_second : ℕ)
    (layout_of : ℕ → Layout) where
  -- What follows the heap in the second closure of `main` in queue.rs. `layout_of` gives the
  -- layouts of the closures, in the order of their boxes; a message has eight bytes.
  unfoldable pub queue_set_up : Prog (Memory QueueJob K) Never (Unit {0})
  unfolding new_pool stack_from init_static box_new start_thread Queue.initialize consume
  queue_set_up = do
    mem ← init_static api checks bp_mem
    at_pool ← init_static api checks bp
    pool ← new_pool api checks at_pool mem 1024
    task1_mem ← stack_from api checks pool 256
    task2_mem ← stack_from api checks pool 256
    queue_mem ← stack_from api checks pool 64
    at_queue ← init_static api checks queue
    (sender, receiver) ←
        on_kernel (unwrap (Queue.initialize api.queues 8 at_queue (api.text "queue") queue_mem))
    first ← init_static api checks thread1
    box_new api checks (layout_of 0)
    start_thread api checks first "thread1" (sends sender) task1_mem 1
    second ← init_static api checks thread2
    box_new api checks (layout_of 1)
    start_thread api checks second "thread2" (receives receiver) task2_mem 1

  -- The second closure of `main` in queue.rs.
  unfoldable pub queue_define : (mem_start : ℕ) → Prog (Memory QueueJob K) Never (Unit {0})
  unfolding init_heap queue_set_up
  queue_define mem_start = do init_heap api checks heap (api.text "global"); queue_set_up

  -- The three threads of event_flag.rs.
  unfoldable pub flags_threads :
      EventFlagsGroupHandle
      → (task1_mem task2_mem task3_mem : Slice) → Prog (Memory FlagJob K) Never (Unit {0})
  unfolding init_static box_new start_thread
  flags_threads evt_handle task1_mem task2_mem task3_mem = do
    first ← init_static api checks thread1
    box_new api checks (layout_of 1)
    start_thread api checks first "thread1" (prints_then_naps 1 evt_handle) task1_mem 1
    box_new api checks (layout_of 2)
    second ← init_static api checks thread2
    start_thread api checks second "thread2" (prints_then_naps 2 evt_handle) task2_mem 1
    box_new api checks (layout_of 3)
    third ← init_static api checks thread3
    start_thread api checks third "thread3" (naps_then_prints evt_handle) task3_mem 1

  -- The second closure of `main` in event_flag.rs.
  unfoldable pub flags_define : (mem_start : ℕ) → Prog (Memory FlagJob K) Never (Unit {0})
  unfolding init_heap new_pool stack_from init_static box_new flags_threads EventFlags.initialize
      initialize_with_closure
  flags_define mem_start = do
    at_pool ← init_static api checks bp
    mem ← init_static api checks bp_mem
    pool ← new_pool api checks at_pool mem 1024
    task1_mem ← stack_from api checks pool 256
    task2_mem ← stack_from api checks pool 256
    task3_mem ← stack_from api checks pool 256
    init_heap api checks heap (api.text "global")
    group ← init_static api checks event_group
    evt_handle ← on_kernel (unwrap (EventFlags.initialize api.flags group (api.text "event_flag")))
    at_timer ← init_static api checks timer
    box_new api checks (layout_of 0)
    unwrap (
        initialize_with_closure (timers_beside api.timers) (fn_box api checks) ticks_per_second
          at_timer (api.text "timer") (on_timer evt_handle) (record { secs = 5; nanos = 0 })
          (record { secs = 1; nanos = 0 }) true)
    flags_threads evt_handle task1_mem task2_mem task3_mem
