-- ===== src/Demos/Checked.antt =====
-- threadx-app/cross/app/src/bin/queue.rs: the application with overflow checks, as in the profile for
-- development.
use threadx_rust.Boxed.{Slice}
use threadx_rust.Queue
use threadx_rust.Queue.{QueueReceiver}
use threadx_rust.Base.{
  unwrap, Prog, Never, ◌>>=◌, ◌>>◌, ℕ, ◌≡◌, true, panic, next-Stops, then-Stops, bind-Stops, Stops,
}
use threadx_rust.Allocator.{Layout}
use threadx_rust.Launch.{
  StartApi, Memory, init_heap, init_static, new_pool, stack_from, box_new, on_kernel, start_thread,
}
use threadx_rust.Launch.Checked.{Anything, any-Keeps, start_thread-Stops}
use threadx_rust.Demos.Start.{
  Cell, QueueJob, queue_define, queue_set_up, sends, receives, bp_mem, bp, queue, thread1, thread2,
  heap,
}
use threadx_rust.Demos.Queue.{Event}

module _ {K : Type 0} (api : StartApi Cell Event K) (ticks_per_second : ℕ)
    (layout_of : ℕ → Layout) where
  queue_set_up-Stops : Stops Anything (queue_set_up api true ticks_per_second layout_of)
  unfolding queue_set_up
  queue_set_up-Stops = then-Stops (any-Keeps (init_static api true bp_mem)) (λ mem.
      then-Stops (any-Keeps (init_static api true bp)) (λ at_pool.
        then-Stops (any-Keeps (new_pool api true at_pool mem 1024)) (λ pool.
          then-Stops (any-Keeps (stack_from api true pool 256)) (λ task1_mem.
            then-Stops (any-Keeps (stack_from api true pool 256)) (λ task2_mem.
              then-Stops (any-Keeps (stack_from api true pool 64)) (λ queue_mem.
                then-Stops (any-Keeps (init_static api true queue)) (λ at_queue.
                  then-Stops
                    (any-Keeps (
                      on_kernel (
                        unwrap
                          (Queue.initialize api.queues 8 at_queue (api.text "queue") queue_mem))))
                    (λ (sender, receiver).
                      then-Stops (any-Keeps (init_static api true thread1)) (λ first.
                        next-Stops (any-Keeps (box_new api true (layout_of 0))) (
                          bind-Stops (λ _. second_thread receiver task2_mem)
                            (start_thread-Stops api first "thread1" (sends sender) task1_mem
                              1)))))))))))
    where
      second_thread : QueueReceiver → Slice → Prog (Memory QueueJob K) Never (Unit {0})
      second_thread receiver task2_mem = do
        second ← init_static api true thread2
        box_new api true (layout_of 1)
        start_thread api true second "thread2" (receives receiver) task2_mem 1

  -- With overflow checks, whatever the kernel does, the closure of queue.rs that defines the
  -- application panics from every state, at the latest where the closure of its first thread is
  -- boxed: the box has eight bytes aligned to four, and the subtraction for the padding underflows.
  pub queue_define_panics :
      (mem_start : ℕ) (m : Memory QueueJob K)
      → (queue_define api true ticks_per_second layout_of mem_start m).0 ≡ panic
  unfolding queue_define
  queue_define_panics mem_start m =
      let stops : Stops Anything (queue_define api true ticks_per_second layout_of mem_start) =
        next-Stops (any-Keeps (init_heap api true heap (api.text "global"))) queue_set_up-Stops in
      (stops.stops m tt).0
