-- ===== src/Demos/Defined.antt =====
-- threadx-app/cross/app/src/bin/queue.rs, event_flag.rs: the applications are defined where the
-- kernel's calls succeed.
use threadx_rust.Time.Rounding.{millis_per_tick-pos}
use threadx_rust.Boxed.{Slice}
use threadx_rust.EventFlags.{EventFlagsGroupHandle}
use threadx_rust.Time.{millis_per_tick}
use threadx_rust.Allocator.{padded_size, Layout}
use threadx_rust.Base.{
  >>=-panic, ◌≤◌, panic, ok, ◌<◌, then-Picks, false, ℕ, ◌≡◌, refl, Bool, true, some, List, [], ◌∷◌,
  then-Runs, next-Runs, Runs,
}
use threadx_rust.Launch.{init_heap, init_static, StartApi, Memory}
use threadx_rust.Launch.Success.{elem, Succeeds, At}
use threadx_rust.Launch.Steps.{
  init_heap-panic, flags-Runs, init_static-Picks, init_static-Runs, init_heap-Runs, box_new-Runs,
  new_pool-Runs, stack_from-Runs, queue-Runs,
}
use threadx_rust.Launch.Started.{timer-Runs, start_thread-Runs}
use threadx_rust.Demos.Start.{
  queue_set_up, FlagJob, QueueJob, naps_then_prints, prints_then_naps, flags_threads, on_timer,
  flags_define, heap, bp_mem, bp, queue, event_group, timer, thread1, thread2, thread3, sends,
  receives, thread1, timer, event_group, queue, bp, bp_mem, heap, Cell, queue_define,
}
use threadx_rust.Demos.Queue.{Event}

-- The static cells by number.
abbrev pub code : Cell → ℕ
code heap = 0
code bp_mem = 1
code bp = 2
code queue = 3
code event_group = 4
code timer = 5
code thread1 = 6
code thread2 = 7
code thread3 = 8

module _ {K : Type 0} {api : StartApi Cell Event K} {taken : K → List ℕ}
    (s : Succeeds api code taken) (ticks_per_second : ℕ) (layout_of : ℕ → Layout) (size_of : ℕ → ℕ)
    (fits : (i : ℕ) → padded_size false (layout_of i) ≡ some (size_of i)) where
  abbrev Had : {F : Type 0} → List ℕ → Bool → Memory F K → Type 0
  Had = At api code taken

  static-Runs :
      {F : Type 0} (cell : Cell) (l : List ℕ) (ready : Bool)
      → elem (code cell) l ≡ false
      → Runs (Had {F = F} l ready) (Had (code cell ∷ l) ready) (init_static api false cell)
  static-Runs cell l ready h = init_static-Runs s false cell l ready h

  queue_set_up-Runs :
      Runs
        (Had (0 ∷ []) true)
        (Had (7 ∷ 6 ∷ 3 ∷ 2 ∷ 1 ∷ 0 ∷ []) true)
        (queue_set_up api false ticks_per_second layout_of)
  unfolding queue_set_up
  queue_set_up-Runs = then-Runs (static-Runs bp_mem (0 ∷ []) true refl) (λ mem.
      then-Picks (init_static-Picks s false bp (1 ∷ 0 ∷ []) true refl) (λ at_pool nonnull.
        then-Runs (new_pool-Runs s false at_pool mem 1024 (2 ∷ 1 ∷ 0 ∷ []) true nonnull) (λ pool.
          then-Runs (stack_from-Runs s false pool 256 (2 ∷ 1 ∷ 0 ∷ []) true) (λ task1_mem.
            then-Runs (stack_from-Runs s false pool 256 (2 ∷ 1 ∷ 0 ∷ []) true) (λ task2_mem.
              then-Runs (stack_from-Runs s false pool 64 (2 ∷ 1 ∷ 0 ∷ []) true) (λ queue_mem.
                then-Runs (static-Runs queue (2 ∷ 1 ∷ 0 ∷ []) true refl) (λ at_queue.
                  then-Runs
                    (queue-Runs s false 8 at_queue (api.text "queue") queue_mem (3 ∷ 2 ∷ 1 ∷ 0 ∷ [])
                      true)
                    (λ (sender, receiver).
                      then-Runs (static-Runs thread1 (3 ∷ 2 ∷ 1 ∷ 0 ∷ []) true refl) (λ first.
                        then-Runs
                          (box_new-Runs s false (layout_of 0) (6 ∷ 3 ∷ 2 ∷ 1 ∷ 0 ∷ []) (fits 0))
                          (λ at.
                            next-Runs
                              (start_thread-Runs s first "thread1" (sends sender) task1_mem 1
                                (6 ∷ 3 ∷ 2 ∷ 1 ∷ 0 ∷ []) refl)
                              (then-Runs (static-Runs thread2 (6 ∷ 3 ∷ 2 ∷ 1 ∷ 0 ∷ []) true refl)
                                (λ second.
                                  then-Runs
                                    (box_new-Runs s false (layout_of 1) (7 ∷ 6 ∷ 3 ∷ 2 ∷ 1 ∷ 0 ∷ [])
                                      (fits 1))
                                    (λ at2.
                                      start_thread-Runs s second "thread2" (receives receiver)
                                        task2_mem 1 (7 ∷ 6 ∷ 3 ∷ 2 ∷ 1 ∷ 0 ∷ []) refl)))))))))))))

  queue_define-Runs :
      (mem_start : ℕ)
      → Runs
          (Had [] false)
          (Had (7 ∷ 6 ∷ 3 ∷ 2 ∷ 1 ∷ 0 ∷ []) true)
          (queue_define api false ticks_per_second layout_of mem_start)
  unfolding queue_define
  queue_define-Runs mem_start =
      next-Runs (init_heap-Runs s false heap (api.text "global") [] false refl) queue_set_up-Runs

  flags_threads-Runs :
      (evt_handle : EventFlagsGroupHandle) (task1_mem task2_mem task3_mem : Slice)
      → Runs (Had (5 ∷ 4 ∷ 0 ∷ 1 ∷ 2 ∷ []) true) (Had (8 ∷ 7 ∷ 6 ∷ 5 ∷ 4 ∷ 0 ∷ 1 ∷ 2 ∷ []) true) (
          flags_threads api false ticks_per_second layout_of evt_handle task1_mem task2_mem
            task3_mem)
  unfolding flags_threads
  flags_threads-Runs evt_handle task1_mem task2_mem task3_mem =
      then-Runs (static-Runs thread1 (5 ∷ 4 ∷ 0 ∷ 1 ∷ 2 ∷ []) true refl) (λ first.
        then-Runs (box_new-Runs s false (layout_of 1) (6 ∷ 5 ∷ 4 ∷ 0 ∷ 1 ∷ 2 ∷ []) (fits 1)) (λ at1.
          next-Runs
            (start_thread-Runs s first "thread1" (prints_then_naps 1 evt_handle) task1_mem 1
              (6 ∷ 5 ∷ 4 ∷ 0 ∷ 1 ∷ 2 ∷ []) refl)
            (then-Runs (box_new-Runs s false (layout_of 2) (6 ∷ 5 ∷ 4 ∷ 0 ∷ 1 ∷ 2 ∷ []) (fits 2))
              (λ at2.
                then-Runs (static-Runs thread2 (6 ∷ 5 ∷ 4 ∷ 0 ∷ 1 ∷ 2 ∷ []) true refl) (λ second.
                  next-Runs
                    (start_thread-Runs s second "thread2" (prints_then_naps 2 evt_handle) task2_mem
                      1 (7 ∷ 6 ∷ 5 ∷ 4 ∷ 0 ∷ 1 ∷ 2 ∷ []) refl)
                    (then-Runs
                      (box_new-Runs s false (layout_of 3) (7 ∷ 6 ∷ 5 ∷ 4 ∷ 0 ∷ 1 ∷ 2 ∷ []) (fits 3))
                      (λ at3.
                        then-Runs (static-Runs thread3 (7 ∷ 6 ∷ 5 ∷ 4 ∷ 0 ∷ 1 ∷ 2 ∷ []) true refl)
                          (λ third.
                            start_thread-Runs s third "thread3" (naps_then_prints evt_handle)
                              task3_mem 1 (8 ∷ 7 ∷ 6 ∷ 5 ∷ 4 ∷ 0 ∷ 1 ∷ 2 ∷ []) refl))))))))

  flags_define-Runs :
      (mem_start : ℕ)
      → 0 < millis_per_tick ticks_per_second
      → Runs
          (Had [] false)
          (Had (8 ∷ 7 ∷ 6 ∷ 5 ∷ 4 ∷ 0 ∷ 1 ∷ 2 ∷ []) true)
          (flags_define api false ticks_per_second layout_of mem_start)
  unfolding flags_define
  flags_define-Runs mem_start pos =
      then-Picks (init_static-Picks s false bp [] false refl) (λ at_pool nonnull.
        then-Runs (static-Runs bp_mem (2 ∷ []) false refl) (λ mem.
          then-Runs (new_pool-Runs s false at_pool mem 1024 (1 ∷ 2 ∷ []) false nonnull) (λ pool.
            then-Runs (stack_from-Runs s false pool 256 (1 ∷ 2 ∷ []) false) (λ task1_mem.
              then-Runs (stack_from-Runs s false pool 256 (1 ∷ 2 ∷ []) false) (λ task2_mem.
                then-Runs (stack_from-Runs s false pool 256 (1 ∷ 2 ∷ []) false) (λ task3_mem.
                  next-Runs
                    (init_heap-Runs s false heap (api.text "global") (1 ∷ 2 ∷ []) false refl)
                    (then-Runs (static-Runs event_group (0 ∷ 1 ∷ 2 ∷ []) true refl) (λ group.
                      then-Runs
                        (flags-Runs s false group (api.text "event_flag") (4 ∷ 0 ∷ 1 ∷ 2 ∷ []) true)
                        (λ evt_handle.
                          then-Runs (static-Runs timer (4 ∷ 0 ∷ 1 ∷ 2 ∷ []) true refl) (λ at_timer.
                            then-Runs
                              (box_new-Runs s false (layout_of 0) (5 ∷ 4 ∷ 0 ∷ 1 ∷ 2 ∷ []) (fits 0))
                              (λ at.
                                next-Runs
                                  (timer-Runs s ticks_per_second at_timer (api.text "timer")
                                    (on_timer evt_handle) (record { secs = 5; nanos = 0 })
                                    (record { secs = 1; nanos = 0 }) (5 ∷ 4 ∷ 0 ∷ 1 ∷ 2 ∷ []) pos)
                                  (flags_threads-Runs evt_handle task1_mem task2_mem
                                    task3_mem))))))))))))

  -- Without overflow checks, as in the release profile, the closure of queue.rs that defines the
  -- application returns, for closures whose layouts fit, on a kernel where every call succeeds and no static cell is taken; called a second time it
  -- panics, since the cells are taken.
  pub queue_defined_once :
      (mem_start again : ℕ) (m : Memory QueueJob K)
      → Had [] false m
      → (m' : Memory QueueJob K) × (queue_define api false ticks_per_second layout_of mem_start m
          ≡ (ok tt, m'))
        × ((queue_define api false ticks_per_second layout_of again m').0 ≡ panic)
  unfolding queue_define
  queue_defined_once mem_start again m at =
      let (_, m', e, had) = (queue_define-Runs mem_start).runs m at in
      (
        m',
        e,
        >>=-panic (init_heap api false heap (api.text "global"))
            (λ _. queue_set_up api false ticks_per_second layout_of)
            (init_heap-panic s false heap (api.text "global") (7 ∷ 6 ∷ 3 ∷ 2 ∷ 1 ∷ 0 ∷ []) true m'
              had refl),
      )

  -- Without overflow checks the closure of event_flag.rs that defines the application returns, for
  -- closures whose layouts fit and at most 1000 ticks per second, on a kernel where every call succeeds and no static
  -- cell is taken.
  pub flags_defined :
      0 < ticks_per_second
      → ticks_per_second ≤ 1000
      → (mem_start : ℕ) (m : Memory FlagJob K) → Had [] false m
      → (m' : Memory FlagJob K) × (flags_define api false ticks_per_second layout_of mem_start m
          ≡ (ok tt, m'))
  flags_defined pos le mem_start m at =
      let start = flags_define-Runs mem_start (millis_per_tick-pos ticks_per_second pos le) in
      let (_, m', e, had) = start.runs m at in (m', e)
