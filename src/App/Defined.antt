-- ===== src/App/Defined.antt =====
-- threadx-app/cross/app/src/bin/network.rs: the closures of main return where the kernel's calls
-- succeed, and hand the parts of the board over.
use threadx_rust.App.HandOver.{
  code, whole, bare, display_mutex, take_sensor-Runs, share_display-Runs,
}
use threadx_rust.Launch.Started.{start_thread-Runs}
use threadx_rust.Build.Strings.{codes}
use threadx_rust.Thread.{local_name}
use threadx_rust.Boxed.{Slice}
use Prim.Native.String.{String}
use threadx_rust.EventFlags.{EventFlagsGroupHandle}
use threadx_rust.Queue.{QueueReceiver, QueueSender}
use threadx_rust.Base.{
  >>=-panic, panic, ok, ◌>>◌, [], ℕ, ◌≡◌, ◌≢◌, refl, Bool, true, false, none, some, Option, List,
  ◌∷◌, Runs, then-Runs, next-Runs,
}
use threadx_rust.Allocator.{Layout, padded_size}
use threadx_rust.Mutex.{Mutex}
use threadx_rust.App.Payload.{Event}
use threadx_rust.Launch.{start_thread, init_heap, box_new, init_static, StartApi}
use threadx_rust.Launch.Success.{At, Succeeds, elem}
use threadx_rust.Launch.Steps.{
  init_heap-panic, flags-Runs, queue-Runs, init_heap-Runs, box_new-Runs, init_static-Runs,
}
use threadx_rust.App.Holding.{Holds, on_memory-Runs}
use threadx_rust.App.Define.{
  app_set_up, do_measurement, do_network, store_board, app_define, start_both, on_memory, AppCell,
  AppJob, AppState, heap, wifi_thread_stack, wifi_thread, measure_thread_stack, measure_thread,
  queue, queue_mem, event_group,
}
use threadx_rust.Board.{BoardMxAz3166}

module _ {Display Sensor Bus K : Type 0} {api : StartApi AppCell Event K} {taken : K → List ℕ}
    (s : Succeeds api code taken) (mutex_at : ℕ) (placed : mutex_at ≢ 0) (layout_of : ℕ → Layout)
    (size_of : ℕ → ℕ) (fits : (i : ℕ) → padded_size false (layout_of i) ≡ some (size_of i))
    (d : Display) (t : Sensor) (i : Bus) where
  abbrev Having :
      BoardMxAz3166 Display Sensor Bus
      → Mutex (Option Display)
      → List ℕ
      → Bool
      → AppState Display Sensor Bus (AppJob Sensor Bus) K
      → Type 0
  Having = Holds api code taken

  abbrev full : Mutex (Option Display)
  full = display_mutex mutex_at (some d) true

  cell-Runs :
      (cell : AppCell) (l : List ℕ)
      → elem (code cell) l ≡ false
      → Runs
          (Having bare full l true)
          (Having bare full (code cell ∷ l) true)
          (on_memory (init_static api false cell))
  cell-Runs cell l free =
      on_memory-Runs api code taken bare full (init_static-Runs s false cell l true free)

  boxed-Runs :
      (n : ℕ) (l : List ℕ)
      → Runs
          (Having bare full l true)
          (Having bare full l true)
          (on_memory (box_new api false (layout_of n)))
  boxed-Runs n l =
      on_memory-Runs api code taken bare full (box_new-Runs s false (layout_of n) l (fits n))

  started-Runs :
      (thread : ℕ) (name : String) (job : AppJob Sensor Bus) (stack : Slice) {bytes : List ℕ}
      (l : List ℕ)
      → local_name (codes name) ≡ some bytes
      → Runs
          (Having bare full l true)
          (Having bare full l true)
          (on_memory (start_thread api false thread name job stack 4))
  started-Runs thread name job stack l short =
      on_memory-Runs api code taken bare full (start_thread-Runs s thread name job stack 4 l short)

  start_both-Runs :
      (sender : QueueSender) (receiver : QueueReceiver) (evt_handle : EventFlagsGroupHandle)
      (hts211 : Sensor) (i2c : Bus)
      → Runs
          (Having bare full (4 ∷ 3 ∷ 2 ∷ 1 ∷ 0 ∷ []) true)
          (Having bare full (8 ∷ 7 ∷ 6 ∷ 5 ∷ 4 ∷ 3 ∷ 2 ∷ 1 ∷ 0 ∷ []) true)
          (start_both api false mutex_at layout_of sender receiver evt_handle hts211 i2c)
  unfolding start_both
  start_both-Runs sender receiver evt_handle hts211 i2c =
      then-Runs (cell-Runs wifi_thread_stack (4 ∷ 3 ∷ 2 ∷ 1 ∷ 0 ∷ []) refl) (λ wifi_stack.
        then-Runs (cell-Runs wifi_thread (5 ∷ 4 ∷ 3 ∷ 2 ∷ 1 ∷ 0 ∷ []) refl) (λ wifi.
          then-Runs (boxed-Runs 0 (6 ∷ 5 ∷ 4 ∷ 3 ∷ 2 ∷ 1 ∷ 0 ∷ [])) (λ at.
            next-Runs
              (started-Runs wifi "wifi_thread" (do_network receiver evt_handle)
                (record { ptr = wifi_stack; len = 4096 }) (6 ∷ 5 ∷ 4 ∷ 3 ∷ 2 ∷ 1 ∷ 0 ∷ []) refl)
              (then-Runs (cell-Runs measure_thread_stack (6 ∷ 5 ∷ 4 ∷ 3 ∷ 2 ∷ 1 ∷ 0 ∷ []) refl)
                (λ measure_stack.
                  then-Runs (cell-Runs measure_thread (7 ∷ 6 ∷ 5 ∷ 4 ∷ 3 ∷ 2 ∷ 1 ∷ 0 ∷ []) refl)
                    (λ measure.
                      then-Runs (boxed-Runs 1 (8 ∷ 7 ∷ 6 ∷ 5 ∷ 4 ∷ 3 ∷ 2 ∷ 1 ∷ 0 ∷ [])) (λ at2.
                        started-Runs measure "measurement_thread"
                          (do_measurement sender evt_handle hts211 i2c)
                          (record { ptr = measure_stack; len = 1024 })
                          (8 ∷ 7 ∷ 6 ∷ 5 ∷ 4 ∷ 3 ∷ 2 ∷ 1 ∷ 0 ∷ []) refl)))))))

  app_set_up-Runs :
      (m : Mutex (Option Display))
      → Runs
          (Having (whole d t i) m (0 ∷ []) true)
          (Having bare full (8 ∷ 7 ∷ 6 ∷ 5 ∷ 4 ∷ 3 ∷ 2 ∷ 1 ∷ 0 ∷ []) true)
          (app_set_up api false mutex_at layout_of)
  unfolding app_set_up
  app_set_up-Runs m =
      next-Runs (share_display-Runs s false mutex_at placed layout_of d t i m (0 ∷ []) true refl) (
        then-Runs (take_sensor-Runs s false mutex_at placed layout_of d t i full (1 ∷ 0 ∷ []) true)
          (λ (hts211, i2c). then-Runs (cell-Runs queue_mem (1 ∷ 0 ∷ []) refl) (λ qm.
            then-Runs (cell-Runs queue (2 ∷ 1 ∷ 0 ∷ []) refl) (λ at_queue.
              then-Runs
                (on_memory-Runs api code taken bare full (
                  queue-Runs s false 4 at_queue (api.text "m_queue")
                    (record { ptr = qm; len = 128 }) (3 ∷ 2 ∷ 1 ∷ 0 ∷ []) true))
                (λ (sender, receiver).
                  then-Runs (cell-Runs event_group (3 ∷ 2 ∷ 1 ∷ 0 ∷ []) refl) (λ group.
                    then-Runs
                      (on_memory-Runs api code taken bare full (
                        flags-Runs s false group (api.text "event_flag") (4 ∷ 3 ∷ 2 ∷ 1 ∷ 0 ∷ [])
                          true))
                      (λ evt_handle. start_both-Runs sender receiver evt_handle hts211 i2c)))))))

  app_define-Runs :
      (mem_start : ℕ) (m : Mutex (Option Display))
      → Runs
          (Having (whole d t i) m [] false)
          (Having bare full (8 ∷ 7 ∷ 6 ∷ 5 ∷ 4 ∷ 3 ∷ 2 ∷ 1 ∷ 0 ∷ []) true)
          (app_define api false mutex_at layout_of mem_start)
  unfolding app_define
  app_define-Runs mem_start m =
      next-Runs
        (on_memory-Runs api code taken (whole d t i) m
          (init_heap-Runs s false heap (api.text "global") [] false refl))
        (app_set_up-Runs m)

  -- Without overflow checks, as in the release profile, the closure of network.rs that defines the
  -- application, once the board has been stored with all its parts, for closures whose layouts fit
  -- and a mutex that is not at the null address, on a kernel where every call succeeds and no
  -- static cell is taken: it returns, the display of the
  -- board is in the mutex of the display, which is ready for use, and no part is left on the board.
  -- Called a second time it panics, since the cells are taken.
  pub app_defined_once :
      (mem_start again : ℕ) (a : AppState Display Sensor Bus (AppJob Sensor Bus) K)
      → At api code taken [] false a.memory
      → (a' : AppState Display Sensor Bus (AppJob Sensor Bus) K) × ((store_board (whole d t i)
              >> app_define api false mutex_at layout_of mem_start)
            a
          ≡ (ok tt, a'))
        × (a'.display ≡ record { inner = some d; mutex = mutex_at; initialized = true })
        × (a'.board ≡ some (record { display = none; temp_sensor = none; i2c_bus = none }))
        × ((app_define api false mutex_at layout_of again a').0 ≡ panic)
  unfolding store_board app_define
  app_defined_once mem_start again a at =
      let stored = record a { board = some (whole d t i) } in
      let (_, a', e, held) = (app_define-Runs mem_start a.display).runs stored (refl, refl, at) in
      (
        a',
        e,
        held.1,
        held.0,
        >>=-panic (on_memory (init_heap api false heap (api.text "global")))
            (λ _. app_set_up api false mutex_at layout_of)
            (init_heap-panic s false heap (api.text "global")
              (8 ∷ 7 ∷ 6 ∷ 5 ∷ 4 ∷ 3 ∷ 2 ∷ 1 ∷ 0 ∷ []) true a'.memory held.2 refl),
      )
