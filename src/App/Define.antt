-- ===== src/App/Define.antt =====
-- threadx-app/cross/app/src/bin/network.rs: the closures of main.
use threadx_rust.Call.{wait_forever}
use threadx_rust.Allocator.{Layout}
use threadx_rust.EventFlags.{EventFlagsGroupHandle}
use threadx_rust.Base.{
  false, pure, none, unwrap_option, unwrap, some, modify, ℕ, Bool, Never, Option, Prog,
}
use threadx_rust.App.Payload.{Event}
use threadx_rust.Queue.{QueueSender, QueueReceiver}
use threadx_rust.Launch
use threadx_rust.Mutex
use threadx_rust.Queue
use threadx_rust.EventFlags
use threadx_rust.Base.{◌>>=◌, ◌>>◌}
use threadx_rust.Launch.{StartApi, Memory, init_static, init_heap, box_new, start_thread}
use threadx_rust.Mutex.{drop_guard, deref_mut, lock, Mutex, MutexApi, Cell}
use threadx_rust.Board.{BoardMxAz3166}

-- The `StaticCell`s of the program.
pub data AppCell : Type 0 where
  heap : AppCell
  wifi_thread_stack : AppCell
  wifi_thread : AppCell
  measure_thread_stack : AppCell
  measure_thread : AppCell
  queue : AppCell
  queue_mem : AppCell
  event_group : AppCell
  display : AppCell

-- The closures of the two threads, with what they have moved in.
pub data AppJob (Sensor Bus : Type 0) : Type 0 where
  do_network : QueueReceiver → EventFlagsGroupHandle → AppJob Sensor Bus
  do_measurement : QueueSender → EventFlagsGroupHandle → Sensor → Bus → AppJob Sensor Bus

-- `BOARD`, the mutex in `DISPLAY`, and the memory with the kernel.
pub record AppState (Display Sensor Bus F K : Type 0) : Type 0 where
  pub board : Option (BoardMxAz3166 Display Sensor Bus)
  pub display : Mutex (Option Display)
  pub memory : Memory F K

module _ {Display Sensor Bus F K : Type 0} where
  abbrev pub on_memory :
      {E A : Type 0} → Prog (Memory F K) E A → Prog (AppState Display Sensor Bus F K) E A
  on_memory p s = let (o, m) = p s.memory in (o, record s { memory = m })

  -- What is done with the mutex of the display.
  abbrev pub on_display :
      {E A : Type 0}
      → Prog (Cell (Option Display) K) E A
      → Prog (AppState Display Sensor Bus F K) E A
  on_display p s =
      let m = s.memory in
      let (o, c) = p (record { value = s.display; kernel = m.kernel.kernel }) in
      (
        o,
        record s {
          display = c.value;
          memory = record m { kernel = record (m.kernel) { kernel = c.kernel } };
        },
      )

  -- The first closure of `main`, behind the low-level initialisation.
  unfoldable pub store_board :
      BoardMxAz3166 Display Sensor Bus → Prog (AppState Display Sensor Bus F K) Never (Unit {0})
  store_board b = modify (λ s. record s { board = some b })

  unfoldable pub take_display : Prog (AppState Display Sensor Bus F K) Never Display
  take_display = do
    b ← (λ s. unwrap_option s.board s)
    modify (λ s. record s { board = some (record b { display = none }) })
    unwrap_option b.display

  unfoldable pub take_sensor : Prog (AppState Display Sensor Bus F K) Never (Sensor × Bus)
  take_sensor = do
    b ← (λ s. unwrap_option s.board s)
    modify (λ s. record s { board = some (record b { temp_sensor = none }) })
    sensor ← unwrap_option b.temp_sensor
    modify (λ s. record s { board = some (record b { temp_sensor = none; i2c_bus = none }) })
    bus ← unwrap_option b.i2c_bus
    pure (sensor, bus)

module _ {Display Sensor Bus K : Type 0} (api : StartApi AppCell Event K) (checks : Bool)
    (mutex_at : ℕ) (layout_of : ℕ → Layout) where
  -- `DISPLAY.init(Mutex::new(None))`, with the control block of the mutex at `mutex_at`, and the
  -- display of the board in it.
  unfoldable pub share_display :
      Prog (AppState Display Sensor Bus (AppJob Sensor Bus) K) Never (Unit {0})
  unfolding init_static take_display Mutex.new Mutex.initialize lock deref_mut drop_guard
  share_display = do
    on_memory (init_static api checks display)
    modify (λ s. record s { display = Mutex.new none mutex_at })
    on_display (unwrap (Mutex.initialize api.mutexes (api.text "display_mtx") false))
    taken ← take_display
    g ← on_display (unwrap (lock api.mutexes wait_forever))
    on_display (deref_mut g (λ _. some taken))
    on_display (drop_guard api.mutexes g)

  -- The network thread and the measuring thread, on their static stacks.
  unfoldable pub start_both :
      QueueSender
      → QueueReceiver
      → EventFlagsGroupHandle
      → Sensor
      → Bus
      → Prog (AppState Display Sensor Bus (AppJob Sensor Bus) K) Never (Unit {0})
  unfolding init_static box_new start_thread
  start_both sender receiver evt_handle hts211 i2c = do
    wifi_stack ← on_memory (init_static api checks wifi_thread_stack)
    wifi ← on_memory (init_static api checks wifi_thread)
    on_memory (box_new api checks (layout_of 0))
    on_memory (
        start_thread api checks wifi "wifi_thread" (do_network receiver evt_handle)
          (record { ptr = wifi_stack; len = 4096 }) 4)
    measure_stack ← on_memory (init_static api checks measure_thread_stack)
    measure ← on_memory (init_static api checks measure_thread)
    on_memory (box_new api checks (layout_of 1))
    on_memory (
        start_thread api checks measure "measurement_thread"
          (do_measurement sender evt_handle hts211 i2c) (record { ptr = measure_stack; len = 1024 })
          4)

  -- What follows the heap in the second closure of `main`; an event has four bytes.
  unfoldable pub app_set_up :
      Prog (AppState Display Sensor Bus (AppJob Sensor Bus) K) Never (Unit {0})
  unfolding share_display take_sensor init_static start_both Queue.initialize EventFlags.initialize
  app_set_up = do
    share_display
    (hts211, i2c) ← take_sensor
    qm ← on_memory (init_static api checks queue_mem)
    at_queue ← on_memory (init_static api checks queue)
    (sender, receiver) ← on_memory (
        Launch.on_kernel (
          unwrap (
            Queue.initialize api.queues 4 at_queue (api.text "m_queue")
              (record { ptr = qm; len = 128 }))))
    group ← on_memory (init_static api checks event_group)
    evt_handle ←
        on_memory (
          Launch.on_kernel (unwrap (EventFlags.initialize api.flags group (api.text "event_flag"))))
    start_both sender receiver evt_handle hts211 i2c

  -- The second closure of `main`.
  unfoldable pub app_define :
      (mem_start : ℕ) → Prog (AppState Display Sensor Bus (AppJob Sensor Bus) K) Never (Unit {0})
  unfolding init_heap app_set_up
  app_define mem_start = do on_memory (init_heap api checks heap (api.text "global")); app_set_up
