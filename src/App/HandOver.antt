-- ===== src/App/HandOver.antt =====
-- threadx-app/cross/app/src/bin/network.rs: the closures of main take the parts of the board.
use threadx_rust.Base.{
  then-Picks, modify, ℕ, ◌≡◌, ◌≢◌, refl, Bool, true, false, none, some, Option, List, ◌∷◌, Runs,
  then-Runs, next-Runs, Picks,
}
use threadx_rust.Allocator.{Layout}
use threadx_rust.Mutex
use threadx_rust.Mutex.{Mutex, Cell, deref_mut}
use threadx_rust.App.Payload.{Event}
use threadx_rust.Launch.{StartApi}
use threadx_rust.Launch.Success.{Succeeds, elem}
use threadx_rust.Launch.Steps.{init_static-Runs}
use threadx_rust.Launch.Locks.{InCell, initialize-Runs, lock-Runs, drop_guard-Runs}
use threadx_rust.App.Holding.{Holds, on_memory-Runs, on_display-Runs}
use threadx_rust.App.Define.{
  AppCell, AppJob, AppState, heap, wifi_thread_stack, wifi_thread, measure_thread_stack,
  measure_thread, queue, queue_mem, event_group, display, take_display, take_sensor, share_display,
}
use threadx_rust.Board.{BoardMxAz3166}

-- The static cells by number.
abbrev pub code : AppCell → ℕ
code heap = 0
code display = 1
code queue_mem = 2
code queue = 3
code event_group = 4
code wifi_thread_stack = 5
code wifi_thread = 6
code measure_thread_stack = 7
code measure_thread = 8

-- The board with all its parts, without its display, and with none.
module _ {Display Sensor Bus : Type 0} where
  abbrev pub whole : Display → Sensor → Bus → BoardMxAz3166 Display Sensor Bus
  whole d t i = record { display = some d; temp_sensor = some t; i2c_bus = some i }

  abbrev pub blind : Sensor → Bus → BoardMxAz3166 Display Sensor Bus
  blind t i = record { display = none; temp_sensor = some t; i2c_bus = some i }

  abbrev pub bare : BoardMxAz3166 Display Sensor Bus
  bare = record { display = none; temp_sensor = none; i2c_bus = none }

-- The mutex of the display, with its content and whether its control block has been created.
abbrev pub display_mutex : {Display : Type 0} → ℕ → Option Display → Bool → Mutex (Option Display)
display_mutex at content ready = record { inner = content; mutex = at; initialized = ready }

module _ {Display Sensor Bus K : Type 0} {api : StartApi AppCell Event K} {taken : K → List ℕ}
    (s : Succeeds api code taken) (checks : Bool) (mutex_at : ℕ) (placed : mutex_at ≢ 0)
    (layout_of : ℕ → Layout) (d : Display) (t : Sensor) (i : Bus) where
  abbrev Having :
      BoardMxAz3166 Display Sensor Bus
      → Mutex (Option Display)
      → List ℕ
      → Bool
      → AppState Display Sensor Bus (AppJob Sensor Bus) K
      → Type 0
  Having = Holds api code taken

  take_display-Picks :
      (m : Mutex (Option Display)) (l : List ℕ) (ready : Bool)
      → Picks
          (Having (whole d t i) m l ready)
          (λ x. x ≡ d)
          (Having (blind t i) m l ready)
          take_display
  unfolding take_display
  take_display-Picks m l ready = record {
    picks =
        λ a (x, y, at). (d, record a { board = some (blind t i) }, rw x refl, refl, (refl, y, at));
  }

  pub take_sensor-Runs :
      (m : Mutex (Option Display)) (l : List ℕ) (ready : Bool)
      → Runs (Having (blind t i) m l ready) (Having bare m l ready) take_sensor
  unfolding take_sensor
  take_sensor-Runs m l ready = record {
    runs = λ a (x, y, at). ((t, i), record a { board = some bare }, rw x refl, (refl, y, at));
  }

  pub share_display-Runs :
      (m : Mutex (Option Display)) (l : List ℕ) (ready : Bool)
      → elem 1 l ≡ false
      → Runs
          (Having (whole d t i) m l ready)
          (Having (blind t i) (display_mutex mutex_at (some d) true) (1 ∷ l) ready)
          (share_display api checks mutex_at layout_of)
  unfolding share_display deref_mut Mutex.new
  share_display-Runs m l ready free =
      next-Runs
        (on_memory-Runs api code taken (whole d t i) m
          (init_static-Runs s checks display l ready free))
        (next-Runs (stored m) (
          next-Runs
            (on_display-Runs api code taken (whole d t i) (1 ∷ l) ready
              (initialize-Runs s (mutex none false) (1 ∷ l) (api.text "display_mtx") refl))
            (then-Picks (take_display-Picks (mutex none true) (1 ∷ l) ready) (λ x same.
              then-Runs
                (on_display-Runs api code taken (blind t i) (1 ∷ l) ready
                  (lock-Runs s (mutex none true) (1 ∷ l) placed refl))
                (λ g.
                  next-Runs
                    (on_display-Runs api code taken (blind t i) (1 ∷ l) ready (filled x same))
                    (on_display-Runs api code taken (blind t i) (1 ∷ l) ready
                      (drop_guard-Runs s (mutex (some d) true) (1 ∷ l) placed g)))))))
    where
      mutex : Option Display → Bool → Mutex (Option Display)
      mutex = display_mutex mutex_at

      stored :
          (m : Mutex (Option Display))
          → Runs {A = Unit {0}}
              (Having (whole d t i) m (1 ∷ l) ready)
              (Having (whole d t i) (mutex none false) (1 ∷ l) ready)
              (modify (λ a. record a { display = mutex none false }))
      stored m = record {
        runs = λ a (x, y, at). (tt, record a { display = mutex none false }, refl, (x, refl, at));
      }

      filled :
          (x : Display)
          → x ≡ d
          → Runs {A = Unit {0}}
              (InCell taken (mutex none true) (1 ∷ l))
              (InCell taken (mutex (some d) true) (1 ∷ l))
              (modify (λ c. record c { value = record (c.value) { inner = some x } }))
      filled x same = record {
        runs = λ c (e, k). (
          tt,
          record c { value = record (c.value) { inner = some x } },
          refl,
          (rw (e, same) refl, k),
        );
      }
