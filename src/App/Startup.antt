-- ===== src/App/Startup.antt =====
-- threadx-app/cross/app/src/bin/network.rs: do_network up to its loop, the display and the clock.
use threadx_rust.App.{wifi_connected, Duration, flag_code, some, pure, attempt}
use threadx_rust.Network.Stack.{NetxTcpSocket}
use threadx_rust.Call.{wait_forever}
use threadx_rust.EventFlags.{publish, EventFlagsGroupHandle}
use threadx_rust.Timer.{initialize_with_fn, TimerApi}
use threadx_rust.Executor.{Executor, on_kernel, ExecutorApi, World}
use Prim.Native.String.{String}
use threadx_rust.Base.{
  [], true, ok, modify, panics, unwrap_option, panic, panic_if, none, ◌^◌, gets, not, ◌%◌, unwrap,
  if◌then◌else◌, Never, ◌+◌, Option, Prog, ℕ, Bool, ◌>>=◌, ◌>>◌,
}
use threadx_rust.Executor
use threadx_rust.Network.Setup
use threadx_rust.Mutex.{Mutex, Cell, lock, deref, deref_mut, drop_guard}

-- `embedded_graphics` and the driver of the display: `false` is an error.
pub record ScreenApi (Display K : Type 0) : Type 0 where
  pub clear_buffer : Display → Display
  pub draw : String → Display → Bool × Display
  pub flush : Display → K → Bool × Display × K

-- The new content of the display's driver is the result.
unfoldable pub print_text :
    {Display K : Type 0} → ScreenApi Display K → String → Display → Prog K Never Display
print_text screen text display k =
    let (drawn, d) = screen.draw text (screen.clear_buffer display) in
    let (flushed, d', k') = screen.flush d k in
    if not drawn then (panic, k) else (if flushed then ok d' else panic, k')

-- `clock_tick` and `try_now`, on the 32-bit counter `TICKS`.
unfoldable pub clock_tick : ℕ → ℕ
clock_tick seconds = (seconds + 1) % 2 ^ 32

unfoldable pub try_now : ℕ → ℕ
try_now seconds = seconds

-- What `do_network` works on: the executor with the kernel, the mutex in `DISPLAY`, the statics of
-- the network, and whether `CLOCK_TIMER` is taken.
pub record NetState (Display K : Type 0) : Type 0 where
  pub world : World K
  pub display : Mutex (Option Display)
  pub nx_initialized : Bool
  pub nx_taken : ℕ → Bool
  pub clock_taken : Bool

module _ {Display K : Type 0} where
  abbrev pub on_world : {E A : Type 0} → Prog (World K) E A → Prog (NetState Display K) E A
  on_world p s = let (o, w) = p s.world in (o, record s { world = w })

  abbrev pub on_display :
      {E A : Type 0} → Prog (Cell (Option Display) K) E A → Prog (NetState Display K) E A
  on_display p s =
      let (o, c) = p (record { value = s.display; kernel = s.world.kernel }) in
      (o, record s { display = c.value; world = record (s.world) { kernel = c.kernel } })

  abbrev pub on_network :
      {E A : Type 0} → Prog (Setup.SetupState K) E A → Prog (NetState Display K) E A
  on_network p s =
      let (o, n) = p (record {
        nx_initialized = s.nx_initialized;
        setup = record { taken = s.nx_taken; kernel = s.world.kernel };
      }) in
      (
        o,
        record s {
          nx_initialized = n.nx_initialized;
          nx_taken = n.setup.taken;
          world = record (s.world) { kernel = n.setup.kernel };
        },
      )

module _ {Display K : Type 0} (os : ExecutorApi K) (timers : TimerApi K)
    (network : Setup.SetupApi K) (memory : Setup.Memory) (screen : ScreenApi Display K)
    (client_id : Bool) (ticks_per_second clock_timer clock_name clock_fn : ℕ) where
  abbrev print : String → Display → Prog (NetState Display K) Never Display
  print text d = on_world (on_kernel (print_text screen text d))

  -- `start_clock`: a timer that calls `clock_tick` (at `clock_fn`) every second.
  unfoldable pub start_clock : Prog (NetState Display K) Never (Unit {0})
  unfolding initialize_with_fn
  start_clock = do
    taken ← gets (λ s. s.clock_taken)
    panic_if taken
    modify (λ s. record s { clock_taken = true })
    let second : Duration = record { secs = 1; nanos = 0 }
    on_world (
        on_kernel (
          unwrap (
            initialize_with_fn timers ticks_per_second clock_timer clock_name (some clock_fn) 0
              second second true)))

  -- `display.lock(WaitForever).unwrap().take().unwrap()`; the guard lives to the end of the
  -- statement.
  unfoldable pub take_display : Prog (NetState Display K) Never Display
  unfolding lock deref deref_mut drop_guard
  take_display = do
    g ← on_display (unwrap (lock os.mutexes wait_forever))
    content ← on_display (deref g)
    on_display (deref_mut g (λ _. none))
    d ← unwrap_option content
    on_display (drop_guard os.mutexes g)
    pure d

  -- Behind the set-up of the network, `none` where that has failed.
  unfoldable pub connect :
      EventFlagsGroupHandle
      → Option NetxTcpSocket
      → Display
      → Prog (NetState Display K) Never (NetxTcpSocket × Display)
  unfolding start_clock publish
  connect evt_handle none d = do print "Failure :(" d; panics
  connect evt_handle (some n) d = do
    panic_if (not client_id)
    d' ← print "WLAN(x)\nMQTT()" d
    start_clock
    on_world (on_kernel (unwrap (publish os.flags evt_handle (flag_code wifi_connected))))
    pure (n, d')

  -- `do_network` up to its loop. `client_id` is whether the configuration of the MQTT client
  -- accepts the name of the client.
  unfoldable pub network_start :
      EventFlagsGroupHandle → Prog (NetState Display K) Never (Executor × NetxTcpSocket × Display)
  unfolding Executor.new take_display Setup.initialize connect
  network_start evt_handle = do
    executor ← on_world (Executor.new os)
    d ← take_display
    d' ← print "WLAN()\nMQTT()" d
    up ← attempt (on_network (Setup.initialize network memory [] []))
    (n, d'') ← connect evt_handle up d'
    pure (executor, n, d'')
