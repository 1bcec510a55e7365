-- ===== src/App/Emptied.antt =====
-- threadx-app/cross/app/src/bin/network.rs: what the start of do_network leaves in the
-- mutex of the display.
use threadx_rust.Error.{TxError}
use threadx_rust.Network.Stack.{NetxTcpSocket}
use threadx_rust.Timer.{initialize_with_fn, TimerApi}
use threadx_rust.Base.{
  gets, modify, false, not, true, panic_if, ◌>>=◌, pure-Keeps, refl, next-Keeps, option-Keeps,
  then-Stops, Stops, then-Ends, then-Keeps, sym, from-Ends, Ends, Bool, ◌≡◌, ◌∙◌, ap, none, some,
  Option, Prog, Never, ok, unwrap, unwrap-state, catch-state, Keeps, arith,
}
use threadx_rust.App.{wifi_connected, flag_code, attempt}
use threadx_rust.Time.{Duration}
use threadx_rust.Base.{◌>>◌, ℕ, pure, unwrap_option, panics}
use threadx_rust.EventFlags.{EventFlagsGroupHandle, publish}
use threadx_rust.Executor.{ExecutorApi}
use threadx_rust.App.Startup.{
  print_text, start_clock, connect, take_display, on_display, ScreenApi, NetState, on_world,
  on_network,
}
use threadx_rust.Call.{wait_forever, tx_checked_call}
use threadx_rust.Executor.{World, on_kernel}
use threadx_rust.Mutex.{deref, deref_mut, Cell, MutexApi, MutexGuard, lock, drop_guard}
use threadx_rust.Network.Setup

-- No display is left in the mutex.
abbrev pub Taken : {Display K : Type 0} → NetState Display K → Type 0
Taken s = s.display.inner ≡ none

module _ {Display K : Type 0} where
  pub on_world-Keeps :
      {A : Type 0} (p : Prog (World K) Never A) → Keeps (Taken {Display = Display}) (on_world p)
  on_world-Keeps p = record { keeps = λ s h. h }

  pub attempt-Keeps :
      {E A : Type 0} (p : Prog (Setup.SetupState K) E A)
      → Keeps (Taken {Display = Display}) (attempt (on_network p))
  attempt-Keeps p = record {
    keeps = λ s h.
        ap (λ (t : NetState Display K). t.display.inner)
          (catch-state (on_network p) (λ a. ok (some a)) (λ _. ok none) s)
        ∙ h;
  }

  lock-inner :
      (os : MutexApi K) (c : Cell (Option Display) K)
      → (unwrap {F = Never} (lock os wait_forever) c).1.value.inner ≡ c.value.inner
  unfolding lock tx_checked_call
  lock-inner os c =
      ap (λ (t : Cell (Option Display) K). t.value.inner) (unwrap-state (lock os wait_forever) c)
      ∙ ground arith

  drop_guard-inner :
      (os : MutexApi K) (g : MutexGuard) (c : Cell (Option Display) K)
      → (drop_guard os {E = Never} g c).1.value.inner ≡ c.value.inner
  unfolding drop_guard tx_checked_call
  drop_guard-inner os g c = ground arith

module _ {Display K : Type 0} (os : ExecutorApi K) (timers : TimerApi K)
    (network : Setup.SetupApi K) (memory : Setup.Memory) (screen : ScreenApi Display K)
    (client_id : Bool) (ticks_per_second clock_timer clock_name clock_fn : ℕ) where
  abbrev Net : Type 0
  Net = NetState Display K

  -- `take_display` behind the lock, with what the mutex held.
  abbrev unlocking : MutexGuard → Option Display → Prog Net Never Display
  unlocking g content = do
    on_display (deref_mut g (λ _. none))
    d ← unwrap_option content
    on_display (drop_guard os.mutexes g)
    pure d

  drop_guard-Keeps :
      (g : MutexGuard) → Keeps (Taken {Display = Display}) (on_display (drop_guard os.mutexes g))
  drop_guard-Keeps g = record {
    keeps = λ s h.
        drop_guard-inner os.mutexes g (record { value = s.display; kernel = s.world.kernel }) ∙ h;
  }

  emptied-Ends :
      (g : MutexGuard)
      → Ends (Taken {Display = Display} {K = K}) (on_display (deref_mut g (λ _. none)))
  unfolding deref_mut
  emptied-Ends g = record { ends = λ s e. sym (ap (λ r. r.1.display.inner) e) }

  unlocking-Ends : (g : MutexGuard) (content : Option Display) → Ends Taken (unlocking g content)
  unlocking-Ends g content =
      from-Ends (emptied-Ends g)
        (then-Keeps (option-Keeps content) (λ d. next-Keeps (drop_guard-Keeps g) (pure-Keeps d)))

  abbrev taking : Prog Net Never Display
  taking =
      take_display os timers network memory screen client_id ticks_per_second clock_timer clock_name
        clock_fn

  pub take_display-Ends : Ends Taken taking
  unfolding take_display deref
  take_display-Ends =
      then-Ends (on_display (unwrap (lock os.mutexes wait_forever)))
        (λ g. then-Ends (on_display (deref g)) (λ content. unlocking-Ends g content))

  -- With nothing in the mutex, what follows the lock panics.
  reading-Stops : (g : MutexGuard) → Stops {K = Net} Taken (on_display (deref g) >>= unlocking g)
  unfolding deref deref_mut
  reading-Stops g = record { stops = λ s h. (rw h refl, rw h refl) }

  pub take_display-Stops : Stops Taken taking
  unfolding take_display deref
  take_display-Stops = then-Stops locking-Keeps reading-Stops
    where
      locking-Keeps : Keeps {K = Net} Taken (on_display (unwrap (lock os.mutexes wait_forever)))
      locking-Keeps = record {
        keeps = λ s h.
            lock-inner os.mutexes (record { value = s.display; kernel = s.world.kernel }) ∙ h;
      }

  panic_if-Keeps : (b : Bool) → Keeps {K = Net} Taken (panic_if b)
  panic_if-Keeps true = record { keeps = λ s h. h }
  panic_if-Keeps false = record { keeps = λ s h. h }

  start_clock-Keeps : Keeps {K = Net} Taken (
      start_clock os timers network memory screen client_id ticks_per_second clock_timer clock_name
        clock_fn)
  unfolding start_clock
  start_clock-Keeps =
      then-Keeps {m = gets (λ s. s.clock_taken)} (record { keeps = λ s h. h }) rest-Keeps
    where
      second : Duration
      second = record { secs = 1; nanos = 0 }

      create : Prog K TxError (Unit {0})
      create =
          initialize_with_fn timers ticks_per_second clock_timer clock_name (some clock_fn) 0 second
            second true

      marked : Prog Net Never (Unit {0})
      marked = modify (λ s. record s { clock_taken = true })

      marked-Keeps : Keeps Taken marked
      marked-Keeps = record { keeps = λ s h. h }

      created : Prog Net Never (Unit {0})
      created = on_world (on_kernel (unwrap create))

      rest-Keeps : (taken : Bool) → Keeps Taken (panic_if taken >> (marked >> created))
      rest-Keeps taken =
          next-Keeps (panic_if-Keeps taken)
            (next-Keeps marked-Keeps (on_world-Keeps (on_kernel (unwrap create))))

  pub connect-Keeps :
      (evt_handle : EventFlagsGroupHandle) (up : Option NetxTcpSocket) (d : Display)
      → Keeps {K = Net} Taken (
          connect os timers network memory screen client_id ticks_per_second clock_timer clock_name
            clock_fn evt_handle up d)
  unfolding connect
  connect-Keeps evt_handle none d =
      next-Keeps {n = panics} (on_world-Keeps (on_kernel (print_text screen "Failure :(" d)))
        (record { keeps = λ s h. h })
  connect-Keeps evt_handle (some n) d = next-Keeps (panic_if-Keeps (not client_id)) (
      then-Keeps (on_world-Keeps (on_kernel (print_text screen "WLAN(x)\nMQTT()" d))) (λ d'.
        next-Keeps start_clock-Keeps (
          next-Keeps
            (on_world-Keeps
              (on_kernel (unwrap (publish os.flags evt_handle (flag_code wifi_connected)))))
            (pure-Keeps (n, d')))))
