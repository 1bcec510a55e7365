-- ===== src/App/Once.antt =====
-- threadx-app/cross/app/src/bin/network.rs: do_network gets to its loop once, and with the network up.
use threadx_rust.Network.Stack.{NetxTcpSocket}
use threadx_rust.Timer.{TimerApi}
use threadx_rust.Base.{
  ok-injective, unwrap-eq-ok, [], not, panic_if, ◌>>=◌, pure-Keeps, refl, then-Stops, Stops,
  then-Ends, then-Keeps, Ends, Bool, ◌≡◌, ◌∙◌, ap, none, some, Option, Prog, Never, ok, unwrap,
  Keeps, arith,
}
use threadx_rust.App.{wifi_connected, flag_code, attempt}
use threadx_rust.Base.{◌>>◌, ℕ, bind-Ends, panic, bind-Stops, >>=-eq-ok, pure, panics}
use threadx_rust.EventFlags.{EventFlagsGroupHandle, publish}
use threadx_rust.Executor.{ExecutorApi}
use threadx_rust.App.Startup.{
  network_start, print_text, start_clock, connect, take_display, ScreenApi, NetState, on_world,
  on_network,
}
use threadx_rust.Executor.{World, Executor, on_kernel}
use threadx_rust.Network.Setup
use threadx_rust.Executor
use threadx_rust.Base.{Outcome, err}
use threadx_rust.Network.{NxError}
use Prim.Native.String.{String}
use threadx_rust.App.Emptied.{
  Taken, on_world-Keeps, attempt-Keeps, take_display-Ends, take_display-Stops, connect-Keeps,
}

module _ {Display K : Type 0} (os : ExecutorApi K) (timers : TimerApi K)
    (network : Setup.SetupApi K) (memory : Setup.Memory) (screen : ScreenApi Display K)
    (client_id : Bool) (ticks_per_second clock_timer clock_name clock_fn : ℕ) where
  abbrev Net : Type 0
  Net = NetState Display K

  abbrev taking : Prog Net Never Display
  taking =
      take_display os timers network memory screen client_id ticks_per_second clock_timer clock_name
        clock_fn

  abbrev starting : EventFlagsGroupHandle → Prog Net Never (Executor × NetxTcpSocket × Display)
  starting =
      network_start os timers network memory screen client_id ticks_per_second clock_timer
        clock_name clock_fn

  abbrev connecting :
      EventFlagsGroupHandle
      → Option NetxTcpSocket
      → Display
      → Prog Net Never (NetxTcpSocket × Display)
  connecting =
      connect os timers network memory screen client_id ticks_per_second clock_timer clock_name
        clock_fn

  abbrev printing : String → Display → Prog Net Never Display
  printing text d = on_world (on_kernel (print_text screen text d))

  abbrev setting_up : Prog Net Never (Option NetxTcpSocket)
  setting_up = attempt (on_network (Setup.initialize network memory [] []))

  -- What follows the display in `network_start`.
  abbrev showing :
      EventFlagsGroupHandle
      → Executor
      → Display
      → Prog Net Never (Executor × NetxTcpSocket × Display)
  showing evt_handle executor d = do
    d' ← printing "WLAN()\nMQTT()" d
    up ← setting_up
    (n, d'') ← connecting evt_handle up d'
    pure (executor, n, d'')

  showing-Keeps :
      (evt_handle : EventFlagsGroupHandle) (executor : Executor) (d : Display)
      → Keeps Taken (showing evt_handle executor d)
  showing-Keeps evt_handle executor d =
      then-Keeps (on_world-Keeps (on_kernel (print_text screen "WLAN()\nMQTT()" d))) (λ d'.
        then-Keeps (attempt-Keeps (Setup.initialize network memory [] [])) (λ up.
          then-Keeps
            (connect-Keeps os timers network memory screen client_id ticks_per_second clock_timer
              clock_name clock_fn evt_handle up d')
            (λ (n, d''). pure-Keeps (executor, n, d''))))

  network_start-Ends : (evt_handle : EventFlagsGroupHandle) → Ends Taken (starting evt_handle)
  unfolding network_start
  network_start-Ends evt_handle = then-Ends (on_world (Executor.new os)) (λ executor.
      bind-Ends
        (take_display-Ends os timers network memory screen client_id ticks_per_second clock_timer
          clock_name clock_fn)
        (λ d. showing-Keeps evt_handle executor d))

  network_start-Stops : (evt_handle : EventFlagsGroupHandle) → Stops Taken (starting evt_handle)
  unfolding network_start
  network_start-Stops evt_handle = then-Stops (on_world-Keeps (Executor.new os)) (λ executor.
      bind-Stops (λ d. showing evt_handle executor d)
        (take_display-Stops os timers network memory screen client_id ticks_per_second clock_timer
          clock_name clock_fn))

  -- The flag is published last, for the network that is up.
  connect-published :
      (evt_handle : EventFlagsGroupHandle) (up : Option NetxTcpSocket) (d : Display) (s : Net)
      {d' : Display} {n : NetxTcpSocket} {s' : Net}
      → connecting evt_handle up d s ≡ (ok (n, d'), s')
      → (up ≡ some n)
        × (k : K) × (publish os.flags evt_handle (flag_code wifi_connected) k
            ≡ (ok tt, s'.world.kernel))
  unfolding connect
  connect-published evt_handle none d s e =
      let (_, s1, p1, q1) = >>=-eq-ok (printing "Failure :(" d) (λ _. panics) e in
      absurd (ground (arith, q1))
  connect-published evt_handle (some n) d s e =
      let published : Prog Net Never (Unit {0}) =
        on_world (on_kernel (unwrap (publish os.flags evt_handle (flag_code wifi_connected)))) in
      let behind_clock : Display → Prog Net Never (NetxTcpSocket × Display) =
        λ d'. (published >> pure (n, d')) in
      let behind_print : Display → Prog Net Never (NetxTcpSocket × Display) = λ d'.
        (start_clock os timers network memory screen client_id ticks_per_second clock_timer
            clock_name clock_fn
          >> behind_clock d') in
      let (_, s1, p1, q1) =
        >>=-eq-ok (panic_if (not client_id)) (λ _. (printing "WLAN(x)\nMQTT()" d >>= behind_print))
          e in
      let (d', s2, p2, q2) = >>=-eq-ok (printing "WLAN(x)\nMQTT()" d) behind_print q1 in
      let (_, s3, p3, q3) =
        >>=-eq-ok
          (start_clock os timers network memory screen client_id ticks_per_second clock_timer
            clock_name clock_fn)
          (λ _. behind_clock d') q2 in
      let (_, s4, p4, q4) = >>=-eq-ok published (λ _. pure (n, d')) q3 in
      let same =
        unwrap-eq-ok (publish os.flags evt_handle (flag_code wifi_connected)) s3.world.kernel
          (ap (λ r. (r.0, r.1.world.kernel)) p4) in
      (ground (arith, q4), s3.world.kernel, same ∙ ground (arith, q4))

  -- What has been set up is the network.
  set_up_network :
      (n : NetxTcpSocket) (s : Net) {s' : Net}
      → setting_up s ≡ (ok (some n), s')
      → (u u' : Setup.SetupState K) × (Setup.initialize network memory [] [] u ≡ (ok n, u'))
  set_up_network n s {s'} e = of_outcome (Setup.initialize network memory [] [] from) refl e
    where
      from : Setup.SetupState K
      from = record {
        nx_initialized = s.nx_initialized;
        setup = record { taken = s.nx_taken; kernel = s.world.kernel };
      }

      of_outcome :
          (r : Outcome NxError NetxTcpSocket × Setup.SetupState K)
          → Setup.initialize network memory [] [] from ≡ r
          → attempt (on_network (λ _. r)) s ≡ (ok (some n), s')
          → (u u' : Setup.SetupState K) × (Setup.initialize network memory [] [] u ≡ (ok n, u'))
      of_outcome (ok m, u') e f = (
        from,
        u',
        e ∙ ap (λ x. (ok x, u')) (ap (λ o. elim o [ some x ↦ x | none ↦ m ]) (ok-injective f).0),
      )
      of_outcome (err x, u') e f = absurd (ground arith)
      of_outcome (panic, u') e f = absurd (ground arith)

  -- When `do_network` has got to its loop: the network that it goes on with is the one that has been
  -- set up, the last call of the kernel has published the flag that lets the measuring thread begin,
  -- and the display is no longer in its mutex. A second thread that runs `do_network` panics before
  -- its loop.
  pub network_started_once :
      (evt_handle : EventFlagsGroupHandle) (s : Net) {s' : Net} {executor : Executor}
      {n : NetxTcpSocket} {d : Display}
      → starting evt_handle s ≡ (ok (executor, n, d), s')
      → ((u u' : Setup.SetupState K) × (Setup.initialize network memory [] [] u ≡ (ok n, u')))
        × ((k : K) × (publish os.flags evt_handle (flag_code wifi_connected) k
              ≡ (ok tt, s'.world.kernel)))
        × (s'.display.inner ≡ none)
        × ((again : EventFlagsGroupHandle) → (starting again s').0 ≡ panic)
  unfolding network_start
  network_started_once evt_handle s {s'} {executor} {n} {d} e =
      let taken : Taken s' = (network_start-Ends evt_handle).ends s e in
      let (ex, s1, p1, q1) =
        >>=-eq-ok (on_world (Executor.new os)) (λ ex. (taking >>= showing evt_handle ex)) {k = s}
          e in
      let (d1, s2, p2, q2) = >>=-eq-ok taking (showing evt_handle ex) {k = s1} q1 in
      let (d2, s3, p3, q3) =
        >>=-eq-ok (printing "WLAN()\nMQTT()" d1) (λ d2. (setting_up >>= connected ex d2)) {k = s2}
          q2 in
      let (up, s4, p4, q4) = >>=-eq-ok setting_up (connected ex d2) {k = s3} q3 in
      let ((n1, d3), s5, p5, q5) =
        >>=-eq-ok (connecting evt_handle up d2) (λ (n1, d3). pure (ex, n1, d3)) {k = s4} q4 in
      let (found, k, said) = connect-published evt_handle up d2 s4 p5 in
      let same = ok-injective q5 in
      (
        set_up_network n s3 (p4 ∙ ap (λ u. (ok u, s4)) (found ∙ ap (λ x. some x.1) same.0)),
        (k, said ∙ ap (λ t. (ok tt, t.world.kernel)) same.1),
        taken,
        λ again. ((network_start-Stops again).stops s' taken).0,
      )
    where
      connected :
          Executor
          → Display
          → Option NetxTcpSocket
          → Prog Net Never (Executor × NetxTcpSocket × Display)
      connected ex d2 up = connecting evt_handle up d2 >>= λ (n1, d3). pure (ex, n1, d3)
