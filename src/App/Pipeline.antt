-- ===== src/App/Pipeline.antt =====
-- threadx-app/cross/app/src/bin/network.rs: do_measurement and do_network beside each other, call by
-- call.
use threadx_rust.Base.{Bool, ℕ, ◌≡◌, Option, none, some, List, [], ◌∷◌, ◌++◌, Never, ok, unwrap}
use threadx_rust.Executor.{ExecutorApi, World, Executor, on_kernel}
use threadx_rust.EventFlags.{EventFlagsApi}
use threadx_rust.Thread.{ThreadApi, sleep}
use threadx_rust.Queue.{QueueApi, receive}
use threadx_rust.Call.{no_wait}
use threadx_rust.Time.{from_millis}
use threadx_rust.Uprotocol.Transport.{MqttApi, poll, is_connected}
use threadx_rust.App.{attempt, measure_turn, forward}
use threadx_rust.App.Payload.{Event, ℤ, temperature_measurement}
use threadx_rust.App.Shown.{Contract}

-- Both threads: the event that the network thread has taken and not yet sent, and the measurements
-- that the measuring thread has sent so far.
pub record System (K : Type 0) : Type 0 where
  pub world : World K
  pub hand : Option Event
  pub measured : List Event

module _ {K : Type 0} {os : ExecutorApi K} {threads : ThreadApi K} {queues : QueueApi K Event}
    {client : MqttApi K} {queue_ptr : ℕ} (c : Contract os threads queues client queue_ptr)
    (flags : EventFlagsApi K) (temperature_x8 : K → Option ℤ × K) (ticks_per_second : ℕ)
    (others : World K → World K) (executor : Executor) where
  -- One turn of the measuring thread, which touches the queue once, or one of the calls that a turn
  -- of the network thread consists of; `elsewhere` is all that leaves the queue and the payloads
  -- alone.
  pub data Step (s : System K) : System K → Type 0 where
    measure :
        {deg : ℤ} {w' : World K}
        → (temperature_x8 s.world.kernel).0 ≡ some deg
        → on_kernel
            (measure_turn threads queues flags ticks_per_second temperature_x8
              (record { sender_ptr = queue_ptr }))
            s.world
          ≡ (ok tt, w')
        → Step s
            (record s { world = w'; measured = s.measured ++ temperature_measurement deg ∷ [] })
    polled :
        {w' : World K}
        → on_kernel {E = Never} (poll client) s.world ≡ (ok tt, w')
        → Step s (record s { world = w' })
    asked :
        {b : Bool} {w' : World K}
        → on_kernel {E = Never} (is_connected client) s.world ≡ (ok b, w')
        → Step s (record s { world = w' })
    missed :
        {w' : World K}
        → s.hand ≡ none
        → on_kernel (attempt (receive queues (record { receiver_ptr = queue_ptr }) no_wait)) s.world
          ≡ (ok none, w')
        → Step s (record s { world = w' })
    taken :
        {e : Event} {w' : World K}
        → s.hand ≡ none
        → on_kernel (attempt (receive queues (record { receiver_ptr = queue_ptr }) no_wait)) s.world
          ≡ (ok (some e), w')
        → Step s (record s { world = w'; hand = some e })
    sent :
        {e : Event} {w' : World K}
        → s.hand ≡ some e
        → forward os threads queues client ticks_per_second others executor e s.world ≡ (ok tt, w')
        → Step s (record s { world = w'; hand = none })
    rested :
        {w' : World K}
        → on_kernel {E = Never} (unwrap (sleep threads ticks_per_second (from_millis 1000))) s.world
          ≡ (ok tt, w')
        → Step s (record s { world = w' })
    elsewhere :
        (w' : World K)
        → c.shown w'.kernel ≡ c.shown s.world.kernel
        → Step s (record s { world = w' })

  pub data Reach (s : System K) : System K → Type 0 where
    here : Reach s s
    next : {t u : System K} → Reach s t → Step t u → Reach s u
