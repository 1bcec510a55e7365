-- ===== src/App.antt =====
-- threadx-app/cross/app/src/bin/network.rs: the loops of the two threads of the demo. What they
-- print is left out.
pub mod Payload
pub mod Digits
pub mod Shown
pub mod Sending
pub mod Delivery
pub mod Returns
pub mod Pipeline
pub mod InTransit
pub mod Turns
pub mod Define
pub mod Holding
pub mod HandOver
pub mod Defined
pub mod Startup
pub mod Emptied
pub mod Once
pub mod Screen
pub mod Printing
mod TurnTests
mod PipelineTests
mod StartTests
mod OnceTests
mod Tests
use threadx_rust.Base.{
  if◌then◌else◌, some, unwrap_option, pure, none, catch, unwrap, Option, ℕ, Prog, Never, ◌>>=◌,
  ◌>>◌,
}
use threadx_rust.Thread.{ThreadApi, sleep}
use threadx_rust.Queue.{QueueApi, QueueSender, QueueReceiver, send, receive}
use threadx_rust.EventFlags.{EventFlagsApi, EventFlagsGroupHandle, get, publish, wait_all_and_clear}
use threadx_rust.Call.{wait_forever, no_wait}
use threadx_rust.Executor.{on_kernel, ExecutorApi, World, Executor, Signal, Poll, ready, block_on}
use threadx_rust.Uprotocol.{UMessage, UStatus}
use threadx_rust.Uprotocol.Transport
use threadx_rust.Uprotocol.Transport.{MqttApi, poll, is_connected}
use threadx_rust.App.Payload.{ℤ, Event, temperature_measurement, event_bytes}
use threadx_rust.Time.{Duration, from_millis}

-- `FlagEvents`
pub data FlagEvents : Type 0 where
  wifi_connected : FlagEvents
  wifi_disconnected : FlagEvents

unfoldable pub flag_code : FlagEvents → ℕ
flag_code wifi_connected = 1
flag_code wifi_disconnected = 2

-- `let _ = r;`
abbrev pub ignore : {K E : Type 0} {A : Type 0} → Prog K E A → Prog K Never (Unit {0})
ignore p = catch p (λ _. pure tt) (λ _. pure tt)

-- `r.ok()`
abbrev pub attempt : {K E : Type 0} {A : Type 0} → Prog K E A → Prog K Never (Option A)
attempt p = catch p (λ a. pure (some a)) (λ _. pure none)

module _ {K : Type 0} (threads : ThreadApi K) (queues : QueueApi K Event) (flags : EventFlagsApi K)
    (ticks_per_second : ℕ) where
  -- `do_measurement` up to its loop.
  unfoldable pub await_wifi : EventFlagsGroupHandle → Prog K Never (Unit {0})
  await_wifi h = do
    unwrap (get flags h (flag_code wifi_connected) wait_all_and_clear wait_forever)
    pure tt

  -- One turn of the loop of `do_measurement`; the sensor answers `none` for an error.
  unfoldable pub measure_turn :
      (temperature_x8 : K → Option ℤ × K) → QueueSender → Prog K Never (Unit {0})
  measure_turn temperature_x8 snd = do
    deg ← (λ k. let (t, k') = temperature_x8 k in unwrap_option t k')
    ignore (send queues snd (temperature_measurement deg) wait_forever)
    ignore (sleep threads ticks_per_second (record { secs = 5; nanos = 0 }))

-- The future of `transport.send`, which has no `await`: its first poll runs it to the end.
unfoldable pub send_future :
    {K : Type 0}
    → MqttApi K
    → Signal
    → UMessage
    → Prog (World K) Never (Poll UMessage (Option (Unit {0})))
send_future client s m = do sent ← on_kernel (attempt (Transport.send client m)); pure (ready sent)

module _ {K : Type 0} (os : ExecutorApi K) (threads : ThreadApi K) (queues : QueueApi K Event)
    (client : MqttApi K) (ticks_per_second : ℕ) where
  -- An event as a message, and `executor.block_on(transport.send(umessage))`.
  unfoldable pub forward :
      (others : World K → World K) → Executor → Event → Prog (World K) Never (Unit {0})
  forward others executor evt = do
    let message : UMessage = record { attributes = none; payload = some (event_bytes evt) }
    block_on os (send_future client) others 1 executor message
    pure tt

  -- One turn of the loop of `do_network`, without what it shows on the display.
  unfoldable pub network_turn :
      (others : World K → World K) → Executor → QueueReceiver → Prog (World K) Never (Unit {0})
  network_turn others executor recv = do
    on_kernel (poll client)
    connected ← on_kernel (is_connected client)
    if connected
        then (do
          evt ← on_kernel (attempt (receive queues recv no_wait))
          elim evt [ none ↦ pure tt | some e ↦ forward others executor e ])
        else pure tt
    on_kernel (unwrap (sleep threads ticks_per_second (from_millis 1000)))
