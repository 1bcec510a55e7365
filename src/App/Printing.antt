-- ===== src/App/Printing.antt =====
-- threadx-app/cross/app/src/bin/network.rs: the loop of do_network with what it shows on the display.
use threadx_rust.App.Delivery.{Turned}
use Prim.Native.String.{String}
use threadx_rust.Base.{
  ◌⊎◌, length, List, [], ◌∷◌, ◌++◌, map, ◌≤◌, ℕ, ◌≡◌, Bool, true, Prog, Never, pure, ◌>>=◌, ◌>>◌,
  if◌then◌else◌,
}
use threadx_rust.App.Payload.{Event, event_bytes}
use threadx_rust.App.Returns.{Serves}
use threadx_rust.App.Screen.{send_next, printing_turn}
use threadx_rust.App.Shown.{Contract, Shown}
use threadx_rust.App.Startup.{ScreenApi, print_text}
use threadx_rust.Executor.{Executor, ExecutorApi, World, on_kernel}
use threadx_rust.Executor.Contract.{KernelContract}
use threadx_rust.Queue.{QueueApi, QueueReceiver}
use threadx_rust.Thread.{ThreadApi}
use threadx_rust.Uprotocol.Transport.{MqttApi}

-- As many turns of the loop of `do_network` as there are entries in `meanwhile`, which says what the
-- other threads do during the sleep at the end of each turn.
unfoldable pub printing_loop :
    {Display K : Type 0} (os : ExecutorApi K) (threads : ThreadApi K) (queues : QueueApi K Event)
    (client : MqttApi K) (screen : ScreenApi Display K) (ticks_per_second : ℕ)
    (others : World K → World K)
    → Executor
    → QueueReceiver
    → (meanwhile : List (World K → World K)) → Display
    → Prog (World K) Never Display
unfolding printing_turn
printing_loop os threads queues client screen ticks_per_second others executor recv [] d = pure d
printing_loop os threads queues client screen ticks_per_second others executor recv (o ∷ meanwhile)
      d =
    printing_turn os threads queues client screen ticks_per_second others executor recv d
    >>= λ d' w.
        printing_loop os threads queues client screen ticks_per_second others executor recv
          meanwhile d' (o w)

-- A display that is drawn on and flushed without an error, which touches neither the queue nor the
-- payloads.
pub record Draws {Display K : Type 0} {os : ExecutorApi K} {threads : ThreadApi K}
    {queues : QueueApi K Event} {client : MqttApi K} {queue_ptr : ℕ}
    (c : Contract os threads queues client queue_ptr) (screen : ScreenApi Display K) : Type 0 where
  pub draws : (text : String) (d : Display) → (screen.draw text d).0 ≡ true
  pub flushes : (d : Display) (k : K) → (screen.flush d k).0 ≡ true
  pub still : (d : Display) (k : K) → c.shown (screen.flush d k).2 ≡ c.shown k

-- During each sleep the other threads leave the slots of the executor and the payloads as they are
-- and append these events to the queue.
abbrev pub Supplied :
    {K : Type 0} {os : ExecutorApi K} {threads : ThreadApi K} {queues : QueueApi K Event}
    {client : MqttApi K} {queue_ptr : ℕ}
    → Contract os threads queues client queue_ptr
    → List (World K → World K)
    → List (List Event)
    → Type 0
Supplied c [] [] = Unit
Supplied {K = K} c (o ∷ meanwhile) (b ∷ batches) =
    ((w : World K)
      → ((o w).signals ≡ w.signals)
        × (c.shown (o w).kernel ≡ ((c.shown w.kernel).0 ++ b, (c.shown w.kernel).1)))
    × Supplied c meanwhile batches
Supplied c [] (b ∷ batches) = Never
Supplied c (o ∷ meanwhile) [] = Never

abbrev pub concat : List (List Event) → List Event
concat [] = []
concat (b ∷ batches) = b ++ concat batches

-- From the queue and payloads `x` to `y` in so many turns, when so many events arrive meanwhile:
-- the events that have been published are the first of those that were in the queue or have
-- arrived, in their order, and the others are in the queue; each turn has published one, or all
-- that were in the queue before have been published.
abbrev pub Delivered : (turns : ℕ) (arrived : List Event) → Shown → Shown → Type 0
Delivered turns arrived x y =
    (published : List Event) × (y.1 ≡ x.1 ++ map event_bytes published)
    × (x.0 ++ arrived ≡ published ++ y.0)
    × ((turns ≤ length published) ⊎ (length x.0 ≤ length published))

module _ {Display K : Type 0} {os : ExecutorApi K} {threads : ThreadApi K}
    {queues : QueueApi K Event} {client : MqttApi K} {queue_ptr : ℕ}
    {c : Contract os threads queues client queue_ptr} {screen : ScreenApi Display K}
    (draws : Draws c screen) (kernel : KernelContract os) (s : Serves threads client)
    (ticks_per_second : ℕ) (others : World K → World K) (executor : Executor) where
  abbrev recv : QueueReceiver
  recv = record { receiver_ptr = queue_ptr }

  abbrev sending : Prog (World K) Never (Unit {0})
  sending = send_next os threads queues client screen ticks_per_second others executor recv

  abbrev showing : Bool → Display → Prog (World K) Never Display
  showing connected d =
      if connected
      then (do shown ← on_kernel (print_text screen "WLAN(x)\nMQTT(x)" d); sending; pure shown)
      else on_kernel (print_text screen "WLAN(x)\nMQTT()" d)

  abbrev Did : Bool → Shown → Shown → Type 0
  Did = Turned c ticks_per_second others executor

  abbrev looping : List (World K → World K) → Display → Prog (World K) Never Display
  looping = printing_loop os threads queues client screen ticks_per_second others executor recv
