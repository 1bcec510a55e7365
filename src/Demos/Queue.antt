-- ===== src/Demos/Queue.antt =====
-- threadx-app/cross/app/src/bin/queue.rs: a thread that sends numbers and one that receives them.
use threadx_rust.Base.{ℕ, Bool, Prog, Never, pure, unwrap, unwrap_option, ◌>>=◌, ◌>>◌}
use threadx_rust.Call.{wait_forever}
use threadx_rust.Time.{from_millis}
use threadx_rust.Thread.{ThreadApi, sleep}
use threadx_rust.Queue.{QueueApi, QueueSender, QueueReceiver, send, receive}
use threadx_rust.Allocator.{add_usize}

-- `Event` of queue.rs.
pub data Event : Type 0 where
  event : Event
  info : ℕ → Event

-- What the second thread prints.
pub data Line : Type 0 where
  rx_event : Line
  rx_info : ℕ → Line

unfoldable pub print_event : Event → Line
print_event event = rx_event
print_event (info n) = rx_info n

-- `sleep(Duration::from_millis(1000))`
unfoldable pub rest_second :
    {K : Type 0} → ThreadApi K → (ticks_per_second : ℕ) → Prog K Never (Unit {0})
unfolding sleep
rest_second threads ticks_per_second = unwrap (sleep threads ticks_per_second (from_millis 1000))

module _ {K : Type 0} (queues : QueueApi K Event) where
  -- The first thread up to its sleep, with `count` before and after. `count` is a `u32`.
  unfoldable pub send_count : (checks : Bool) → QueueSender → (count : ℕ) → Prog K Never ℕ
  unfolding send add_usize
  send_count checks sender count = do
    unwrap (send queues sender (info count) wait_forever)
    unwrap_option (add_usize checks count 1)

  -- One turn of the loop of the first thread, and of the second.
  unfoldable pub send_turn :
      ThreadApi K
      → (ticks_per_second : ℕ) (checks : Bool) → QueueSender
      → (count : ℕ) → Prog K Never ℕ
  unfolding send_count rest_second
  send_turn threads ticks_per_second checks sender count = do
    count ← send_count checks sender count
    rest_second threads ticks_per_second
    pure count

  unfoldable pub receive_turn : QueueReceiver → Prog K Never Line
  unfolding receive print_event
  receive_turn receiver = do
    msg ← unwrap (receive queues receiver wait_forever)
    pure (print_event msg)
