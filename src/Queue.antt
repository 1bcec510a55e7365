-- ===== src/Queue.antt =====
-- threadx-rs/src/queue.rs: message queues.
pub mod Fifo
pub mod Size
mod Tests
use threadx_rust.Base.{
  ℕ, ◌*◌, Bool, Option, none, some, Prog, pure, ◌>>=◌, ◌>>◌, leb, ◌&&◌, if◌then◌else◌,
}
use threadx_rust.Error.{TxError}
use threadx_rust.Call.{KernelCall, tx_checked_call, tx_checked_call_no_log, WaitOption, wait_code}
use threadx_rust.Boxed.{Slice, as_ulong}

-- The calls of the kernel on a queue of messages of type `T`. A receive copies a message to the
-- caller.
pub record QueueApi (K T : Type 0) : Type 0 where
  pub tx_queue_create :
      (queue_ptr name message_size queue_start queue_size : ℕ) → KernelCall K (Unit {0})
  pub tx_queue_send : (queue_ptr : ℕ) → T → (wait_option : ℕ) → KernelCall K (Unit {0})
  pub tx_queue_receive : (queue_ptr wait_option : ℕ) → KernelCall K T

-- `SIZE_OK`, for messages of this many bytes.
unfoldable pub size_ok : (size_of : ℕ) → Bool
size_ok size_of = leb 4 size_of && leb size_of (4 * 16)

-- `Queue::new` compiles only if `SIZE_OK` holds; the queue is given by the address of its control
-- block.
unfoldable pub new : (size_of queue_ptr : ℕ) → Option ℕ
unfolding size_ok
new size_of queue_ptr = if size_ok size_of then some queue_ptr else none

pub record QueueSender : Type 0 where
  pub sender_ptr : ℕ

pub record QueueReceiver : Type 0 where
  pub receiver_ptr : ℕ

module _ {K T : Type 0} (os : QueueApi K T) where
  unfoldable pub initialize :
      (size_of queue_ptr name : ℕ) (queue_memory : Slice)
      → Prog K TxError (QueueSender × QueueReceiver)
  unfolding tx_checked_call
  initialize size_of queue_ptr name queue_memory = do
    tx_checked_call (
        os.tx_queue_create queue_ptr name (as_ulong size_of) queue_memory.ptr
          (as_ulong queue_memory.len))
    pure (record { sender_ptr = queue_ptr }, record { receiver_ptr = queue_ptr })

  unfoldable pub send : QueueSender → T → WaitOption → Prog K TxError (Unit {0})
  send s message wait = tx_checked_call (os.tx_queue_send s.sender_ptr message (wait_code wait))

  unfoldable pub receive : QueueReceiver → WaitOption → Prog K TxError T
  receive r wait = tx_checked_call_no_log (os.tx_queue_receive r.receiver_ptr (wait_code wait))
