-- ===== src/Queue/Size.antt =====
-- threadx-rs/src/queue.rs: the message size that the kernel is told.
use threadx_rust.Sys
use threadx_rust.Queue.{Slice, initialize, QueueApi, new}
use threadx_rust.Base.{◌⊎◌, ◌≤◌, refl, ◌<◌, ◌∷◌, [], some, List, ◌*◌, ℕ, ◌≡◌, arith}

-- A kernel that only notes the message size of the queues it creates.
abbrev pub noting : {T : Type 0} → T → QueueApi (List ℕ) T
noting t = record {
  tx_queue_create = λ q n size start len log. (Sys.tx_success, tt, size ∷ log);
  tx_queue_send = λ q m w log. (Sys.tx_success, tt, log);
  tx_queue_receive = λ q w log. (Sys.tx_success, t, log);
}

-- The bytes in one message of the kernel: its size is in words of 32 bits.
abbrev pub message_bytes : ℕ → ℕ
message_bytes message_size = 4 * message_size

-- For every type that `new` accepts, the kernel is told a message size under which it copies four
-- times as many bytes as a message has; and from 17 bytes on, that size is above the 16 words that
-- it supports.
pub message_size_too_large :
    {T : Type 0} (t : T) (size_of queue_ptr name : ℕ) (mem : Slice)
    → new size_of queue_ptr ≡ some queue_ptr
    → let log = (initialize (noting t) size_of queue_ptr name mem []).1 in
      (message_size : ℕ) × (log ≡ message_size ∷ [])
      × (message_bytes message_size ≡ 4 * size_of)
      × (size_of < message_bytes message_size)
      × ((size_of ≤ 16) ⊎ (16 < message_size))
unfolding new initialize
message_size_too_large t size_of queue_ptr name mem h =
    (size_of, ground arith, refl, ground arith, ground arith)
