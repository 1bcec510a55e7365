-- ===== src/Queue/Fifo.antt =====
-- threadx-rs/src/queue.rs: what is sent is received, in order.
use threadx_rust.Error.Codes.{
  tx_checked_call_no_log-err, tx_checked_call-err, tx_checked_call_no_log-ok, tx_checked_call-ok,
}
use threadx_rust.Base.{
  length-append, err, ap, sym, refl, ◌∙◌, >>=-ok, arith, ok, pure, ◌≤◌, ◌<◌, Prog, ℕ, zero, suc,
  ◌+◌, ◌≡◌, List, [], ◌∷◌, ◌++◌, length, ◌>>=◌, ◌>>◌,
}
use mathlib.Core.List.{append-nil, append_assoc}
use threadx_rust.Sys
use threadx_rust.Call.{tx_checked_call_no_log, tx_checked_call, wait_code, no_wait}
use threadx_rust.Error.{discriminant, TxError, queue_empty, queue_full}
use threadx_rust.Queue.{QueueApi, send, receive}

-- What ThreadX documents of a queue, for calls that do not wait: `view` are the messages in it. A
-- send appends a message if there is room, a receive takes the first one.
pub record Contract {K T : Type 0} (os : QueueApi K T) (queue_ptr : ℕ) : Type 0 where
  pub view : K → List T
  pub capacity : ℕ
  pub send_room :
      (k : K) (m : T)
      → length (view k) < capacity
      → ((os.tx_queue_send queue_ptr m Sys.tx_no_wait k).0 ≡ Sys.tx_success)
        × (view (os.tx_queue_send queue_ptr m Sys.tx_no_wait k).2 ≡ view k ++ m ∷ [])
  pub send_no_room :
      (k : K) (m : T)
      → length (view k) ≡ capacity
      → (os.tx_queue_send queue_ptr m Sys.tx_no_wait k).0 ≡ Sys.tx_queue_full
  pub receive_first :
      (k : K) {m : T} {l : List T}
      → view k ≡ m ∷ l
      → ((os.tx_queue_receive queue_ptr Sys.tx_no_wait k).0 ≡ Sys.tx_success)
        × ((os.tx_queue_receive queue_ptr Sys.tx_no_wait k).1 ≡ m)
        × (view (os.tx_queue_receive queue_ptr Sys.tx_no_wait k).2 ≡ l)
  pub receive_none :
      (k : K)
      → view k ≡ []
      → (os.tx_queue_receive queue_ptr Sys.tx_no_wait k).0 ≡ Sys.tx_queue_empty

module _ {K T : Type 0} (os : QueueApi K T) (queue_ptr : ℕ) where
  -- Sends these messages, up to the first failure.
  pub send_all : List T → Prog K TxError (Unit {0})
  send_all [] = pure tt
  send_all (m ∷ ms) =
      let rest = send_all ms in send os (record { sender_ptr = queue_ptr }) m no_wait >> rest

  -- Receives that many messages.
  pub receive_all : ℕ → Prog K TxError (List T)
  receive_all zero = pure []
  receive_all (suc n) =
      let rest = receive_all n in
      receive os (record { receiver_ptr = queue_ptr }) no_wait >>= λ m.
      (rest >>= λ ms. pure (m ∷ ms))

module _ {K T : Type 0} {os : QueueApi K T} {queue_ptr : ℕ} (c : Contract os queue_ptr) where
  send_all-view :
      (ms : List T) (k : K)
      → length (c.view k) + length ms ≤ c.capacity
      → (k' : K) × (send_all os queue_ptr ms k ≡ (ok tt, k')) × (c.view k' ≡ c.view k ++ ms)
  unfolding send_all send wait_code
  send_all-view [] k h = (k, refl, sym (append-nil (c.view k)))
  send_all-view (m ∷ ms) k h =
      let call = os.tx_queue_send queue_ptr m Sys.tx_no_wait in
      let (done, added) = c.send_room k m (omega arith) in
      let room : length (c.view (call k).2) + length ms ≤ c.capacity =
        omega (arith, ap length added, length-append (c.view k) (m ∷ [])) in
      let (k', p, q) = send_all-view ms (call k).2 room in
      (
        k',
        >>=-ok (tx_checked_call call) (λ _. send_all os queue_ptr ms)
              (tx_checked_call-ok call k done)
            ∙ p,
        q ∙ rw added (append_assoc (c.view k) (m ∷ []) ms),
      )

  receive_all-view :
      (l : List T) (k : K)
      → c.view k ≡ l
      → (k' : K) × (receive_all os queue_ptr (length l) k ≡ (ok l, k')) × (c.view k' ≡ [])
  unfolding receive_all receive wait_code
  receive_all-view [] k h = (k, refl, h)
  receive_all-view (m ∷ l) k h =
      let call = os.tx_queue_receive queue_ptr Sys.tx_no_wait in
      let (done, first, left) = c.receive_first k h in
      let (k', p, q) = receive_all-view l (call k).2 left in
      let rest = receive_all os queue_ptr (length l) in
      (
        k',
        >>=-ok (tx_checked_call_no_log call) (λ x. (rest >>= λ ms. pure (x ∷ ms)))
              (tx_checked_call_no_log-ok call k done)
            ∙ >>=-ok rest (λ ms. pure ((call k).1 ∷ ms)) p
            ∙ ap (λ x. (ok (x ∷ l), k')) first,
        q,
      )

  -- On a queue as ThreadX documents it that is empty, messages that fit into it are all sent
  -- without waiting; as many receives give them back in the order in which they were sent, and
  -- leave the queue empty.
  pub sent_is_received :
      (ms : List T) (k : K)
      → c.view k ≡ []
      → length ms ≤ c.capacity
      → (k' : K) × (send_all os queue_ptr ms k ≡ (ok tt, k'))
        × ((k'' : K) × (receive_all os queue_ptr (length ms) k' ≡ (ok ms, k'')) × (c.view k'' ≡ []))
  sent_is_received ms k h fits =
      let (k', p, q) = send_all-view ms k (omega (arith, ap length h, fits)) in
      (k', p, receive_all-view ms k' (q ∙ rw h refl))

  -- On a queue as documented, a send to a full queue that does not wait fails with `QueueFull`.
  pub send_full :
      (k : K) (m : T)
      → length (c.view k) ≡ c.capacity
      → (send os (record { sender_ptr = queue_ptr }) m no_wait k).0 ≡ err queue_full
  unfolding send wait_code discriminant
  send_full k m h =
      ap (λ x. x.0)
        (tx_checked_call-err (os.tx_queue_send queue_ptr m Sys.tx_no_wait) k {e = queue_full}
          (c.send_no_room k m h))

  -- On a queue as documented, a receive from an empty queue that does not wait fails with
  -- `QueueEmpty`.
  pub receive_empty :
      (k : K)
      → c.view k ≡ []
      → (receive os (record { receiver_ptr = queue_ptr }) no_wait k).0 ≡ err queue_empty
  unfolding receive wait_code discriminant
  receive_empty k h =
      ap (λ x. x.0)
        (tx_checked_call_no_log-err (os.tx_queue_receive queue_ptr Sys.tx_no_wait) k
          {e = queue_empty} (c.receive_none k h))
