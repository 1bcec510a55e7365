-- ===== src/Queue/Tests.antt =====
-- threadx-rs/src/queue.rs: a queue of two messages.
use threadx_rust.Base.{◌++◌, ltb, if◌then◌else◌, length, ok, arith, ℕ, ◌≡◌, refl, List, [], ◌∷◌}
use threadx_rust.Sys
use threadx_rust.Queue.{QueueApi}
use threadx_rust.Queue.Fifo.{Contract, send_all, receive_all, sent_is_received}

abbrev take_first : List ℕ → ℕ × ℕ × List ℕ
take_first [] = (Sys.tx_queue_empty, 0, [])
take_first (m ∷ l) = (Sys.tx_success, m, l)

abbrev os : QueueApi (List ℕ) ℕ
os = record {
  tx_queue_create = λ q n s start len k. (0, tt, []);
  tx_queue_send = λ q m w k.
      if ltb (length k) 2 then (Sys.tx_success, tt, k ++ m ∷ []) else (Sys.tx_queue_full, tt, k);
  tx_queue_receive = λ q w k. take_first k;
}

contract : Contract os 100
contract = record {
  view = λ k. k;
  capacity = 2;
  send_room = λ k m h. ground arith;
  send_no_room = λ k m h. ground arith;
  receive_first = λ k h. rw (h, take_first) (refl, refl, refl);
  receive_none = λ k h. rw (h, take_first) refl;
}

sent_is_received_example :
    (k' : List ℕ) × (send_all os 100 (7 ∷ 8 ∷ []) [] ≡ (ok tt, k'))
    × ((k'' : List ℕ) × (receive_all os 100 2 k' ≡ (ok (7 ∷ 8 ∷ []), k''))
        × (contract.view k'' ≡ []))
unfolding contract
sent_is_received_example = sent_is_received contract (7 ∷ 8 ∷ []) [] refl (omega arith)
