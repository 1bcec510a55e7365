-- ===== src/Demos/Tests.antt =====
-- threadx-app/cross/app/src/bin: the demo of the queue on a kernel that is the queue.
use threadx_rust.Sys
use threadx_rust.Call.{tx_checked_call, tx_checked_call_no_log}
use threadx_rust.Base.{ℕ, ◌≡◌, ◌%◌, ◌^◌, true, List, [], ◌∷◌, ◌++◌, refl, arith}
use threadx_rust.Thread.{ThreadApi}
use threadx_rust.Queue.{QueueApi}
use threadx_rust.Demos.Queue.{receive_turn, send_count, Event, info, rx_info}
use threadx_rust.Demos.InOrder
use threadx_rust.Demos.InOrder.{printed_in_order}

abbrev threads : {K : Type 0} → ThreadApi K
threads = record {
  tx_thread_create = λ c k. (0, tt, k);
  tx_thread_resume = λ p k. (0, tt, k);
  tx_thread_suspend = λ p k. (0, tt, k);
  tx_thread_delete = λ p k. (0, tt, k);
  tx_thread_sleep = λ n k. (0, tt, k);
  tx_thread_name = λ p k. 0;
  copy_tx_struct = λ p q k. k;
}

-- A receive from the empty queue gives up.
abbrev take : List Event → ℕ × Event × List Event
take [] = (Sys.tx_queue_empty, info 0, [])
take (m ∷ l) = (0, m, l)

abbrev queues : QueueApi (List Event) Event
queues = record {
  tx_queue_create = λ p n m s z k. (0, tt, k);
  tx_queue_send = λ p m w k. (0, tt, k ++ m ∷ []);
  tx_queue_receive = λ p w k. take k;
}

queue_contract : InOrder.Contract queues threads 7
queue_contract = record {
  view = λ k. k;
  sent = λ k m e. refl;
  received = received;
  slept = λ n k. refl;
}
  where
    received :
        (k : List Event) → (take k).0 ≡ Sys.tx_success → let (ret, m, k') = take k in k ≡ m ∷ k'
    received [] h = absurd (ground arith)
    received (m ∷ l) h = refl

abbrev start : InOrder.System (List Event)
start = record { kernel = []; count = 1; printed = [] }

-- Two sends and two receives, on 1000 ticks a second, with overflow checks.
two_each :
    InOrder.Reach queues threads 1000 7 true start
      (record { kernel = []; count = 3; printed = rx_info 1 ∷ rx_info 2 ∷ [] })
unfolding send_count receive_turn tx_checked_call tx_checked_call_no_log
two_each =
    InOrder.next
      (InOrder.next
        (InOrder.next (InOrder.next InOrder.here (InOrder.sends refl)) (InOrder.sends refl))
        (InOrder.receives refl))
      (InOrder.receives refl)

empty_queue : queue_contract.view [] ≡ []
unfolding queue_contract
empty_queue = refl

printed_in_order_example : rx_info 2 ≡ rx_info (2 % 2 ^ 32)
printed_in_order_example = printed_in_order queue_contract 1000 true empty_queue two_each 1 refl
