-- ===== src/App/TurnTests.antt =====
-- threadx-app/cross/app/src/bin/network.rs: a turn on a kernel that is the flags, the queue
-- and the payloads.
use threadx_rust.Sys
use threadx_rust.Base.{
  false, Bool, some, ◌&&◌, ◌||◌, not, ℕ, ◌≡◌, ◌≢◌, true, none, [], ◌∷◌, ◌++◌, replicate, refl, ok,
  arith,
}
use threadx_rust.Thread.{ThreadApi, sleep}
use threadx_rust.Call.{tx_checked_call, tx_checked_call_no_log}
use threadx_rust.Queue.{QueueApi, receive}
use threadx_rust.Executor.{
  block_on, lock_signals, unlock_signals, position_unused, ExecutorApi, World, Executor, unused,
}
use threadx_rust.Uprotocol.Transport.{MqttApi, poll, is_connected, send}
use threadx_rust.App.Payload.{Event, temperature_measurement, pos, event_bytes}
use threadx_rust.App.{network_turn, forward, send_future}
use threadx_rust.App.Shown.{Shown, Contract}
use threadx_rust.App.Returns.{Serves}
use threadx_rust.Executor.Contract.{KernelContract}
use threadx_rust.EventFlags.Bits.{has_bit}

abbrev pub Kernel : Type 0
Kernel = (ℕ → Bool) × Shown

abbrev pub os : ExecutorApi Kernel
os = record {
  mutexes = record {
    tx_mutex_create = λ p n i k. (0, tt, k);
    tx_mutex_get = λ p w k. (0, tt, k);
    tx_mutex_put = λ p k. (0, tt, k);
    tx_mutex_delete = λ p k. (0, tt, k);
  };
  flags = record {
    tx_event_flags_create = λ p n k. (0, tt, k);
    tx_event_flags_set = λ p f o k. (0, tt, (λ i. k.0 i || has_bit f i, k.1));
    tx_event_flags_get = λ p f o w k. (0, f, (λ i. k.0 i && not (has_bit f i), k.1));
  };
  mutex_s = 100;
  executor_event = 200;
  signal_mtx_name = 300;
  executor_group_name = 400;
}

pub kernel_contract : KernelContract os
kernel_contract = record {
  bit = λ k. k.0;
  mutex_get_ok = λ k. refl;
  bit-mutex_get = λ k i. refl;
  bit-mutex_put = λ k i. refl;
  flags_set_ok = λ f k. refl;
  bit-flags_set = λ f k i. refl;
  flags_get_ok = λ f k a. refl;
  bit-flags_get = λ f k a i. refl;
}

abbrev pub threads : ThreadApi Kernel
threads = record {
  tx_thread_create = λ c k. (0, tt, k);
  tx_thread_resume = λ p k. (0, tt, k);
  tx_thread_suspend = λ p k. (0, tt, k);
  tx_thread_delete = λ p k. (0, tt, k);
  tx_thread_sleep = λ n k. (0, tt, k);
  tx_thread_name = λ p k. 0;
  copy_tx_struct = λ p q k. k;
}

abbrev pub take : Kernel → ℕ × Event × Kernel
take (f, ([], l)) = (Sys.tx_queue_empty, temperature_measurement (pos 0), (f, ([], l)))
take (f, (e ∷ es, l)) = (0, e, (f, (es, l)))

abbrev pub queues : QueueApi Kernel Event
queues = record {
  tx_queue_create = λ p n m s z k. (0, tt, k);
  tx_queue_send = λ p m w k. (0, tt, (k.0, (k.1.0 ++ m ∷ [], k.1.1)));
  tx_queue_receive = λ p w k. take k;
}

abbrev pub client : MqttApi Kernel
client = record {
  poll_client = λ k. (none, k);
  client_is_connected = λ k. (true, k);
  publish = λ t payload p k. (true, (k.0, (k.1.0, k.1.1 ++ payload ∷ [])));
}

pub received :
    (k : Kernel)
    → let (ret, e, k') = take k in ret ≡ Sys.tx_success → (k.1.0 ≡ e ∷ k'.1.0) × (k'.1.1 ≡ k.1.1)
received (f, ([], l)) h = absurd (ground arith)
received (f, (e ∷ es, l)) h = (refl, refl)

pub not_received :
    (k : Kernel) → let (ret, _, k') = take k in ret ≢ Sys.tx_success → (k.1.0 ≡ []) × (k'.1 ≡ k.1)
not_received (f, ([], l)) h = (refl, refl)
not_received (f, (e ∷ es, l)) h = absurd (h refl)

abbrev pub contract : Contract os threads queues client 7
contract = record {
  shown = λ k. k.1;
  received = received;
  not_received = not_received;
  published = λ t payload p k e. refl;
  polled = λ k. refl;
  asked = λ k. refl;
  locked = λ m w k. refl;
  unlocked = λ m k. refl;
  slept = λ n k. refl;
}

pub serves : Serves threads client
serves = record {
  no_error = λ k e. absurd (ground arith);
  accepts = λ t payload p k. refl;
  sleeps = λ n k. refl;
}

abbrev pub measured : Event
measured = temperature_measurement (pos 205)

-- One event waits in the queue; behind the turn it is published.
abbrev pub before : World Kernel
before = record {
  signals = replicate 31 unused;
  event_taken = true;
  initialized = true;
  kernel = (λ i. false, (measured ∷ [], []));
}

abbrev pub behind : World Kernel
behind = record before { kernel = (λ i. false, ([], event_bytes measured ∷ [])) }

abbrev pub executor : Executor
executor = record { event_handle = record { flag_group_ptr = 200 } }

pub first_free : position_unused before.signals ≡ some 0
unfolding position_unused
first_free = refl

pub turn :
    network_turn os threads queues client 100 (λ w. w) executor (record { receiver_ptr = 7 }) before
    ≡ (ok tt, behind)
unfolding network_turn forward send_future block_on lock_signals unlock_signals position_unused poll
    is_connected send receive sleep tx_checked_call tx_checked_call_no_log
turn = refl
