-- ===== src/App/Returns.antt =====
-- threadx-app/cross/app/src/bin/network.rs: a turn of do_network returns.
use threadx_rust.Error.Codes.{tx_checked_call-ok}
use threadx_rust.Time.Rounding.{ticks-some}
use threadx_rust.Executor.Effects.{on_kernel-ok}
use threadx_rust.Executor.{position_unused}
use threadx_rust.Call.{wait_code, tx_checked_call_no_log}
use threadx_rust.Executor.Contract.{KernelContract}
use threadx_rust.Time.{as_millis, millis_per_tick}
use threadx_rust.Sys
use Prim.Native.String.{String}
use threadx_rust.Thread.{ThreadApi, sleep}
use threadx_rust.Uprotocol.{UMessage}
use threadx_rust.Uprotocol.Transport
use threadx_rust.Uprotocol.Transport.{
  MqttApi, MqttError, poll, is_connected, payload_bytes, user_properties,
}
use threadx_rust.Queue.{receive}
use threadx_rust.Executor.{World, ExecutorApi, on_kernel}
use threadx_rust.Time.{Duration, from_millis}
use threadx_rust.App.{send_future, attempt, forward, network_turn}
use threadx_rust.App.Payload.{Event, event_bytes}
use threadx_rust.Call.{no_wait}
use threadx_rust.Queue.{QueueApi, QueueReceiver}
use threadx_rust.Executor.{block_on, Executor, ready, empty}
use threadx_rust.Executor.Completion.{block_on-ready}
use threadx_rust.Executor.Effects.{passed}
use threadx_rust.Base.{
  false, if◌then◌else◌, then-Runs, Bool, next-Runs, set, ◌==◌, ◌^◌, ◌%◌, ◌/◌, Runs, List, ℕ, ◌≡◌,
  ◌≢◌, ◌<◌, inl, inr, refl, true, Option, none, some, Never, Prog, ok, pure, unwrap, arith, ◌>>=◌,
  >>=-ok, unwrap-ok, Bool-cases,
}

-- What makes a turn return: the client has no error that `poll` does not expect and publishes what
-- it is given, and a sleep succeeds.
pub record Serves {K : Type 0} (threads : ThreadApi K) (client : MqttApi K) : Type 0 where
  pub no_error : (k : K) → (client.poll_client k).0 ≢ some MqttError.other
  pub accepts :
      (topic : String) (payload : List ℕ) (properties : List (String × String)) (k : K)
      → (client.publish topic payload properties k).0 ≡ true
  pub sleeps : (n : ℕ) (k : K) → (threads.tx_thread_sleep n k).0 ≡ Sys.tx_success

module _ {K : Type 0} {threads : ThreadApi K} {client : MqttApi K} (s : Serves threads client) where
  pub polls : (k : K) → (k' : K) × (poll client {E = Never} k ≡ (ok tt, k'))
  unfolding poll
  polls k = ((client.poll_client k).1, ground (arith, s.no_error k))

  sends :
      (m : UMessage) (k : K) → (k' : K) × (attempt (Transport.send client m) k ≡ (ok (some tt), k'))
  unfolding Transport.send
  sends m k =
      let p = payload_bytes m in
      let ok_sent = s.accepts "Vehicle_B/000A/0/2/800A" p user_properties k in
      ((client.publish "Vehicle_B/000A/0/2/800A" p user_properties k).1, ground arith)

  pub rests :
      (ticks_per_second : ℕ) (d : Duration)
      → 0 < millis_per_tick ticks_per_second
      → (k : K) → (k' : K) × (unwrap {F = Never} (sleep threads ticks_per_second d) k ≡ (ok tt, k'))
  unfolding sleep
  rests ticks_per_second d h k =
      let n = as_millis d / millis_per_tick ticks_per_second % 2 ^ 32 in
      (
        (threads.tx_thread_sleep n k).2,
        unwrap-ok (sleep threads ticks_per_second d) (
            rw (ticks-some ticks_per_second d h)
              (tx_checked_call-ok (threads.tx_thread_sleep n) k (s.sleeps n k))),
      )

-- A receive that may fail is no panic.
receives :
    {K : Type 0} (queues : QueueApi K Event) (recv : QueueReceiver) (k : K)
    → (o : Option Event) × (k' : K) × (attempt (receive queues recv no_wait) k ≡ (ok o, k'))
unfolding receive tx_checked_call_no_log wait_code
receives queues recv k =
    let (ret, e, k') = queues.tx_queue_receive recv.receiver_ptr Sys.tx_no_wait k in
    elim (Bool-cases (ret == Sys.tx_success)) [
      | inl got ↦ (some e, k', ground arith)
      | inr missed ↦ (none, k', ground arith)
    ]

-- A program on the kernel that always returns keeps what does not depend on the kernel.
pub on_kernel-Runs :
    {K A : Type 0} {P : World K → Type 0} {p : Prog K Never A}
    → ((w : World K) (k : K) → P w → P (record w { kernel = k }))
    → ((k : K) → (a : A) × (k' : K) × (p k ≡ (ok a, k')))
    → Runs P P (on_kernel p)
on_kernel-Runs {K} {A} {P} {p} same h = record {
  runs = λ w x.
      let (a, k', e) = h w.kernel in (a, record w { kernel = k' }, on_kernel-ok p w e, same w k' x);
}

module _ {K : Type 0} {os : ExecutorApi K} (c : KernelContract os) (i : ℕ) where
  -- The slot that the next `block_on` takes.
  abbrev pub Free : World K → Type 0
  Free w = position_unused w.signals ≡ some i

  module _ {threads : ThreadApi K} {client : MqttApi K} (s : Serves threads client)
      (others : World K → World K) (executor : Executor) where
    -- The slot is claimed, the first poll publishes, and the slot is given back.
    sent_by_block_on :
        (message : UMessage) (w : World K)
        → Free w
        → (w' : World K) × (block_on os (send_future client) others 1 executor message w
            ≡ (ok (some (some tt)), w'))
          × Free w'
    unfolding send_future
    sent_by_block_on message w free =
        let w1 : World K = record w {
          signals = set w.signals i empty;
          kernel = passed c w.kernel;
        } in
        let (k, p) = sends s message w1.kernel in
        let sending : Prog (World K) Never (Option (Unit {0})) =
          on_kernel (attempt (Transport.send client message)) in
        (
          record w { kernel = passed c k },
          block_on-ready c (send_future client) others executor message (some tt) w free (
              >>=-ok sending (λ r. pure (ready r))
                (on_kernel-ok (attempt (Transport.send client message)) w1 p)),
          free,
        )

    forward-Runs :
        (queues : QueueApi K Event) (ticks_per_second : ℕ) (e : Event)
        → Runs Free Free (forward os threads queues client ticks_per_second others executor e)
    unfolding forward
    forward-Runs queues ticks_per_second e = record {
      runs = λ w free.
          let m : UMessage = record { attributes = none; payload = some (event_bytes e) } in
          let (w', p, free') = sent_by_block_on m w free in
          (
            tt,
            w',
            >>=-ok (block_on os (send_future client) others 1 executor m) (λ _. pure tt) p,
            free',
          );
    }

    module _ (queues : QueueApi K Event) (recv : QueueReceiver) (ticks_per_second : ℕ) where
      handled-Runs :
          (evt : Option Event)
          → Runs {A = Unit {0}} Free Free (elim evt [
            | none ↦ pure tt
            | some e ↦ forward os threads queues client ticks_per_second others executor e
          ])
      handled-Runs none = record { runs = λ w free. (tt, w, refl, free) }
      handled-Runs (some e) = forward-Runs queues ticks_per_second e

      pub branch-Runs :
          (connected : Bool)
          → Runs {A = Unit {0}} Free Free (
              if connected
              then (on_kernel (attempt (receive queues recv no_wait)) >>= λ evt. elim evt [
                | none ↦ pure tt
                | some e ↦ forward os threads queues client ticks_per_second others executor e
              ])
              else pure tt)
      branch-Runs true =
          then-Runs (on_kernel-Runs (λ w k x. x) (receives queues recv)) (λ evt. handled-Runs evt)
      branch-Runs false = record { runs = λ w free. (tt, w, refl, free) }

      pub turn-Runs :
          0 < millis_per_tick ticks_per_second
          → Runs Free Free
              (network_turn os threads queues client ticks_per_second others executor recv)
      unfolding network_turn is_connected
      turn-Runs h =
          next-Runs
            (on_kernel-Runs {P = Free} (λ w k x. x) (λ k. let (k', e) = polls s k in (tt, k', e)))
            (then-Runs
              (on_kernel-Runs {P = Free} (λ w k x. x)
                (λ k. let (b, k') = client.client_is_connected k in (b, k', refl)))
              (λ connected. next-Runs (branch-Runs connected) (
                on_kernel-Runs {P = Free} (λ w k x. x)
                  (λ k.
                    let (k', e) = rests s ticks_per_second (from_millis 1000) h k in (tt, k', e)))))
