-- ===== src/App/InTransit.antt =====
-- threadx-app/cross/app/src/bin/network.rs: no measurement is lost, repeated or out of order.
use threadx_rust.App.Pipeline.{
  here, next, Reach, elsewhere, rested, sent, taken, missed, asked, polled, measure, Step, System,
}
use threadx_rust.App.{
  Prog, event_bytes, Executor, World, Duration, ignore, unwrap_option, QueueSender,
  temperature_measurement, measure_turn,
}
use threadx_rust.EventFlags.{EventFlagsApi}
use threadx_rust.App.Shown.{poll-shown, Shown, Contract}
use threadx_rust.Uprotocol.Transport.{MqttApi}
use threadx_rust.App.Payload.{ℤ, Event}
use threadx_rust.Queue.{QueueApi}
use threadx_rust.Thread.{ThreadApi}
use threadx_rust.Executor.{ExecutorApi}
use threadx_rust.Base.{
  unwrap-state, none, map, List, ℕ, ◌≡◌, ◌∙◌, refl, ap, sym, Option, some, [], ◌∷◌, ◌++◌, ok, Gives,
  next-Gives, then-Gives, catch-state, arith,
}
use mathlib.Core.List.{map-append, append_assoc}
use mathlib.Core.Path.{subst}
use threadx_rust.App.Delivery.{taking-Gives}
use threadx_rust.App.Sending.{forward-Gives}
use threadx_rust.Time.{from_millis, Duration}
use threadx_rust.Error.{TxError}
use threadx_rust.Sys
use threadx_rust.Uprotocol.Transport.{is_connected}
use threadx_rust.Queue.{send, QueueSender, QueueApi}
use threadx_rust.Call.{wait_forever, wait_code}
use threadx_rust.Thread.{sleep, ThreadApi}
use threadx_rust.Mutex.Static.{tx_checked_call-state}
use threadx_rust.App.{measure_turn, ignore}
use threadx_rust.App.Shown.{Contract, Shown, sleep-shown}

-- What the measuring thread relies on: a send that waits forever puts the event behind those in
-- the queue, and reading the sensor touches neither the queue nor the payloads.
pub record Supply {K : Type 0} {os : ExecutorApi K} {threads : ThreadApi K}
    {queues : QueueApi K Event} {client : MqttApi K} {queue_ptr : ℕ}
    (c : Contract os threads queues client queue_ptr) (temperature_x8 : K → Option ℤ × K)
    : Type 0 where
  pub accepted :
      (e : Event) (k : K)
      → c.shown (queues.tx_queue_send queue_ptr e Sys.tx_wait_forever k).2
        ≡ ((c.shown k).0 ++ e ∷ [], (c.shown k).1)
  pub sensed : (k : K) → c.shown (temperature_x8 k).1 ≡ c.shown k

module _ {K : Type 0} {os : ExecutorApi K} {threads : ThreadApi K} {queues : QueueApi K Event}
    {client : MqttApi K} {queue_ptr : ℕ} {c : Contract os threads queues client queue_ptr}
    {temperature_x8 : K → Option ℤ × K} (p : Supply c temperature_x8) (flags : EventFlagsApi K)
    (ticks_per_second : ℕ) where
  -- A turn of the measuring thread that returns has appended its measurement to the queue.
  measure-Gives :
      (x : Shown) (deg : ℤ)
      → Gives
          (λ k. (c.shown k ≡ x) × ((temperature_x8 k).0 ≡ some deg))
          (λ _ k. c.shown k ≡ (x.0 ++ temperature_measurement deg ∷ [], x.1))
          (measure_turn threads queues flags ticks_per_second temperature_x8
            (record { sender_ptr = queue_ptr }))
  unfolding measure_turn send wait_code
  measure-Gives x deg = then-Gives sensing (λ d. next-Gives (sending d) sleeping)
    where
      y : Shown
      y = (x.0 ++ temperature_measurement deg ∷ [], x.1)

      snd : QueueSender
      snd = record { sender_ptr = queue_ptr }

      sensing :
          Gives {K = K} {A = ℤ}
            (λ k. (c.shown k ≡ x) × ((temperature_x8 k).0 ≡ some deg))
            (λ d k. (c.shown k ≡ x) × (d ≡ deg))
            (λ k. let (t, k') = temperature_x8 k in unwrap_option t k')
      sensing = record { gives = λ k h e. ground (arith, p.sensed k) }

      sending :
          (d : ℤ)
          → Gives
              (λ k. (c.shown k ≡ x) × (d ≡ deg))
              (λ _ k. c.shown k ≡ y)
              (ignore (send queues snd (temperature_measurement d) wait_forever))
      sending d = record {
        gives = λ k h e.
            let m = send queues snd (temperature_measurement d) wait_forever in
            let call =
              queues.tx_queue_send queue_ptr (temperature_measurement d) Sys.tx_wait_forever in
            sym (ap (λ r. c.shown r.1) e)
            ∙ ap c.shown (catch-state m (λ _. ok tt) (λ _. ok tt) k ∙ tx_checked_call-state call k)
            ∙ p.accepted (temperature_measurement d) k
            ∙ rw (h.0, h.1) refl;
      }

      sleeping :
          Gives
            (λ k. c.shown k ≡ y)
            (λ _ k. c.shown k ≡ y)
            (ignore (sleep threads ticks_per_second (record { secs = 5; nanos = 0 })))
      sleeping = record {
        gives = λ k h e.
            let five : Duration = record { secs = 5; nanos = 0 } in
            sym (ap (λ r. c.shown r.1) e)
            ∙ ap c.shown
                (catch-state (sleep threads ticks_per_second five) (λ _. ok tt) (λ _. ok tt) k)
            ∙ sleep-shown c ticks_per_second five k
            ∙ h;
      }

abbrev pub held : Option Event → List Event
held none = []
held (some e) = e ∷ []

-- What the measuring thread has sent is what has been published, then the event in hand, then the
-- queue, in this order.
abbrev pub Carried : Shown → Option Event → List Event → Type 0
Carried x hand measured =
    (published : List Event) × (x.1 ≡ map event_bytes published)
    × (measured ≡ published ++ (held hand ++ x.0))

Carried-append :
    (x : Shown) (hand : Option Event) {measured : List Event} (e : Event)
    → Carried x hand measured
    → Carried (x.0 ++ e ∷ [], x.1) hand (measured ++ e ∷ [])
Carried-append x hand e (l, q, r) = (
  l,
  q,
  ap (λ m. m ++ e ∷ []) r
      ∙ append_assoc l (held hand ++ x.0) (e ∷ [])
      ∙ ap (λ m. l ++ m) (append_assoc (held hand) x.0 (e ∷ [])),
)

Carried-publish :
    (x : Shown) {hand : Option Event} {measured : List Event} (e : Event)
    → hand ≡ some e
    → Carried x hand measured
    → Carried (x.0, x.1 ++ event_bytes e ∷ []) none measured
Carried-publish x e n (l, q, r) = (
  l ++ e ∷ [],
  ap (λ m. m ++ event_bytes e ∷ []) q ∙ sym (map-append event_bytes l (e ∷ [])),
  r ∙ ap (λ h. l ++ (held h ++ x.0)) n ∙ sym (append_assoc l (e ∷ []) x.0),
)

module _ {K : Type 0} {os : ExecutorApi K} {threads : ThreadApi K} {queues : QueueApi K Event}
    {client : MqttApi K} {queue_ptr : ℕ} (c : Contract os threads queues client queue_ptr) where
  abbrev Kept : System K → Type 0
  Kept s = Carried (c.shown s.world.kernel) s.hand s.measured

  keep-Kept :
      (s : System K) (w' : World K)
      → c.shown w'.kernel ≡ c.shown s.world.kernel
      → Kept s
      → Kept (record s { world = w' })
  keep-Kept s w' e h = subst (λ x. Carried x s.hand s.measured) (sym e) h

  module _ {temperature_x8 : K → Option ℤ × K} (p : Supply c temperature_x8)
      {flags : EventFlagsApi K} {ticks_per_second : ℕ} {others : World K → World K}
      {executor : Executor} where
    Step-Kept :
        {s t : System K}
        → Step c flags temperature_x8 ticks_per_second others executor s t
        → Kept s
        → Kept t
    unfolding is_connected
    Step-Kept {s} (measure {deg} {w'} d e) h =
        let x = c.shown s.world.kernel in
        let more =
          (measure-Gives p flags ticks_per_second x deg).gives s.world.kernel (refl, d)
            (ap (λ r. (r.0, r.1.kernel)) e) in
        subst (λ y. Carried y s.hand (s.measured ++ temperature_measurement deg ∷ [])) (sym more)
          (Carried-append x s.hand (temperature_measurement deg) h)
    Step-Kept {s} (polled {w'} e) h =
        keep-Kept s w' (sym (ap (λ r. c.shown r.1.kernel) e) ∙ poll-shown c s.world.kernel) h
    Step-Kept {s} (asked {w'} e) h =
        keep-Kept s w' (sym (ap (λ r. c.shown r.1.kernel) e) ∙ c.asked s.world.kernel) h
    Step-Kept {s} (missed {w'} n e) h =
        keep-Kept s w' ((taking-Gives c (c.shown s.world.kernel)).gives s.world refl e).1 h
    Step-Kept {s} (taken {e} {w'} n f) (l, q, r) =
        let (first, same) = (taking-Gives c (c.shown s.world.kernel)).gives s.world refl f in
        (
          l,
          same ∙ q,
          r ∙ ap (λ h. l ++ (held h ++ (c.shown s.world.kernel).0)) n ∙ ap (λ m. l ++ m) first,
        )
    Step-Kept {s} (sent {e} {w'} n f) h =
        let x = c.shown s.world.kernel in
        let more = (forward-Gives c ticks_per_second others executor x e).gives s.world refl f in
        subst (λ y. Carried y none s.measured) (sym more) (Carried-publish x e n h)
    Step-Kept {s} (rested {w'} e) h =
        let nap : Prog K TxError (Unit {0}) = sleep threads ticks_per_second (from_millis 1000) in
        keep-Kept s w'
          (sym (ap (λ r. c.shown r.1.kernel) e)
            ∙ ap c.shown (unwrap-state nap s.world.kernel)
            ∙ sleep-shown c ticks_per_second (from_millis 1000) s.world.kernel)
          h
    Step-Kept {s} (elsewhere w' e) h = keep-Kept s w' e h

    -- In every interleaving of the two threads, from an empty queue and before the first
    -- publication: what the measuring thread has sent is, in this order, what has been published, the
    -- event that the network thread has taken and not sent yet, and what is in the queue; and the
    -- payloads are the bytes of what has been published. So no measurement is lost, repeated or
    -- published out of order.
    pub measurements_carried :
        {w : World K} {s : System K}
        → c.shown w.kernel ≡ ([], [])
        → Reach c flags temperature_x8 ticks_per_second others executor
            (record { world = w; hand = none; measured = [] })
            s
        → (published : List Event) × ((c.shown s.world.kernel).1 ≡ map event_bytes published)
          × (s.measured ≡ published ++ (held s.hand ++ (c.shown s.world.kernel).0))
    measurements_carried e here = ([], ap (λ x. x.1) e, sym (ap (λ x. x.0) e))
    measurements_carried e (next r t) = Step-Kept t (measurements_carried e r)
