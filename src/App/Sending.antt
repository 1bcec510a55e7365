-- ===== src/App/Sending.antt =====
-- threadx-app/cross/app/src/bin/network.rs: block_on(transport.send(…)) publishes one payload.
use threadx_rust.Base.{
  ◌>>◌, next-Gives, Keeps-Gives, ◌>>◌, then-Gives, Gives, ℕ, ◌≡◌, ap, Option, none, some, List, [],
  ◌∷◌, ◌++◌, Prog, Never, pure, arith, next-Keeps, pure-Keeps,
}
use threadx_rust.Uprotocol.Transport.{MqttApi, send, payload_bytes, user_properties}
use threadx_rust.Thread.{ThreadApi}
use threadx_rust.Queue.{QueueApi}
use threadx_rust.Executor.{
  pending, wait, ExecutorApi, World, Executor, Signal, release_slot, block_on, poll_loop,
}
use threadx_rust.App.Payload.{Event, event_bytes}
use mathlib.Core.Path.{subst}
use threadx_rust.App.{Poll, ready, UMessage, forward, send_future}
use threadx_rust.App.Shown.{claim_slot-Keeps, release_slot-Keeps, Shows, Contract, Shown}

module _ {K : Type 0} {os : ExecutorApi K} {threads : ThreadApi K} {queues : QueueApi K Event}
    {client : MqttApi K} {queue_ptr : ℕ} (c : Contract os threads queues client queue_ptr) where
  -- The state shows `x` but for one more payload.
  abbrev pub Added : Shown → List ℕ → World K → Type 0
  Added x payload = Shows c (x.0, x.1 ++ payload ∷ [])

  -- The first poll of the future is ready and has published the payload, if it returns.
  pub sending-Gives :
      (x : Shown) (s : Signal) (message : UMessage)
      → Gives
          (Shows c x)
          (λ r w. ((i : Option (Unit {0})) × (r ≡ ready i)) × Added x (payload_bytes message) w)
          (send_future client s message)
  unfolding send_future send
  sending-Gives x s message = record {
    gives = λ w h e.
        let more =
          c.published "Vehicle_B/000A/0/2/800A" (payload_bytes message) user_properties w.kernel in
        ((some tt, ground arith), ground (arith, more));
  }

  pub ready-Gives :
      (P : World K → Type 0) (r : Poll UMessage (Option (Unit {0})))
      (on_pending : UMessage → Prog (World K) Never (Option (Option (Unit {0}))))
      → Gives
          (λ w. ((i : Option (Unit {0})) × (r ≡ ready i)) × P w)
          (λ _. P)
          (elim r [ pending fut ↦ on_pending fut | ready item ↦ pure (some item) ])
  ready-Gives P (pending fut) on_pending = record { gives = λ w p e. absurd (not_ready fut p.0) }
    where
      not_ready : (fut : UMessage) → ¬ ((i : Option (Unit {0})) × (pending fut ≡ ready i))
      not_ready fut (i, q) = absurd (cc)
  ready-Gives P (ready item) on_pending = record { gives = λ w p e. subst P (ap (λ x. x.1) e) p.1 }

  pub polling-Gives :
      (x : Shown) (others : World K → World K) (s : Signal) (message : UMessage)
      → Gives
          (Shows c x)
          (λ _. Added x (payload_bytes message))
          (poll_loop os (send_future client) others 1 s message)
  unfolding poll_loop
  polling-Gives x others s message = then-Gives (sending-Gives x s message) (λ r.
      ready-Gives (Added x (payload_bytes message)) r
        (λ fut. (wait os others s >> poll_loop os (send_future client) others 0 s fut)))

  pub block_on-Gives :
      (x : Shown) (others : World K → World K) (executor : Executor) (message : UMessage)
      → Gives
          (Shows c x)
          (λ _. Added x (payload_bytes message))
          (block_on os (send_future client) others 1 executor message)
  unfolding block_on
  block_on-Gives x others executor message = then-Gives (Keeps-Gives (claim_slot-Keeps c x)) (λ idx.
      then-Gives
        (polling-Gives x others
          (record { state_index = idx; event_flag_handle = executor.event_handle }) message)
        (λ item. released idx item))
    where
      y : Shown
      y = (x.0, x.1 ++ payload_bytes message ∷ [])

      Sent : Type 0
      Sent = Option (Option (Unit {0}))

      released :
          (idx : ℕ) (item : Sent)
          → Gives {A = Sent}
              (Shows c y)
              (λ _. Shows c y)
              (elim item [ none ↦ pure none | some i ↦ (release_slot os idx >> pure (some i)) ])
      released idx none = Keeps-Gives (pure-Keeps none)
      released idx (some i) =
          Keeps-Gives (next-Keeps (release_slot-Keeps c y idx) (pure-Keeps (some i)))

  module _ (ticks_per_second : ℕ) (others : World K → World K) (executor : Executor) where
    pub forward-Gives :
        (x : Shown) (e : Event)
        → Gives
            (Shows c x)
            (λ _. Added x (event_bytes e))
            (forward os threads queues client ticks_per_second others executor e)
    unfolding forward
    forward-Gives x e =
        next-Gives
          (block_on-Gives x others executor
            (record { attributes = none; payload = some (event_bytes e) }))
          (Keeps-Gives (pure-Keeps tt))
