-- ===== src/App/Delivery.antt =====
-- threadx-app/cross/app/src/bin/network.rs: what one turn of do_network does with an event.
use threadx_rust.Call.{tx_checked_call_no_log, wait_code}
use threadx_rust.Base.{
  ◌<◌, ◌≤◌, if◌then◌else◌, ◌>>=◌, next-Gives, then-Gives, Gives, unwrap-state, ℕ, ◌≡◌, ◌⊎◌, inl,
  inr, refl, ap, sym, ◌∙◌, Bool, true, false, Option, none, some, [], ◌∷◌, ◌++◌, Never, ok, pure,
  unwrap, arith,
}
use threadx_rust.Uprotocol.Transport.{MqttApi, poll, is_connected}
use threadx_rust.Thread.{ThreadApi, sleep}
use threadx_rust.Queue.{QueueApi, receive}
use threadx_rust.Executor.{ExecutorApi, World, Executor, on_kernel}
use threadx_rust.App.Payload.{Event, event_bytes}
use threadx_rust.Call.{no_wait}
use mathlib.Core.Path.{subst}
use threadx_rust.App.{from_millis, sleep, poll, attempt, network_turn, forward}
use threadx_rust.App.Returns.{Serves, turn-Runs}
use threadx_rust.Executor.Contract.{KernelContract}
use threadx_rust.Executor.{position_unused}
use threadx_rust.Time.Rounding.{millis_per_tick-pos}
use threadx_rust.Error.{TxError}
use threadx_rust.Base.{Prog}
use threadx_rust.App.Shown.{sleep-shown, Shows, Contract, Shown}
use threadx_rust.App.Sending.{forward-Gives}

poll-state :
    {K : Type 0} (client : MqttApi K) (k : K)
    → (poll client {E = Never} k).1 ≡ (client.poll_client k).1
unfolding poll
poll-state client k = ground arith

module _ {K : Type 0} {os : ExecutorApi K} {threads : ThreadApi K} {queues : QueueApi K Event}
    {client : MqttApi K} {queue_ptr : ℕ} (c : Contract os threads queues client queue_ptr) where
  -- What a receive that does not wait has done to the state `x`.
  abbrev pub Taken : Shown → Option Event → World K → Type 0
  Taken x none w = (x.0 ≡ []) × Shows c x w
  Taken x (some e) w = (x.0 ≡ e ∷ (c.shown w.kernel).0) × ((c.shown w.kernel).1 ≡ x.1)

  taken :
      (x : Shown) (w : World K) (o : Option Event) (w' : World K)
      → Shows c x w
      → on_kernel (attempt (receive queues (record { receiver_ptr = queue_ptr }) no_wait)) w
        ≡ (ok o, w')
      → Taken x o w'
  unfolding receive tx_checked_call_no_log wait_code
  taken x w none w' h e =
      (ground (arith, c.not_received w.kernel), ground (arith, c.not_received w.kernel))
  taken x w (some m) w' h e =
      (ground (arith, c.received w.kernel), ground (arith, c.received w.kernel))

  pub taking-Gives :
      (x : Shown)
      → Gives
          (Shows c x)
          (Taken x)
          (on_kernel (attempt (receive queues (record { receiver_ptr = queue_ptr }) no_wait)))
  taking-Gives x = record { gives = λ w {a} {k'} h e. taken x w a k' h e }

  module _ (ticks_per_second : ℕ) (others : World K → World K) (executor : Executor) where
    -- Whether the client is connected once it has been polled.
    abbrev pub Connected : Bool → World K → Type 0
    Connected b w = (client.client_is_connected (client.poll_client w.kernel).1).0 ≡ b

    -- A turn has had nothing to do, or has taken one event and published it.
    abbrev pub Turned : Bool → Shown → Shown → Type 0
    Turned b x y =
        (((b ≡ false) ⊎ (x.0 ≡ [])) × (y ≡ x))
        ⊎ ((e : Event) × (x.0 ≡ e ∷ y.0) × (y.1 ≡ x.1 ++ event_bytes e ∷ []))

    handled-Gives :
        (b : Bool) (x : Shown) (evt : Option Event)
        → Gives {A = Unit {0}}
            (Taken x evt)
            (λ _ w. Turned b x (c.shown w.kernel))
            (elim evt [
              | none ↦ pure tt
              | some e ↦ forward os threads queues client ticks_per_second others executor e
            ])
    handled-Gives b x none = record {
      gives = λ w h e. inl (inr h.0, subst (Shows c x) (ap (λ r. r.1) e) h.1);
    }
    handled-Gives b x (some evt) = record {
      gives = λ w h e.
          let q =
            (forward-Gives c ticks_per_second others executor (c.shown w.kernel) evt).gives w refl
              e in
          inr (
            evt,
            h.0 ∙ ap (λ l. evt ∷ l) (sym (ap (λ y. y.0) q)),
            ap (λ y. y.1) q ∙ ap (λ l. l ++ event_bytes evt ∷ []) h.1,
          );
    }

    pub polling-Gives :
        (b : Bool) (x : Shown)
        → Gives
            (λ w. Shows c x w × Connected b w)
            (λ _ w. Shows c x w × ((client.client_is_connected w.kernel).0 ≡ b))
            (on_kernel (poll client))
    polling-Gives b x = record {
      gives = λ w h e.
          let at = sym (poll-state client w.kernel) ∙ ap (λ r. r.1.kernel) e in
          (
            sym (ap c.shown at) ∙ c.polled w.kernel ∙ h.0,
            sym (ap (λ k. (client.client_is_connected k).0) at) ∙ h.1,
          );
    }

    pub connected-Gives :
        (b : Bool) (x : Shown)
        → Gives
            (λ w. Shows c x w × ((client.client_is_connected w.kernel).0 ≡ b))
            (λ connected w. Shows c x w × (connected ≡ b))
            (on_kernel (is_connected client))
    unfolding is_connected
    connected-Gives b x = record {
      gives = λ w h e.
          (sym (ap (λ r. c.shown r.1.kernel) e) ∙ c.asked w.kernel ∙ h.0, ground (arith, h.1));
    }

    pub branch-Gives :
        (b : Bool) (x : Shown) (connected : Bool)
        → Gives {A = Unit {0}}
            (λ w. Shows c x w × (connected ≡ b))
            (λ _ w. Turned b x (c.shown w.kernel))
            (if connected
              then (on_kernel
                    (attempt (receive queues (record { receiver_ptr = queue_ptr }) no_wait))
                  >>= λ evt. elim evt [
                    | none ↦ pure tt
                    | some e ↦ forward os threads queues client ticks_per_second others executor e
                  ])
              else pure tt)
    branch-Gives b x true = record {
      gives = λ w h e. (then-Gives (taking-Gives x) (handled-Gives b x)).gives w h.0 e;
    }
    branch-Gives b x false = record {
      gives = λ w h e. inl (inl (sym h.1), subst (Shows c x) (ap (λ r. r.1) e) h.0);
    }

    pub sleeping-Gives :
        (b : Bool) (x : Shown)
        → Gives
            (λ w. Turned b x (c.shown w.kernel))
            (λ _ w. Turned b x (c.shown w.kernel))
            (on_kernel (unwrap (sleep threads ticks_per_second (from_millis 1000))))
    sleeping-Gives b x = record {
      gives = λ w t e.
          let nap : Prog K TxError (Unit {0}) = sleep threads ticks_per_second (from_millis 1000) in
          subst (Turned b x)
            (sym (
                ap c.shown (unwrap-state nap w.kernel)
                ∙ sleep-shown c ticks_per_second (from_millis 1000) w.kernel)
              ∙ ap (λ r. c.shown r.1.kernel) e)
            t;
    }

    pub turn-Gives :
        (b : Bool) (x : Shown)
        → Gives
            (λ w. Shows c x w × Connected b w)
            (λ _ w. Turned b x (c.shown w.kernel))
            (network_turn os threads queues client ticks_per_second others executor
              (record { receiver_ptr = queue_ptr }))
    unfolding network_turn
    turn-Gives b x = next-Gives (polling-Gives b x) (
        then-Gives (connected-Gives b x)
          (λ connected. next-Gives (branch-Gives b x connected) (sleeping-Gives b x)))

    -- A turn of `do_network` returns when a slot of the executor is free, the broker and the
    -- kernel do as they document, and there are at most 1000 ticks per second. When the client is
    -- connected and an event is in the queue, the turn takes the first one and publishes its
    -- bytes once, as the next payload; otherwise the queue and the payloads stay as they were. So
    -- no event is lost, repeated or published out of order.
    pub network_turn_delivers :
        (kernel : KernelContract os) (s : Serves threads client)
        → 0 < ticks_per_second
        → ticks_per_second ≤ 1000
        → (w : World K) {i : ℕ} → position_unused w.signals ≡ some i
        → let (events, payloads) = c.shown w.kernel in
          (w' : World K) × (network_turn os threads queues client ticks_per_second others executor
              (record { receiver_ptr = queue_ptr })
              w
            ≡ (ok tt, w'))
          × (((((client.client_is_connected (client.poll_client w.kernel).1).0 ≡ false)
                  ⊎ (events ≡ []))
                × (c.shown w'.kernel ≡ c.shown w.kernel))
              ⊎ ((e : Event) × (events ≡ e ∷ (c.shown w'.kernel).0)
                  × ((c.shown w'.kernel).1 ≡ payloads ++ event_bytes e ∷ [])))
    network_turn_delivers kernel s pos le w {i} free =
        let turn =
          turn-Runs kernel i s others executor queues (record { receiver_ptr = queue_ptr })
            ticks_per_second (millis_per_tick-pos ticks_per_second pos le) in
        let (a, w', e, _) = turn.runs w free in
        let b = (client.client_is_connected (client.poll_client w.kernel).1).0 in
        (w', e, (turn-Gives b (c.shown w.kernel)).gives w (refl, refl) e)
