-- ===== src/App/Screen.antt =====
-- threadx-app/cross/app/src/bin/network.rs: a turn of the loop of do_network with what it prints on
-- the display.
use Prim.Native.String.{String}
use mathlib.Core.Path.{sym, ap, subst}
use threadx_rust.App.Turns
use threadx_rust.App.Turns.{Reaches, handled-Reaches}
use threadx_rust.App.Pipeline.{rested, asked, polled, elsewhere, next, System}
use threadx_rust.App.Shown.{Contract}
use threadx_rust.Base.{
  Option, ◌∙◌, false, true, arith, ok-injective, >>=-eq-ok, ok, Bool, List, ◌≡◌, ℕ, none, some,
  Prog, Never, pure, unwrap, ◌>>=◌, ◌>>◌, if◌then◌else◌,
}
use threadx_rust.App.Startup.{ScreenApi, print_text}
use threadx_rust.App.{attempt, forward}
use threadx_rust.App.Payload.{ℤ, Event}
use threadx_rust.EventFlags.{EventFlagsApi}
use threadx_rust.Call.{no_wait}
use threadx_rust.Executor.{Executor, ExecutorApi, World, on_kernel}
use threadx_rust.Queue.{QueueApi, QueueReceiver, receive}
use threadx_rust.Thread.{ThreadApi, sleep}
use threadx_rust.Time.{from_millis}
use threadx_rust.Uprotocol.Transport.{MqttApi, poll, is_connected}

module _ {Display K : Type 0} (os : ExecutorApi K) (threads : ThreadApi K)
    (queues : QueueApi K Event) (client : MqttApi K) (screen : ScreenApi Display K)
    (ticks_per_second : ℕ) (others : World K → World K) (executor : Executor) where
  -- What the turn does with the queue when the client is connected.
  unfoldable pub send_next : QueueReceiver → Prog (World K) Never (Unit {0})
  unfolding forward
  send_next recv = do
    evt ← on_kernel (attempt (receive queues recv no_wait))
    elim evt [
      | none ↦ pure tt
      | some e ↦ forward os threads queues client ticks_per_second others executor e
    ]

  -- One turn of the loop of `do_network`; the result is the driver of the display.
  unfoldable pub printing_turn : QueueReceiver → Display → Prog (World K) Never Display
  unfolding send_next poll is_connected receive sleep print_text
  printing_turn recv d = do
    on_kernel (poll client)
    connected ← on_kernel (is_connected client)
    d' ←
        if connected
        then (do
          shown ← on_kernel (print_text screen "WLAN(x)\nMQTT(x)" d)
          send_next recv
          pure shown)
        else on_kernel (print_text screen "WLAN(x)\nMQTT()" d)
    on_kernel (unwrap (sleep threads ticks_per_second (from_millis 1000)))
    pure d'

module _ {Display K : Type 0} {os : ExecutorApi K} {threads : ThreadApi K}
    {queues : QueueApi K Event} {client : MqttApi K} {queue_ptr : ℕ}
    (c : Contract os threads queues client queue_ptr) (screen : ScreenApi Display K)
    (still : (d : Display) (k : K) → c.shown (screen.flush d k).2 ≡ c.shown k) where
  pub print_text-shown :
      (text : String) (d : Display) (k : K) → c.shown (print_text screen text d k).1 ≡ c.shown k
  unfolding print_text
  print_text-shown text d k =
      let (drawn, d') = screen.draw text (screen.clear_buffer d) in ground (arith, still d' k)

  module _ (flags : EventFlagsApi K) (temperature_x8 : K → Option ℤ × K) (ticks_per_second : ℕ)
      (others : World K → World K) (executor : Executor) (s : System K)
      (measured : List Event) where
    abbrev Gets : World K → Type 0
    Gets = Reaches c flags temperature_x8 ticks_per_second others executor s measured

    abbrev printing : String → Display → Prog (World K) Never Display
    printing text d = on_kernel (print_text screen text d)

    printing-Reaches :
        (text : String) (d d' : Display) {w w' : World K}
        → Gets w
        → printing text d w ≡ (ok d', w')
        → Gets w'
    printing-Reaches text d d' {w} {w'} r e =
        next r
          (elsewhere w' (sym (ap (λ r. c.shown r.1.kernel) e) ∙ print_text-shown text d w.kernel))

    abbrev sending : Prog (World K) Never (Unit {0})
    sending =
        send_next os threads queues client screen ticks_per_second others executor
          (record { receiver_ptr = queue_ptr })

    sending-Reaches : {w w' : World K} → Gets w → sending w ≡ (ok tt, w') → Gets w'
    unfolding send_next
    sending-Reaches r e =
        let (evt, w1, f, g) =
          >>=-eq-ok
            (Turns.taking c flags temperature_x8 ticks_per_second others executor s measured)
            (Turns.handling c flags temperature_x8 ticks_per_second others executor s measured) e in
        handled-Reaches c flags temperature_x8 ticks_per_second others executor s measured evt r f g

    abbrev pub branch : Bool → Display → Prog (World K) Never Display
    branch connected d =
        if connected
        then (do shown ← printing "WLAN(x)\nMQTT(x)" d; sending; pure shown)
        else printing "WLAN(x)\nMQTT()" d

    branch-Reaches :
        (connected : Bool) (d d' : Display) {w w' : World K}
        → Gets w
        → branch connected d w ≡ (ok d', w')
        → Gets w'
    branch-Reaches true d d' r e =
        let (shown, w1, p1, q1) =
          >>=-eq-ok (printing "WLAN(x)\nMQTT(x)" d) (λ shown. sending >> pure shown) e in
        let (_, w2, p2, q2) = >>=-eq-ok sending (λ _. pure shown) q1 in
        subst Gets (ok-injective q2).1
          (sending-Reaches (printing-Reaches "WLAN(x)\nMQTT(x)" d shown r p1) p2)
    branch-Reaches false d d' r e = printing-Reaches "WLAN(x)\nMQTT()" d d' r e

    -- A turn of the loop of `do_network` that returns is a sequence of the steps of App.Pipeline,
    -- where what the turn prints touches neither the queue nor the payloads.
    pub printing_turn-Reaches :
        (d : Display) {d' : Display} {w w' : World K}
        → Gets w
        → printing_turn os threads queues client screen ticks_per_second others executor
            (record { receiver_ptr = queue_ptr })
            d
            w
          ≡ (ok d', w')
        → Gets w'
    unfolding printing_turn
    printing_turn-Reaches d r e =
        let napping : Prog (World K) Never (Unit {0}) =
          Turns.napping c flags temperature_x8 ticks_per_second others executor s measured in
        let asking : Prog (World K) Never Bool = on_kernel (is_connected client) in
        let rest : Bool → Prog (World K) Never Display =
          λ b. branch b d >>= λ d1. (napping >> pure d1) in
        let (_, w1, p1, q1) = >>=-eq-ok (on_kernel (poll client)) (λ _. asking >>= rest) e in
        let (b, w2, p2, q2) = >>=-eq-ok asking rest q1 in
        let (d1, w3, p3, q3) = >>=-eq-ok (branch b d) (λ d1. napping >> pure d1) q2 in
        let (_, w4, p4, q4) = >>=-eq-ok napping (λ _. pure d1) q3 in
        subst Gets (ok-injective q4).1
          (next (branch-Reaches b d d1 (next (next r (polled p1)) (asked p2)) p3) (rested p4))
