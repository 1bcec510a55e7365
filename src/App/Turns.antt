-- ===== src/App/Turns.antt =====
-- threadx-app/cross/app/src/bin/network.rs: the turns of the loops are made of the calls of
-- App.Pipeline.
use mathlib.Core.Path.{subst}
use threadx_rust.Base.{
  ℕ, ◌≡◌, refl, ap, Bool, true, false, Option, none, some, List, Prog, Never, ok, pure, unwrap,
  >>=-eq-ok, ◌>>=◌, ◌>>◌, if◌then◌else◌,
}
use threadx_rust.App.Pipeline.{System, polled, asked, missed, taken, sent, rested, Reach, next}
use threadx_rust.App.{
  from_millis, no_wait, poll, is_connected, receive, sleep, on_kernel, Executor, World, ℤ,
  EventFlagsApi, MqttApi, Event, QueueApi, ThreadApi, ExecutorApi, attempt, network_turn, forward,
}
use threadx_rust.App.Shown.{Contract}

-- The state between two turns of the network thread.
abbrev pub between : {K : Type 0} → List Event → World K → System K
between measured w = record { world = w; hand = none; measured = measured }

module _ {K : Type 0} {os : ExecutorApi K} {threads : ThreadApi K} {queues : QueueApi K Event}
    {client : MqttApi K} {queue_ptr : ℕ} (c : Contract os threads queues client queue_ptr)
    (flags : EventFlagsApi K) (temperature_x8 : K → Option ℤ × K) (ticks_per_second : ℕ)
    (others : World K → World K) (executor : Executor) (s : System K) (measured : List Event) where
  abbrev pub Reaches : World K → Type 0
  Reaches w = Reach c flags temperature_x8 ticks_per_second others executor s (between measured w)

  abbrev pub taking : Prog (World K) Never (Option Event)
  taking = on_kernel (attempt (receive queues (record { receiver_ptr = queue_ptr }) no_wait))

  abbrev pub handling : Option Event → Prog (World K) Never (Unit {0})
  handling evt = elim evt [
    | none ↦ pure tt
    | some e ↦ forward os threads queues client ticks_per_second others executor e
  ]

  abbrev pub napping : Prog (World K) Never (Unit {0})
  napping = on_kernel (unwrap (sleep threads ticks_per_second (from_millis 1000)))

  pub handled-Reaches :
      (evt : Option Event) {w w1 w' : World K}
      → Reaches w
      → taking w ≡ (ok evt, w1)
      → handling evt w1 ≡ (ok tt, w')
      → Reaches w'
  handled-Reaches none r e f = subst Reaches (ap (λ x. x.1) f) (next r (missed refl e))
  handled-Reaches (some evt) r e f = next (next r (taken refl e)) (sent refl f)

  branch-Reaches :
      (b : Bool) {w w' : World K}
      → Reaches w
      → (if b then (taking >>= handling) else pure tt) w ≡ (ok tt, w')
      → Reaches w'
  branch-Reaches true {w} r e =
      let (evt, w1, f, g) = >>=-eq-ok taking handling e in handled-Reaches evt r f g
  branch-Reaches false r e = subst Reaches (ap (λ x. x.1) e) r

  -- A turn of `do_network` that returns is a sequence of the steps of App.Pipeline.
  pub network_turn-Reaches :
      {w w' : World K}
      → Reaches w
      → network_turn os threads queues client ticks_per_second others executor
          (record { receiver_ptr = queue_ptr })
          w
        ≡ (ok tt, w')
      → Reaches w'
  unfolding network_turn
  network_turn-Reaches r e =
      let asking : Prog (World K) Never Bool = on_kernel (is_connected client) in
      let branch : Bool → Prog (World K) Never (Unit {0}) =
        λ b. if b then (taking >>= handling) else pure tt in
      let (_, w1, p1, q1) =
        >>=-eq-ok (on_kernel (poll client)) (λ _. asking >>= λ b. (branch b >> napping)) e in
      let (b, w2, p2, q2) = >>=-eq-ok asking (λ b. branch b >> napping) q1 in
      let (_, w3, p3, q3) = >>=-eq-ok (branch b) (λ _. napping) q2 in
      next (branch-Reaches b (next (next r (polled p1)) (asked p2)) p3) (rested q3)
