-- ===== src/Executor/Simulation.antt =====
-- threadx-rs/src/executor.rs: every step of the lone `block_on`, as a step of the
-- specification.
use threadx_rust.Executor.Inversion.{release_slot-post, claim_slot-post}
use threadx_rust.Executor.Single.{At, Others, Stands}
use threadx_rust.EventFlags.Bits.{has_bit-one}
use threadx_rust.Executor.Slots.{wait_flags-after, bit-passed, bit-published}
use threadx_rust.Executor.Effects.{
  notify-waiting, wait-notified, notify-notified, wait-empty, passed, notify-empty, published,
  signal,
}
use threadx_rust.Executor.Contract.{flags_get, AllSet, KernelContract}
use threadx_rust.Executor.{
  claim_slot, release_slot, wait_flags, wait_enter, notified, waiting, empty, unused, notify,
  SignalState, position_unused, World, ExecutorApi,
}
use threadx_rust.Executor.System.{update, blocked, polling, idle, Task, System}
use threadx_rust.Executor.Waker
use threadx_rust.Executor.Waker.{
  Waker, off, awake, asleep, WakerStep, Act, begins, passes, sleeps, wakes, finishes, notifies,
}
use threadx_rust.Base.{
  refl, inr, inl, get_elem?-set, none, set, [], true, ◌∷◌, ok, some, false, get_elem?, List, ◌≢◌, ℕ,
  zero, suc, ◌≡◌, ◌∙◌, ap, arith,
}

module _ {K : Type 0} {os : ExecutorApi K} (c : KernelContract os) where
  pub first_free : (l : List SignalState) → get_elem? l 0 ≡ some unused → position_unused l ≡ some 0
  unfolding position_unused
  first_free [] h = absurd (cc)
  first_free (unused ∷ l) h = refl
  first_free (empty ∷ l) h = absurd (cc)
  first_free (waiting ∷ l) h = absurd (cc)
  first_free (notified ∷ l) h = absurd (cc)

  abbrev pub Simulates : Waker → Act → System K → Type 0
  Simulates a x t = (b : Waker) × WakerStep a x b × Stands c t b × Others c t

  -- The world after a write of slot 0, and after a write with a publish.
  abbrev wrote : World K → SignalState → World K
  wrote w v = record w { signals = set w.signals 0 v; kernel = passed c w.kernel }

  first-wrote :
      (w : World K) (v : SignalState) {u : SignalState}
      → get_elem? w.signals 0 ≡ some u
      → get_elem? (set w.signals 0 v) 0 ≡ some v
  first-wrote w v h = get_elem?-set w.signals 0 0 v h

  flag-published : (k : K) → c.bit (published c k) 0 ≡ true
  flag-published k = ground (arith, bit-published c k 0)

  pub simulate_notify :
      (s : System K) (a : Waker) {w : World K}
      → Stands c s a
      → Others c s
      → s.task 0 ≢ idle
      → notify os (signal os 0) s.world ≡ (ok tt, w)
      → Simulates a notifies (record { world = w; task = s.task })
  simulate_notify s off m o ne p = absurd (ne m.0)
  simulate_notify s (awake false) {w} m o ne p =
      let q : w ≡ wrote s.world notified = cc (notify-empty c s.world 0 m.1) in
      (
        awake true,
        Waker.notify_awake false,
        rw q (m.0, first-wrote s.world notified m.1, bit-passed c s.world.kernel 0 ∙ m.2),
        o,
      )
  simulate_notify s (awake true) {w} m o ne p =
      let q : w ≡ record (s.world) { kernel = passed c s.world.kernel } =
        cc (notify-notified c s.world 0 m.1) in
      (awake true, Waker.notify_awake true, rw q (m.0, m.1, bit-passed c s.world.kernel 0 ∙ m.2), o)
  simulate_notify s (asleep false) {w} m o ne p =
      let q : w ≡ record (wrote s.world empty) { kernel = published c s.world.kernel } =
        cc (notify-waiting c s.world 0 m.1) in
      (
        asleep true,
        Waker.notify_asleep false,
        rw q (inl (m.0, first-wrote s.world empty m.1, flag-published s.world.kernel)),
        o,
      )
  simulate_notify s (asleep true) {w} (inl m) o ne p =
      let q : w ≡ wrote s.world notified = cc (notify-empty c s.world 0 m.1) in
      (
        asleep true,
        Waker.notify_asleep true,
        rw q (inr (m.0, first-wrote s.world notified m.1, bit-passed c s.world.kernel 0 ∙ m.2)),
        o,
      )
  simulate_notify s (asleep true) {w} (inr m) o ne p =
      let q : w ≡ record (s.world) { kernel = passed c s.world.kernel } =
        cc (notify-notified c s.world 0 m.1) in
      (
        asleep true,
        Waker.notify_asleep true,
        rw q (inr (m.0, m.1, bit-passed c s.world.kernel 0 ∙ m.2)),
        o,
      )

  pub simulate_pass :
      (s : System K) (a : Waker) {w : World K}
      → Stands c s a
      → Others c s
      → s.task 0 ≡ polling
      → wait_enter os (signal os 0) s.world ≡ (ok none, w)
      → Simulates a passes (record { world = w; task = s.task })
  simulate_pass s off m o e p = absurd (cc)
  simulate_pass s (awake false) m o e p = absurd (cc (wait-empty c s.world 0 m.1, p))
  simulate_pass s (awake true) {w} m o e p =
      let q : w ≡ wrote s.world empty = cc (wait-notified c s.world 0 m.1) in
      (
        awake false,
        Waker.pass,
        rw q (m.0, first-wrote s.world empty m.1, bit-passed c s.world.kernel 0 ∙ m.2),
        o,
      )
  simulate_pass s (asleep false) m o e p = absurd (cc)
  simulate_pass s (asleep true) (inl m) o e p = absurd (cc)
  simulate_pass s (asleep true) (inr m) o e p = absurd (cc)

  rest_idle : (s : System K) (a : Task) → Others c s → (i : ℕ) → update s.task 0 a (suc i) ≡ idle
  rest_idle s a o i = ground (arith, o i)

  pub simulate_block :
      (s : System K) (a : Waker) (flags : ℕ) {w : World K}
      → Stands c s a
      → Others c s
      → s.task 0 ≡ polling
      → wait_enter os (signal os 0) s.world ≡ (ok (some flags), w)
      → Simulates a sleeps (record { world = w; task = update s.task 0 (blocked flags) })
  simulate_block s off flags m o e p = absurd (cc)
  simulate_block s (awake false) flags {w} m o e p =
      let q : w ≡ wrote s.world waiting = cc (wait-empty c s.world 0 m.1) in
      let r : flags ≡ 1 = cc (wait-empty c s.world 0 m.1) in
      (
        asleep false,
        Waker.sleep,
        rw q (ap blocked r, first-wrote s.world waiting m.1, bit-passed c s.world.kernel 0 ∙ m.2),
        rest_idle s (blocked flags) o,
      )
  simulate_block s (awake true) flags m o e p = absurd (cc (wait-notified c s.world 0 m.1, p))
  simulate_block s (asleep false) flags m o e p = absurd (cc)
  simulate_block s (asleep true) flags (inl m) o e p = absurd (cc)
  simulate_block s (asleep true) flags (inr m) o e p = absurd (cc)

  -- Flag 0 is all that a request for 1 asks for.
  pub request_one : (k : K) → c.bit k 0 ≡ true → AllSet (c.bit k) 1
  request_one k h zero b = h
  request_one k h (suc i) b = absurd (ground (arith, has_bit-one (suc i)))

  flag-taken : (k : K) → AllSet (c.bit k) 1 → c.bit (flags_get os 1 k).2 0 ≡ false
  flag-taken k a = ground (arith, c.bit-flags_get 1 k a 0, has_bit-one 0)

  wake_up :
      (s : System K) {v : SignalState} {w : World K}
      → At c s (blocked 1) v true
      → AllSet (c.bit s.world.kernel) 1
      → wait_flags os (signal os 0) 1 s.world ≡ (ok tt, w)
      → At c (record { world = w; task = update s.task 0 polling }) polling v false
  wake_up s m all p =
      rw (wait_flags-after c s.world 0 1 all p) (refl, m.1, flag-taken s.world.kernel all)

  pub simulate_wake :
      (s : System K) (a : Waker) {w : World K}
      → Stands c s a
      → Others c s
      → s.task 0 ≡ blocked 1
      → AllSet (c.bit s.world.kernel) 1
      → wait_flags os (signal os 0) 1 s.world ≡ (ok tt, w)
      → Simulates a wakes (record { world = w; task = update s.task 0 polling })
  simulate_wake s off m o e all p = absurd (cc)
  simulate_wake s (awake false) m o e all p = absurd (cc)
  simulate_wake s (awake true) m o e all p = absurd (cc)
  simulate_wake s (asleep false) m o e all p = absurd (cc (all 0 (has_bit-one 0)))
  simulate_wake s (asleep true) (inl m) o e all p =
      (awake false, Waker.wake false, wake_up s m all p, rest_idle s polling o)
  simulate_wake s (asleep true) (inr m) o e all p =
      (awake true, Waker.wake true, wake_up s m all p, rest_idle s polling o)

  released :
      (s : System K) {v : SignalState} {w : World K}
      → At c s polling v false
      → release_slot os 0 s.world ≡ (ok tt, w)
      → At c (record { world = w; task = update s.task 0 idle }) idle unused false
  released s m p =
      rw (release_slot-post c s.world 0 p)
        (refl, first-wrote s.world unused m.1, bit-passed c s.world.kernel 0 ∙ m.2)

  pub simulate_finish :
      (s : System K) (a : Waker) {w : World K}
      → Stands c s a
      → Others c s
      → s.task 0 ≡ polling
      → release_slot os 0 s.world ≡ (ok tt, w)
      → Simulates a finishes (record { world = w; task = update s.task 0 idle })
  simulate_finish s off m o e p = absurd (cc)
  simulate_finish s (awake false) m o e p =
      (off, Waker.finish false, released s m p, rest_idle s idle o)
  simulate_finish s (awake true) m o e p =
      (off, Waker.finish true, released s m p, rest_idle s idle o)
  simulate_finish s (asleep false) m o e p = absurd (cc)
  simulate_finish s (asleep true) (inl m) o e p = absurd (cc)
  simulate_finish s (asleep true) (inr m) o e p = absurd (cc)

  pub simulate_begin :
      (s : System K) (a : Waker) {w : World K}
      → Stands c s a
      → Others c s
      → s.task 0 ≡ idle
      → claim_slot os s.world ≡ (ok 0, w)
      → Simulates a begins (record { world = w; task = update s.task 0 polling })
  simulate_begin s off m o e p = (
    awake false,
    Waker.begin,
    rw (claim_slot-post c s.world 0 p).1
        (refl, first-wrote s.world empty m.1, bit-passed c s.world.kernel 0 ∙ m.2),
    rest_idle s polling o,
  )
  simulate_begin s (awake false) m o e p = absurd (cc)
  simulate_begin s (awake true) m o e p = absurd (cc)
  simulate_begin s (asleep false) m o e p = absurd (cc)
  simulate_begin s (asleep true) (inl m) o e p = absurd (cc)
  simulate_begin s (asleep true) (inr m) o e p = absurd (cc)
