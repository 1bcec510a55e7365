-- ===== src/Executor/Wakeups.antt =====
-- threadx-rs/src/executor.rs: one `block_on` at a time never panics and loses no wakeup.
use threadx_rust.Executor.Inversion.{claim_slot-post}
use threadx_rust.Executor.Effects.{
  notify-waiting, notify-notified, wait-notified, notify-empty, release_slot-lem, wait_flags-lem,
  wait-empty, signal,
}
use threadx_rust.Executor.Slots.{IsFresh}
use threadx_rust.Executor.Simulation.{
  simulate_finish, simulate_wake, simulate_block, simulate_pass, first_free, simulate_begin,
  request_one, simulate_notify, Simulates,
}
use threadx_rust.Executor.Single.{Others, Stands}
use threadx_rust.Executor.System.{
  notify_task, finish, wake, block, pass, Task, update, polling, start, Reach, begin, blocked,
  Alone, idle, Step, System,
}
use threadx_rust.Executor.Contract.{AllSet, KernelContract}
use threadx_rust.Executor.{
  release_slot, wait_flags, wait_enter, notify, claim_slot, World, ExecutorApi,
}
use threadx_rust.Executor.Waker
use threadx_rust.Executor.Waker.{
  Waker, off, awake, asleep, WakerStep, WakerRun, Act, begins, passes, sleeps, wakes, finishes,
  notifies,
}
use threadx_rust.Executor.System
use mathlib.Core.Path.{subst}
use threadx_rust.Base.{
  List, [], ◌∷◌, none, some, Option, true, false, ok, inr, inl, ◌≢◌, ℕ, zero, suc, ◌≡◌, sym, ap,
  refl,
}

module _ {K : Type 0} {os : ExecutorApi K} (c : KernelContract os) where
  begin_zero :
      (s : System K) (a : Waker) (i : ℕ) {w : World K}
      → Stands c s a
      → s.task 0 ≡ idle
      → claim_slot os s.world ≡ (ok i, w)
      → i ≡ 0
  begin_zero s off i m e p =
      cc ((claim_slot-post c s.world i p).0, first_free c s.world.signals m.1)
  begin_zero s (awake false) i m e p = absurd (cc)
  begin_zero s (awake true) i m e p = absurd (cc)
  begin_zero s (asleep false) i m e p = absurd (cc)
  begin_zero s (asleep true) i (inl m) e p = absurd (cc)
  begin_zero s (asleep true) i (inr m) e p = absurd (cc)

  blocked_one :
      (s : System K) (a : Waker) (flags : ℕ) → Stands c s a → s.task 0 ≡ blocked flags → flags ≡ 1
  blocked_one s off flags m e = absurd (cc)
  blocked_one s (awake false) flags m e = absurd (cc)
  blocked_one s (awake true) flags m e = absurd (cc)
  blocked_one s (asleep false) flags m e = cc
  blocked_one s (asleep true) flags (inl m) e = cc
  blocked_one s (asleep true) flags (inr m) e = cc

  -- What a step is in the specification, and what has happened in a run, the last first.
  unfoldable pub act : {s t : System K} → Step c Alone s t → Act
  act (begin i al p) = begins
  act (pass i e p) = passes
  act (block i e p) = sleeps
  act (wake i e all p) = wakes
  act (finish i e p) = finishes
  act (notify_task i ne p) = notifies

  unfoldable pub acts : {s t : System K} → Reach c Alone s t → List Act
  unfolding act
  acts System.here = []
  acts (System.next r x) = act x ∷ acts r

  -- Every step of the executor is a step of the specification.
  pub simulate :
      {s t : System K} (a : Waker)
      → Stands c s a
      → Others c s
      → (x : Step c Alone s t) → Simulates c a (act x) t
  unfolding act
  simulate {s} a m o (begin i {w} al p) =
      let z = begin_zero s a i m (al 0) p in
      subst
        (λ n.
          claim_slot os s.world ≡ (ok n, w)
          → Simulates c a begins (record { world = w; task = update s.task n polling }))
        (sym z) (simulate_begin c s a m o (al 0)) p
  simulate {s} a m o (pass zero e p) = simulate_pass c s a m o e p
  simulate {s} a m o (pass (suc i) e p) = absurd (cc (o i))
  simulate {s} a m o (block zero {flags} e p) = simulate_block c s a flags m o e p
  simulate {s} a m o (block (suc i) e p) = absurd (cc (o i))
  simulate {s} a m o (wake zero {flags} {w} e all p) =
      let z = blocked_one s a flags m e in
      subst
        (λ n.
          s.task 0 ≡ blocked n
          → AllSet (c.bit s.world.kernel) n
          → wait_flags os (signal os 0) n s.world ≡ (ok tt, w)
          → Simulates c a wakes (record { world = w; task = update s.task 0 polling }))
        (sym z) (simulate_wake c s a m o) e all p
  simulate {s} a m o (wake (suc i) e all p) = absurd (cc (o i))
  simulate {s} a m o (finish zero e p) = simulate_finish c s a m o e p
  simulate {s} a m o (finish (suc i) e p) = absurd (cc (o i))
  simulate {s} a m o (notify_task zero ne p) = simulate_notify c s a m o ne p
  simulate {s} a m o (notify_task (suc i) ne p) = absurd (ne (o i))

  -- On a kernel as ThreadX documents it, from a fresh start and with one `block_on` at a time: every
  -- run of the executor, whatever its task and its wakers do, is a run of the specification `Waker`
  -- in which the same happens in the same order (a `block_on` begins or finishes, its task polls
  -- again, goes to sleep or wakes, a waker is used), and the state that it reaches stands for the one
  -- that the specification reaches. So a notification that comes before the task goes to sleep makes
  -- it poll again, and one that comes later sets the flag it waits for.
  pub block_on_refines_waker :
      (w : World K) {s : System K}
      → IsFresh c w
      → (r : Reach c Alone (start w) s)
      → (a : Waker) × WakerRun off (acts r) a × Stands c s a × Others c s
  unfolding acts
  block_on_refines_waker w f System.here =
      (off, Waker.here, (refl, rw f.table refl, f.clear 0), λ i. refl)
  block_on_refines_waker w f (System.next r st) =
      let (a, q, m, o) = block_on_refines_waker w f r in
      let (b, x, m', o') = simulate a m o st in (b, Waker.next q x, m', o')

  -- On a kernel as documented, from a fresh start and with one `block_on` at a time: in every state
  -- that is reached, while the task polls, it can go on to wait or to finish without a panic.
  pub polling_never_panics :
      (w : World K) {s : System K}
      → IsFresh c w
      → Reach c Alone (start w) s
      → s.task 0 ≡ polling
      → ((r : Option ℕ) × ((wait_enter os (signal os 0) s.world).0 ≡ ok r))
        × ((release_slot os 0 s.world).0 ≡ ok tt)
  polling_never_panics w {s} f r e = let (a, _, m, _) = block_on_refines_waker w f r in go a m
    where
      go :
          (a : Waker)
          → Stands c s a
          → ((r : Option ℕ) × ((wait_enter os (signal os 0) s.world).0 ≡ ok r))
            × ((release_slot os 0 s.world).0 ≡ ok tt)
      go off m = absurd (cc)
      go (awake false) m = (
        (some 1, ap (λ x. x.0) (wait-empty c s.world 0 m.1)),
        ap (λ x. x.0) (release_slot-lem c s.world 0 m.1),
      )
      go (awake true) m = (
        (none, ap (λ x. x.0) (wait-notified c s.world 0 m.1)),
        ap (λ x. x.0) (release_slot-lem c s.world 0 m.1),
      )
      go (asleep false) m = absurd (cc)
      go (asleep true) (inl m) = absurd (cc)
      go (asleep true) (inr m) = absurd (cc)

  -- On a kernel as documented, from a fresh start and with one `block_on` at a time: in every state
  -- that is reached, while the task runs at all, it can be notified without a panic.
  pub notify_never_panics :
      (w : World K) {s : System K}
      → IsFresh c w
      → Reach c Alone (start w) s
      → s.task 0 ≢ idle
      → (notify os (signal os 0) s.world).0 ≡ ok tt
  notify_never_panics w {s} f r ne = let (a, _, m, _) = block_on_refines_waker w f r in go a m
    where
      go : (a : Waker) → Stands c s a → (notify os (signal os 0) s.world).0 ≡ ok tt
      go off m = absurd (ne m.0)
      go (awake false) m = ap (λ x. x.0) (notify-empty c s.world 0 m.1)
      go (awake true) m = ap (λ x. x.0) (notify-notified c s.world 0 m.1)
      go (asleep false) m = ap (λ x. x.0) (notify-waiting c s.world 0 m.1)
      go (asleep true) (inl m) = ap (λ x. x.0) (notify-empty c s.world 0 m.1)
      go (asleep true) (inr m) = ap (λ x. x.0) (notify-notified c s.world 0 m.1)

  flag_lit :
      (task : ℕ → Task) (s : System K) (a b : Waker) (flags : ℕ) (w' : World K)
      → task 0 ≡ blocked flags
      → Stands c (record { world = s.world; task = task }) a
      → WakerStep a notifies b
      → Stands c (record { world = w'; task = task }) b
      → c.bit w'.kernel 0 ≡ true
  flag_lit task s a off flags w' e m x m' = absurd (cc)
  flag_lit task s a (awake false) flags w' e m x m' = absurd (cc)
  flag_lit task s a (awake true) flags w' e m x m' = absurd (cc)
  flag_lit task s (awake false) (asleep false) flags w' e m x m' = elim x [ ]
  flag_lit task s off (asleep false) flags w' e m x m' = elim x [ ]
  flag_lit task s (awake true) (asleep false) flags w' e m x m' = elim x [ ]
  flag_lit task s (asleep p) (asleep false) flags w' e m x m' = elim x [ ]
  flag_lit task s a (asleep true) flags w' e m x (inl m') = m'.2
  flag_lit task s a (asleep true) flags w' e m x (inr m') = m'.2

  -- On a kernel as documented, from a fresh start and with one `block_on` at a time: when the task
  -- is blocked on some flags and is notified, then these flags are set afterwards, and its wait
  -- returns.
  pub notified_task_wakes :
      (w : World K) {s : System K} (flags : ℕ) {w' : World K}
      → IsFresh c w
      → Reach c Alone (start w) s
      → s.task 0 ≡ blocked flags
      → notify os (signal os 0) s.world ≡ (ok tt, w')
      → AllSet (c.bit w'.kernel) flags × ((wait_flags os (signal os 0) flags w').0 ≡ ok tt)
  notified_task_wakes w {s} flags {w'} f r e p =
      let (a, _, m, o) = block_on_refines_waker w f r in
      let (b, x, m', o') = simulate_notify c s a m o (λ q. cc) p in
      let lit = flag_lit s.task s a b flags w' e m x m' in
      let all : AllSet (c.bit w'.kernel) flags =
        rw (blocked_one s a flags m e) (request_one c w'.kernel lit) in
      (all, ap (λ y. y.0) (wait_flags-lem c w' 0 flags all))
