-- ===== src/Executor/CrossTalk.antt =====
-- threadx-rs/src/executor.rs: a notification of one task that wakes another.
use threadx_rust.Executor.Slots.{bit-published}
use threadx_rust.Base.{
  refl, inl, ◌∙◌, get_elem?-set_ne, set, ℕ, suc, ◌≡◌, ok, panic, some, get_elem?, arith,
}
use threadx_rust.Executor.{ExecutorApi, World, waiting, empty, notify, wait_flags, wait_enter}
use threadx_rust.Executor.Contract.{flags_get, KernelContract, AllSet}
use threadx_rust.Executor.Effects.{signal, published, notify-waiting, wait_flags-lem, wait-panic}
use threadx_rust.Executor.Simulation.{request_one}

module _ {K : Type 0} {os : ExecutorApi K} (c : KernelContract os) where
  -- On a kernel as documented, while the tasks of slot 0 and of another slot both wait: notifying
  -- the other task sets the flag of slot 0, so the task of slot 0, which nobody has notified,
  -- returns from its wait with its slot still marked as waiting. If its future is still pending,
  -- the next wait is a panic.
  pub foreign_notify_panics :
      (w : World K) (j : ℕ)
      → get_elem? w.signals 0 ≡ some waiting
      → get_elem? w.signals (suc j) ≡ some waiting
      → let (r, w1) = notify os (signal os (suc j)) w in
        let (r', w2) = wait_flags os (signal os 0) 1 w1 in
        (r ≡ ok tt) × (r' ≡ ok tt) × ((wait_enter os (signal os 0) w2).0 ≡ panic)
  foreign_notify_panics w j at0 at_j =
      let w1 : World K = record w {
        signals = set w.signals (suc j) empty;
        kernel = published c w.kernel;
      } in
      let all : AllSet (c.bit (published c w.kernel)) 1 =
        request_one c (published c w.kernel) (ground (arith, bit-published c w.kernel 0)) in
      let woken = wait_flags-lem c w1 0 1 all in
      rw (notify-waiting c w (suc j) at_j) (
        rw woken (
          refl,
          refl,
          wait-panic c (record w1 { kernel = (flags_get os 1 w1.kernel).2 }) 0
              (get_elem?-set_ne w.signals {i = suc j} {j = 0} empty (λ e. absurd (ground arith))
                ∙ at0)
              (inl refl),
        ))
