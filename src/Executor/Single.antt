-- ===== src/Executor/Single.antt =====
-- threadx-rs/src/executor.rs: one `block_on` at a time, which is then in slot 0.
use threadx_rust.Executor.Contract.{KernelContract}
use threadx_rust.Executor.{notified, waiting, empty, unused, SignalState, ExecutorApi}
use threadx_rust.Executor.System.{blocked, polling, idle, Task, System}
use threadx_rust.Executor.Waker.{Waker, off, awake, asleep}
use threadx_rust.Base.{◌⊎◌, true, some, false, get_elem?, Bool, ℕ, suc, ◌≡◌}

module _ {K : Type 0} {os : ExecutorApi K} (c : KernelContract os) where
  abbrev pub flag : System K → Bool
  flag s = c.bit s.world.kernel 0

  abbrev pub At : System K → Task → SignalState → Bool → Type 0
  At s a v b = (s.task 0 ≡ a) × (get_elem? s.world.signals 0 ≡ some v) × (flag s ≡ b)

  -- The state of the executor that stands for a state of the specification.
  abbrev pub Stands : System K → Waker → Type 0
  Stands s off = At s idle unused false
  Stands s (awake false) = At s polling empty false
  Stands s (awake true) = At s polling notified false
  Stands s (asleep false) = At s (blocked 1) waiting false
  Stands s (asleep true) = At s (blocked 1) empty true ⊎ At s (blocked 1) notified true

  abbrev pub Others : System K → Type 0
  Others s = (i : ℕ) → s.task (suc i) ≡ idle
