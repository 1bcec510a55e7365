-- ===== src/Executor/System.antt =====
-- threadx-rs/src/executor.rs: threads that run `block_on`, and wakers, in any interleaving. Every
-- critical section under `SIGNALS` is one step.
use threadx_rust.Base.{ℕ, ◌≡◌, ◌≢◌, none, some, ok, ◌==◌, if◌then◌else◌}
use threadx_rust.Executor.{
  ExecutorApi, World, wait_enter, wait_flags, notify, claim_slot, release_slot,
}
use threadx_rust.Executor.Contract.{KernelContract, AllSet}
use threadx_rust.Executor.Effects.{signal}

-- Where the `block_on` stands that owns a slot: none does, it polls its future, or it waits for
-- the event flags.
pub data Task : Type 0 where
  idle : Task
  polling : Task
  blocked : (flags : ℕ) → Task

pub record System (K : Type 0) : Type 0 where
  pub world : World K
  pub task : ℕ → Task

abbrev pub update : (ℕ → Task) → ℕ → Task → ℕ → Task
update f i a j = if i == j then a else f j

-- `Admit` says when a new `block_on` may start.
module _ {K : Type 0} {os : ExecutorApi K} (c : KernelContract os)
    (Admit : (ℕ → Task) → Type 0) where
  pub data Step (s : System K) : System K → Type 0 where
    begin :
        (i : ℕ) {w : World K}
        → Admit s.task
        → claim_slot os s.world ≡ (ok i, w)
        → Step s (record { world = w; task = update s.task i polling })
    -- The future was pending, and a notification had come already.
    pass :
        (i : ℕ) {w : World K}
        → s.task i ≡ polling
        → wait_enter os (signal os i) s.world ≡ (ok none, w)
        → Step s (record { world = w; task = s.task })
    block :
        (i : ℕ) {flags : ℕ} {w : World K}
        → s.task i ≡ polling
        → wait_enter os (signal os i) s.world ≡ (ok (some flags), w)
        → Step s (record { world = w; task = update s.task i (blocked flags) })
    -- The kernel lets a waiting thread go on only when its flags are set.
    wake :
        (i : ℕ) {flags : ℕ} {w : World K}
        → s.task i ≡ blocked flags
        → AllSet (c.bit s.world.kernel) flags
        → wait_flags os (signal os i) flags s.world ≡ (ok tt, w)
        → Step s (record { world = w; task = update s.task i polling })
    finish :
        (i : ℕ) {w : World K}
        → s.task i ≡ polling
        → release_slot os i s.world ≡ (ok tt, w)
        → Step s (record { world = w; task = update s.task i idle })
    -- A waker is used while the `block_on` that made it runs.
    notify_task :
        (i : ℕ) {w : World K}
        → s.task i ≢ idle
        → notify os (signal os i) s.world ≡ (ok tt, w)
        → Step s (record { world = w; task = s.task })

  pub data Reach (s : System K) : System K → Type 0 where
    here : Reach s s
    next : {t u : System K} → Reach s t → Step t u → Reach s u

-- After `Executor::new`, on a kernel whose flags are clear.
abbrev pub start : {K : Type 0} → World K → System K
start w = record { world = w; task = λ _. idle }

abbrev pub Anyone : (ℕ → Task) → Type 0
Anyone task = Unit

abbrev pub Alone : (ℕ → Task) → Type 0
Alone task = (i : ℕ) → task i ≡ idle
