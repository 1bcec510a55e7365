-- ===== src/Init.antt =====
-- threadx-rs/src/lib.rs: the callbacks that start the system.
pub mod Boot
mod Tests
use threadx_rust.Base.{
  ℕ, ◌+◌, Option, none, some, Prog, Never, pure, unwrap_option, ◌>>=◌, ◌>>◌, gets, modify, panics,
}

-- A callback is a program over the rest of the state.
abbrev pub LowLevelInitCb : Type 0 → Type 0
LowLevelInitCb S = (ticks_per_second : ℕ) → Prog S Never (Unit {0})

abbrev pub AppDefineCb : Type 0 → Type 0
AppDefineCb S = (mem_start : ℕ) → Prog S Never (Unit {0})

pub record Builder (S : Type 0) : Type 0 where
  pub low_level_init_cb : LowLevelInitCb S
  pub app_define_cb : AppDefineCb S

-- The statics `INIT_CB`, `DEFINE_CB` and `_tx_initialize_unused_memory`, and the rest.
pub record Statics (S : Type 0) : Type 0 where
  pub init_cb : Option (LowLevelInitCb S)
  pub define_cb : Option (AppDefineCb S)
  pub unused_memory : ℕ
  pub rest : S

abbrev pub on_rest : {S A : Type 0} → Prog S Never A → Prog (Statics S) Never A
on_rest p s = let (o, r) = p s.rest in (o, record s { rest = r })

-- The statics before `main`.
abbrev pub blank : {S : Type 0} → S → Statics S
blank r = record { init_cb = none; define_cb = none; unused_memory = 0; rest = r }

-- How `_tx_initialize_kernel_enter` ends: the scheduler has taken over and the call does not
-- return, or it returns to its caller.
pub data Entered : Type 0 where
  scheduling : Entered
  returned : Entered

-- How `initialize` ends: in the scheduler, or behind the call with its message logged.
pub data Initialized : Type 0 where
  never_returns : Initialized
  logged : Initialized

-- `Builder::new`
unfoldable pub new : {S : Type 0} → LowLevelInitCb S → AppDefineCb S → Builder S
new low define = record { low_level_init_cb = low; app_define_cb = define }

-- What follows the entry into the kernel: the message "ThreadX kernel should never return from
-- _tx_initialize_kernel_enter", if it is reached.
unfoldable pub after_enter : Entered → Initialized
after_enter scheduling = never_returns
after_enter returned = logged

module _ {S : Type 0} where
  -- `_tx_initialize_low_level`, where `sheap` is the address of `__sheap`, a word.
  unfoldable pub tx_initialize_low_level :
      (ticks_per_second sheap : ℕ) → Prog (Statics S) Never (Unit {0})
  tx_initialize_low_level ticks_per_second sheap = do
    cb ← (λ s. unwrap_option s.init_cb s)
    on_rest (cb ticks_per_second)
    modify (λ s. record s { unused_memory = sheap + 4 })

  unfoldable pub tx_application_define : (mem_start : ℕ) → Prog (Statics S) Never (Unit {0})
  tx_application_define mem_start = do
    cb ← (λ s. unwrap_option s.define_cb s)
    on_rest (cb mem_start)

  -- `Builder::initialize`. `enter` is `_tx_initialize_kernel_enter`, which calls the two functions
  -- above.
  unfoldable pub initialize :
      (enter : (low : Prog (Statics S) Never (Unit {0}))
        → (define : ℕ → Prog (Statics S) Never (Unit {0})) → Prog (Statics S) Never Entered)
      → (ticks_per_second sheap : ℕ) → Builder S
      → Prog (Statics S) Never Initialized
  unfolding after_enter
  initialize enter ticks_per_second sheap b = do
    modify (λ s. record s { init_cb = some b.low_level_init_cb })
    modify (λ s. record s { define_cb = some b.app_define_cb })
    entered ← enter (tx_initialize_low_level ticks_per_second sheap) tx_application_define
    pure (after_enter entered)
