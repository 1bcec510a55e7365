-- ===== src/Timer.antt =====
-- threadx-rs/src/timer.rs: timers.
pub mod Start
mod Tests
use mathlib.Core.Option
use threadx_rust.Base.{
  ℕ, Bool, Option, none, some, Prog, Never, pure, fail, ◌>>=◌, ◌>>◌, modify, unwrap_option, ◌==◌,
  if◌then◌else◌,
}
use threadx_rust.Sys
use threadx_rust.Error.{TxError, from_u32}
use threadx_rust.Call.{KernelCall}
use threadx_rust.Boxed.{Machine, boxed, on_kernel, as_ulong}
use threadx_rust.Time.{Duration, ticks}

pub data Expiration : Type 0 where
  timer_trampoline : Expiration
  c_function : Option ℕ → Expiration

-- The arguments of `_tx_timer_create`.
pub record TimerCreate : Type 0 where
  pub timer_ptr : ℕ
  pub name : ℕ
  pub expiration : Expiration
  pub expiration_input : ℕ
  pub initial_ticks : ℕ
  pub reschedule_ticks : ℕ
  pub auto_activate : ℕ

pub record TimerApi (K : Type 0) : Type 0 where
  pub tx_timer_create : TimerCreate → KernelCall K (Unit {0})

-- The closure behind the argument word is called; `none` is a read of what is no box.
unfoldable pub timer_callback_trampoline :
    {F K : Type 0} → (F → K → K) → ℕ → Machine F K → Option (Machine F K)
timer_callback_trampoline call arg m =
    Option.map (λ f. record m { kernel = call f m.kernel }) (m.boxes arg)

-- The status check that both functions write out: an unknown status panics.
unfoldable pub check_status : {K : Type 0} → KernelCall K (Unit {0}) → Prog K TxError (Unit {0})
check_status f k =
    let (ret, out, k') = f k in
    if ret == Sys.tx_success then pure tt k' else (unwrap_option (from_u32 ret) >>= fail) k'

-- `new_box` is the allocation of the box around the closure.
unfoldable pub initialize_with_closure :
    {F K : Type 0} (os : TimerApi K) (new_box : Prog K Never ℕ) (ticks_per_second : ℕ)
    (self name : ℕ) (expiration_function : F) (initial_ticks reschedule_ticks : Duration)
    (auto_activate : Bool)
    → Prog (Machine F K) TxError (Unit {0})
unfolding ticks check_status
initialize_with_closure os new_box ticks_per_second self name expiration_function initial_ticks
      reschedule_ticks auto_activate =
    do
      at ← boxed new_box expiration_function
      first ← unwrap_option (ticks ticks_per_second initial_ticks)
      again ← unwrap_option (ticks ticks_per_second reschedule_ticks)
      check_status (
          on_kernel (
            os.tx_timer_create (record {
              timer_ptr = self;
              name = name;
              expiration = timer_trampoline;
              expiration_input = as_ulong at;
              initial_ticks = first;
              reschedule_ticks = again;
              auto_activate = if auto_activate then 1 else 0;
            })))

unfoldable pub initialize_with_fn :
    {K : Type 0} (os : TimerApi K) (ticks_per_second : ℕ) (self name : ℕ)
    (expiration_function : Option ℕ) (expiration_arg : ℕ)
    (initial_ticks reschedule_ticks : Duration) (auto_activate : Bool)
    → Prog K TxError (Unit {0})
unfolding ticks check_status
initialize_with_fn os ticks_per_second self name expiration_function expiration_arg initial_ticks
      reschedule_ticks auto_activate =
    do
      first ← unwrap_option (ticks ticks_per_second initial_ticks)
      again ← unwrap_option (ticks ticks_per_second reschedule_ticks)
      check_status (
          os.tx_timer_create (record {
            timer_ptr = self;
            name = name;
            expiration = c_function expiration_function;
            expiration_input = expiration_arg;
            initial_ticks = first;
            reschedule_ticks = again;
            auto_activate = if auto_activate then 1 else 0;
          }))
