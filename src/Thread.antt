-- ===== src/Thread.antt =====
-- threadx-rs/src/thread.rs: threads.
pub mod Start
mod Tests
use mathlib.Core.Option
use threadx_rust.Base.{
  ℕ, suc, ◌-◌, ◌^◌, Bool, Option, none, some, List, ◌++◌, Prog, Never, pure, ◌>>=◌, ◌>>◌, modify,
  gets, panics, panic_if, unwrap_option, length, replicate, leb, ltb, not, ◌==◌, if◌then◌else◌,
}
use threadx_rust.Error.{TxError}
use threadx_rust.Call.{KernelCall, tx_checked_call}
use threadx_rust.Boxed.{Machine, boxed, on_kernel, as_ulong, Slice}
use threadx_rust.Time.{Duration, ticks}

-- The entry function that the kernel is given: the trampoline, or the caller's C function.
pub data Entry : Type 0 where
  box_trampoline : Entry
  c_function : Option ℕ → Entry

-- The arguments of `_tx_thread_create`; the name as the bytes behind the pointer, where the
-- wrapper makes them, and as the caller's pointer otherwise.
pub data ThreadName : Type 0 where
  local_bytes : List ℕ → ThreadName
  c_string : ℕ → ThreadName

pub record ThreadCreate : Type 0 where
  pub thread_ptr : ℕ
  pub name : ThreadName
  pub entry : Entry
  pub entry_input : ℕ
  pub stack_start : ℕ
  pub stack_size : ℕ
  pub priority : ℕ
  pub preempt_threshold : ℕ
  pub time_slice : ℕ
  pub auto_start : ℕ

-- The calls of the kernel, the name pointer in a control block, and a copy of a control block.
pub record ThreadApi (K : Type 0) : Type 0 where
  pub tx_thread_create : ThreadCreate → KernelCall K (Unit {0})
  pub tx_thread_resume : ℕ → KernelCall K (Unit {0})
  pub tx_thread_suspend : ℕ → KernelCall K (Unit {0})
  pub tx_thread_delete : ℕ → KernelCall K (Unit {0})
  pub tx_thread_sleep : ℕ → KernelCall K (Unit {0})
  pub tx_thread_name : ℕ → K → ℕ
  pub copy_tx_struct : ℕ → ℕ → K → K

pub record ThreadHandle : Type 0 where
  pub tx_ptr : ℕ

-- `[0u8; 32]` with the name copied in; `none` is the panic of the slice index.
unfoldable pub local_name : List ℕ → Option (List ℕ)
local_name name =
    if leb (length name) 32 then some (name ++ replicate (32 - length name) 0) else none

-- The closure behind the argument word is called; `none` is a read of what is no box.
unfoldable pub thread_box_callback_trampoline :
    {F K : Type 0} → (F → K → K) → ℕ → Machine F K → Option (Machine F K)
thread_box_callback_trampoline call arg m =
    Option.map (λ f. record m { kernel = call f m.kernel }) (m.boxes arg)

module _ {F K : Type 0} (os : ThreadApi K) (new_box : Prog K Never ℕ) where
  -- `self` is the address of the control block; `new_box` is the allocation of the box around the
  -- closure.
  unfoldable pub initialize_with_autostart_box :
      (self : ℕ) (name : List ℕ) (entry_function : F) (stack : Slice)
      (priority preempt_threshold time_slice : ℕ)
      → Prog (Machine F K) TxError ThreadHandle
  unfolding local_name tx_checked_call
  initialize_with_autostart_box self name entry_function stack priority preempt_threshold
        time_slice =
      do
        at ← boxed new_box entry_function
        bytes ← unwrap_option (local_name name)
        tx_checked_call (
            on_kernel (
              os.tx_thread_create (record {
                thread_ptr = self;
                name = local_bytes bytes;
                entry = box_trampoline;
                entry_input = as_ulong at;
                stack_start = stack.ptr;
                stack_size = as_ulong stack.len;
                priority = priority;
                preempt_threshold = preempt_threshold;
                time_slice = time_slice;
                auto_start = 1;
              })))
        pure (record { tx_ptr = self })

module _ {K : Type 0} (os : ThreadApi K) where
  -- The new `Thread` is a copy of the control block, placed at `dest`.
  unfoldable pub create_with_c_func :
      (self dest name : ℕ) (entry_function : Option ℕ) (arg : ℕ) (stack : Slice)
      (priority preempt_threshold time_slice : ℕ) (auto_start : Bool)
      → Prog K TxError ℕ
  unfolding tx_checked_call
  create_with_c_func self dest name entry_function arg stack priority preempt_threshold time_slice
        auto_start =
      do
        named ← gets (os.tx_thread_name self)
        panic_if (not (named == 0))
        tx_checked_call (
            os.tx_thread_create (record {
              thread_ptr = self;
              name = c_string name;
              entry = c_function entry_function;
              entry_input = arg;
              stack_start = stack.ptr;
              stack_size = as_ulong stack.len;
              priority = priority;
              preempt_threshold = preempt_threshold;
              time_slice = time_slice;
              auto_start = if auto_start then 1 else 0;
            }))
        modify (os.copy_tx_struct self dest)
        pure dest

  unfoldable pub start : ThreadHandle → Prog K TxError ThreadHandle
  unfolding tx_checked_call
  start t = do tx_checked_call (os.tx_thread_resume t.tx_ptr); pure (record { tx_ptr = t.tx_ptr })

  unfoldable pub suspend : ThreadHandle → Prog K TxError ThreadHandle
  unfolding tx_checked_call
  suspend t = do
    tx_checked_call (os.tx_thread_suspend t.tx_ptr)
    pure (record { tx_ptr = t.tx_ptr })

  unfoldable pub delete : ThreadHandle → Prog K TxError (Unit {0})
  unfolding tx_checked_call
  delete t = tx_checked_call (os.tx_thread_delete t.tx_ptr)

  unfoldable pub sleep : (ticks_per_second : ℕ) → Duration → Prog K TxError (Unit {0})
  unfolding tx_checked_call ticks
  sleep ticks_per_second d = do
    n ← unwrap_option (ticks ticks_per_second d)
    tx_checked_call (os.tx_thread_sleep n)
