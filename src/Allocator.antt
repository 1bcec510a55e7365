-- ===== src/Allocator.antt =====
-- threadx-rs/src/allocator.rs: the global allocator over a byte pool.
pub mod Layouts
pub mod Overrun
mod Tests
use threadx_rust.Base.{
  ℕ, ◌+◌, ◌-◌, ◌%◌, ◌^◌, Bool, true, false, not, Option, none, some, Prog, Never, pure, fail, catch,
  unwrap, unwrap_option, ◌>>=◌, ◌>>◌, gets, modify, panic_if, ltb, if◌then◌else◌,
}
use threadx_rust.Sys
use threadx_rust.Error.{TxError}
use threadx_rust.Call.{KernelCall, tx_checked_call}
use threadx_rust.Boxed.{Slice, as_ulong}
use threadx_rust.Pool.{PoolApi}

-- `usize` arithmetic on the 32-bit target. With overflow checks an overflow panics (`none`), and
-- without them it wraps.
unfoldable pub sub_usize : (checks : Bool) → ℕ → ℕ → Option ℕ
sub_usize checks a b =
    if ltb a b then (if checks then none else some (a + 2 ^ 32 - b)) else some (a - b)

unfoldable pub add_usize : (checks : Bool) → ℕ → ℕ → Option ℕ
add_usize checks a b =
    if ltb (a + b) (2 ^ 32) then some (a + b) else if checks then none else some (a + b - 2 ^ 32)

-- `core::alloc::Layout`: `align` is a power of two.
pub record Layout : Type 0 where
  pub size : ℕ
  pub align : ℕ

-- The flag of the allocator, the address of its pool, and the kernel.
pub record Allocator (K : Type 0) : Type 0 where
  pub pool_ptr : ℕ
  pub initialized : Bool
  pub kernel : K

abbrev pub on_kernel : {K A : Type 0} → KernelCall K A → KernelCall (Allocator K) A
on_kernel f c = let (ret, out, k) = f c.kernel in (ret, out, record c { kernel = k })

-- `ThreadXAllocator::new`
unfoldable pub new : {K : Type 0} → (pool_ptr : ℕ) → K → Allocator K
new pool_ptr k = record { pool_ptr = pool_ptr; initialized = false; kernel = k }

-- `<*mut u8>::align_offset`
unfoldable pub align_offset : (ptr align : ℕ) → ℕ
align_offset ptr align = (align - ptr % align) % align

abbrev set_initialized : {K : Type 0} → Allocator K → Allocator K
set_initialized c = record c { initialized = true }

-- `size + (align - size) % align`
unfoldable pub padded_size : (checks : Bool) → Layout → Option ℕ
unfolding sub_usize add_usize
padded_size checks layout = elim (sub_usize checks layout.align layout.size) [
  | none ↦ none
  | some gap ↦ add_usize checks layout.size (gap % layout.align)
]

module _ {K : Type 0} (os : PoolApi K) where
  -- The flag is set whether or not the pool was created.
  unfoldable pub initialize :
      (name : ℕ) (pool_memory : Slice) → Prog (Allocator K) TxError (Unit {0})
  unfolding tx_checked_call
  initialize name pool_memory = do
    pool_ptr ← gets (λ c. c.pool_ptr)
    catch
        (tx_checked_call (
          on_kernel
            (os.tx_byte_pool_create pool_ptr name pool_memory.ptr (as_ulong pool_memory.len))))
        (λ _. modify set_initialized) (λ e. (modify set_initialized >> fail e))

  unfoldable pub alloc : (checks : Bool) → Layout → Prog (Allocator K) Never ℕ
  alloc checks layout = do
    ready ← gets (λ c. c.initialized)
    panic_if (not ready)
    size ← unwrap_option (padded_size checks layout)
    pool_ptr ← gets (λ c. c.pool_ptr)
    res ← unwrap (
        tx_checked_call
          (on_kernel (os.tx_byte_allocate pool_ptr (as_ulong size) Sys.tx_wait_forever)))
    pure (res + align_offset res layout.align)

  unfoldable pub dealloc : (ptr : ℕ) → Layout → Prog (Allocator K) Never (Unit {0})
  unfolding tx_checked_call
  dealloc ptr layout = unwrap (tx_checked_call (on_kernel (os.tx_byte_release ptr)))
