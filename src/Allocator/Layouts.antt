-- ===== src/Allocator/Layouts.antt =====
-- threadx-rs/src/allocator.rs: the size that is asked for, and the pointer that is returned.
use threadx_rust.Sys
use threadx_rust.Error.Codes.{tx_checked_call-ok}
use threadx_rust.Call.{tx_checked_call}
use threadx_rust.Pool.{PoolApi}
use threadx_rust.Boxed.{Slice, as_ulong}
use threadx_rust.Base.{
  catch-ok, ok, ◌>>◌, inr, inl, ◌/◌, Bool-cases, ◌∙◌, ◌-◌, panic, ℕ, ◌+◌, ◌*◌, ◌%◌, ◌^◌, ◌≡◌, ◌≤◌,
  ◌<◌, arith,
}
use native.Mathlib.Omega.{div_any}
use native.Mathlib.Nat.{mod_self, add-mod_left, mul-mod_right, add-mod-mod}
use threadx_rust.Allocator.{
  fail, set_initialized, modify, on_kernel, initialize, ltb, some, false, true, PoolApi, add_usize,
  sub_usize, Layout, padded_size, align_offset, alloc, Allocator,
}

module _ (size align gap : ℕ) (pos : 0 < align) (whole : (size + gap) % align ≡ 0)
    (small : size + align < 2 ^ 32) where
  add_gap :
      (n : ℕ) × (add_usize false size (gap % align) ≡ some n)
      × (n % align ≡ 0)
      × (size ≤ n)
      × (n < size + align)
  unfolding add_usize
  add_gap =
      let below : gap % align < align = omega arith in
      (
        size + gap % align,
        ground arith,
        add-mod-mod size gap align ∙ whole,
        omega arith,
        omega arith,
      )

-- Without overflow checks, for an alignment that divides 2 ^ 32 and a layout whose size and
-- alignment sum to less than that, the size that is asked for is the least multiple of the
-- alignment that is not below the size of the layout.
pub padded_size_lem :
    (size align : ℕ)
    → 0 < align
    → 2 ^ 32 % align ≡ 0
    → size + align < 2 ^ 32
    → (n : ℕ) × (padded_size false (record { size = size; align = align }) ≡ some n)
      × (n % align ≡ 0)
      × (size ≤ n)
      × (n < size + align)
unfolding padded_size sub_usize add_usize
padded_size_lem size align pos pow small = elim (Bool-cases (ltb align size)) [
  | inl lt ↦
      let gap = align + 2 ^ 32 - size in
      let sum : size + gap ≡ align + 2 ^ 32 = ground arith in
      let whole : (size + gap) % align ≡ 0 = rw sum (add-mod_left align (2 ^ 32) ∙ pow) in
      rw (lt, padded_size) (add_gap size align gap pos whole small)
  | inr ge ↦
      let sum : size + (align - size) ≡ align = ground arith in
      let whole : (size + (align - size)) % align ≡ 0 = rw sum (mod_self align) in
      rw (ge, padded_size) (add_gap size align (align - size) pos whole small)
]

-- With overflow checks, every allocation whose size is above its alignment panics, and the pool is
-- not asked.
pub checked_alloc_panics :
    {K : Type 0} (os : PoolApi K) (w : Allocator K) (layout : Layout)
    → layout.align < layout.size
    → alloc os true layout w ≡ (panic, w)
unfolding alloc padded_size sub_usize
checked_alloc_panics os w layout h = ground arith

-- The pointer that `alloc` returns is aligned, for an alignment above 0, and lies less than one
-- alignment above the block.
pub align_offset_lem :
    (ptr align : ℕ)
    → 0 < align
    → ((ptr + align_offset ptr align) % align ≡ 0) × (align_offset ptr align < align)
unfolding align_offset
align_offset_lem ptr align pos =
    let gap = align - ptr % align in
    let q = ptr / align in
    let sum : ptr + gap ≡ align * (q + 1) = omega (arith, div_any ptr align) in
    (add-mod-mod ptr gap align ∙ rw sum (mul-mod_right align (q + 1)), omega arith)

-- `initialize` on a kernel that creates the pool.
pub initialize-ok :
    {K : Type 0} (os : PoolApi K) (name : ℕ) (memory : Slice) (a : Allocator K)
    → let create = os.tx_byte_pool_create a.pool_ptr name memory.ptr (as_ulong memory.len) in
      (create a.kernel).0 ≡ Sys.tx_success
      → initialize os name memory a
        ≡ (ok tt, record a { initialized = true; kernel = (create a.kernel).2 })
unfolding initialize
initialize-ok os name memory a h =
    let create = os.tx_byte_pool_create a.pool_ptr name memory.ptr (as_ulong memory.len) in
    catch-ok (tx_checked_call (on_kernel create)) (λ _. modify set_initialized)
      (λ e. (modify set_initialized >> fail e)) (tx_checked_call-ok (on_kernel create) a h)
