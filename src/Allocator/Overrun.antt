-- ===== src/Allocator/Overrun.antt =====
-- threadx-rs/src/allocator.rs: where the memory that `alloc` returns lies in the block of the pool.
use native.Mathlib.Nat.{mod-eq_of_lt, add-mod}
use mathlib.Core.Path.{subst}
use threadx_rust.Boxed.{as_ulong}
use threadx_rust.Sys
use threadx_rust.Base.{
  >>=-ok, unwrap-ok, ap, sym, ◌∙◌, ◌>>=◌, refl, sym, ◌∙◌, ◌-◌, ◌≤◌, ℕ, ◌+◌, ◌%◌, ◌^◌, ◌≡◌, ◌≢◌, ◌<◌,
  true, false, ok, arith,
}
use threadx_rust.Pool.{PoolApi}
use threadx_rust.Error.Codes.{tx_checked_call-ok}
use threadx_rust.Call.{tx_checked_call}
use threadx_rust.Allocator.{
  not, panic_if, unwrap_option, gets, pure, unwrap, Never, Prog, Allocator, alloc, padded_size,
  align_offset, on_kernel,
}
use threadx_rust.Allocator.Layouts.{padded_size_lem}

-- A size that is a multiple of the alignment already is asked for as it is.
same_size :
    (size align n : ℕ) → n % align ≡ 0 → size ≤ n → n < size + align → size % align ≡ 0 → n ≡ size
same_size size align n whole low high even =
    let r = n - size in
    let sum : size + r ≡ n = omega arith in
    let left : r % align ≡ r = mod-eq_of_lt (omega arith) in
    let zero_sum : size % align + r % align ≡ r = omega (arith, even, left) in
    let split : (size + r) % align ≡ r =
      add-mod size r align ∙ ap (λ x. x % align) zero_sum ∙ left in
    let zero_left : r ≡ 0 = sym split ∙ rw sum whole in omega (arith, zero_left, sum)

offset_pos : (ptr align : ℕ) → 0 < align → ptr % align ≢ 0 → 0 < align_offset ptr align
unfolding align_offset
offset_pos ptr align pos odd =
    let small : align - ptr % align < align = omega arith in rw (mod-eq_of_lt small) (omega arith)

module _ {K : Type 0} (os : PoolApi K) (w : Allocator K) (size align : ℕ) where
  abbrev asked : ℕ × ℕ × K
  asked = os.tx_byte_allocate w.pool_ptr size Sys.tx_wait_forever w.kernel

  -- Without overflow checks, for an alignment that divides 2 ^ 32 and a size that is a multiple of
  -- it, below 2 ^ 32 together: when the pool hands out a block that is not aligned, `alloc` returns
  -- a pointer `p` above the block's, so that `size` bytes from `p` end after the `size` bytes of
  -- the block.
  pub alloc_overruns :
      0 < align
      → 2 ^ 32 % align ≡ 0
      → size + align < 2 ^ 32
      → size % align ≡ 0
      → w.initialized ≡ true
      → asked.0 ≡ Sys.tx_success
      → asked.1 % align ≢ 0
      → (p : ℕ) × ((alloc os false (record { size = size; align = align }) w).0 ≡ ok p)
        × (asked.1 + size < p + size)
  unfolding alloc
  alloc_overruns pos pow small even ready done odd =
      let (n, padded, whole, low, high) = padded_size_lem size align pos pow small in
      let same = same_size size align n whole low high even in
      let fits : size % 2 ^ 32 ≡ size = mod-eq_of_lt (omega arith) in
      let call = on_kernel (os.tx_byte_allocate w.pool_ptr size Sys.tx_wait_forever) in
      let granted = tx_checked_call-ok call w done in
      let fetch : ℕ → Prog (Allocator K) Never ℕ = λ m.
        unwrap
          (tx_checked_call (on_kernel (os.tx_byte_allocate w.pool_ptr m Sys.tx_wait_forever))) in
      let aligned : ℕ → Prog (Allocator K) Never ℕ = λ res. pure (res + align_offset res align) in
      let rest : ℕ → Prog (Allocator K) Never ℕ = λ m.
        (gets (λ c. c.pool_ptr) >>= λ pool_ptr.
        (unwrap (
            tx_checked_call
              (on_kernel (os.tx_byte_allocate pool_ptr (as_ulong m) Sys.tx_wait_forever)))
          >>= aligned)) in
      let size_of : Prog (Allocator K) Never ℕ =
        unwrap_option (padded_size false (record { size = size; align = align })) in
      let guarded : panic_if {E = Never} (not w.initialized) w ≡ (ok tt, w) = rw ready refl in
      let sized : size_of w ≡ (ok size, w) = rw (padded, same) refl in
      let fetched : fetch (as_ulong size) w ≡ (ok asked.1, (call w).2) =
        subst (λ m. fetch m w ≡ (ok asked.1, (call w).2)) (sym fits)
          (unwrap-ok (tx_checked_call call) granted) in
      (
        asked.1 + align_offset asked.1 align,
        ap (λ r. r.0)
            (>>=-ok (panic_if (not w.initialized)) (λ _. size_of >>= rest) guarded
              ∙ >>=-ok size_of rest sized
              ∙ >>=-ok (fetch (as_ulong size)) aligned fetched),
        omega (arith, offset_pos asked.1 align pos odd),
      )
