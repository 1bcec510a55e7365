-- ===== src/Allocator/Tests.antt =====
-- threadx-rs/src/allocator.rs and threadx-rs/src/lib.rs: allocations, and a start of the system.
use threadx_rust.Base.{ok, arith, ◌<◌, ◌+◌, ℕ, ◌≡◌, refl}
use threadx_rust.Pool.{PoolApi}
use threadx_rust.Allocator.{true, false, Allocator, alloc}
use threadx_rust.Allocator.Overrun.{alloc_overruns}

-- A pool that hands out increasing addresses.
abbrev os : PoolApi ℕ
os = record {
  tx_byte_pool_create = λ p n s l k. (0, tt, s);
  tx_byte_allocate = λ p n w k. (0, k, k + n);
  tx_byte_release = λ p k. (0, tt, k);
  tx_byte_pool_delete = λ p k. (0, tt, k);
  tx_block_pool_create = λ p n b s l k. (0, tt, k);
  tx_block_allocate = λ p w k. (0, k, k + 1);
  tx_block_release = λ p k. (0, tt, k);
  tx_block_pool_prioritize = λ p k. (0, tt, k);
  tx_block_pool_delete = λ p k. (0, tt, k);
  tx_block_pool_block_size = λ p k. 1;
}

-- The pool's next block is at an address that 8 does not divide.
abbrev odd_heap : Allocator ℕ
odd_heap = record { pool_ptr = 100; initialized = true; kernel = 1004 }

alloc_overruns_example :
    (p : ℕ) × ((alloc os false (record { size = 16; align = 8 }) odd_heap).0 ≡ ok p)
    × (1004 + 16 < p + 16)
alloc_overruns_example =
    alloc_overruns os odd_heap 16 8 (omega arith) refl (omega arith) refl refl refl (omega arith)
