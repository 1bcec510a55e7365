-- ===== src/Pool.antt =====
-- threadx-rs/src/pool.rs: byte pools and block pools.
pub mod Disjoint
mod Tests
use threadx_rust.Base.{ℕ, Bool, Prog, pure, ◌>>=◌, ◌>>◌, gets, panic_if, ◌==◌, if◌then◌else◌}
use threadx_rust.Sys
use threadx_rust.Error.{TxError}
use threadx_rust.Call.{KernelCall, tx_checked_call}
use threadx_rust.Boxed.{Slice, as_ulong}

-- The calls of the kernel; an allocation writes the address of the block. The last is the field
-- `tx_block_pool_block_size` of a control block.
pub record PoolApi (K : Type 0) : Type 0 where
  pub tx_byte_pool_create : (pool_ptr name pool_start pool_size : ℕ) → KernelCall K (Unit {0})
  pub tx_byte_allocate : (pool_ptr memory_size wait_option : ℕ) → KernelCall K ℕ
  pub tx_byte_release : (memory_ptr : ℕ) → KernelCall K (Unit {0})
  pub tx_byte_pool_delete : (pool_ptr : ℕ) → KernelCall K (Unit {0})
  pub tx_block_pool_create :
      (pool_ptr name block_size pool_start pool_size : ℕ) → KernelCall K (Unit {0})
  pub tx_block_allocate : (pool_ptr wait_option : ℕ) → KernelCall K ℕ
  pub tx_block_release : (block_ptr : ℕ) → KernelCall K (Unit {0})
  pub tx_block_pool_prioritize : (pool_ptr : ℕ) → KernelCall K (Unit {0})
  pub tx_block_pool_delete : (pool_ptr : ℕ) → KernelCall K (Unit {0})
  pub tx_block_pool_block_size : (pool_ptr : ℕ) → K → ℕ

abbrev pub wait_flag : Bool → ℕ
wait_flag wait = if wait then Sys.tx_wait_forever else Sys.tx_no_wait

-- `MemoryBlock` and its `consume`
pub record MemoryBlock : Type 0 where
  pub block : Slice

unfoldable pub consume : MemoryBlock → Slice
consume m = m.block

pub record BytePoolHandle : Type 0 where
  pub pool_ptr : ℕ

-- `BytePoolHandle::new`
unfoldable pub new_handle : {K E : Type 0} → (ptr : ℕ) → Prog K E BytePoolHandle
new_handle ptr = do panic_if (ptr == 0); pure (record { pool_ptr = ptr })

pub record BlockPoolHandle : Type 0 where
  pub block_pool_ptr : ℕ

module _ {K : Type 0} (os : PoolApi K) where
  -- `BytePool::initialize`
  unfoldable pub byte_initialize :
      (pool_ptr name : ℕ) (pool_memory : Slice) → Prog K TxError BytePoolHandle
  unfolding tx_checked_call new_handle
  byte_initialize pool_ptr name pool_memory = do
    tx_checked_call
        (os.tx_byte_pool_create pool_ptr name pool_memory.ptr (as_ulong pool_memory.len))
    new_handle pool_ptr

  unfoldable pub byte_allocate :
      BytePoolHandle → (size : ℕ) (wait : Bool) → Prog K TxError MemoryBlock
  byte_allocate h size wait = do
    ptr ← tx_checked_call (os.tx_byte_allocate h.pool_ptr (as_ulong size) (wait_flag wait))
    pure (record { block = record { ptr = ptr; len = size } })

  unfoldable pub byte_release : BytePoolHandle → (mem : Slice) → Prog K TxError (Unit {0})
  byte_release h mem = tx_checked_call (os.tx_byte_release mem.ptr)

  unfoldable pub byte_delete : BytePoolHandle → Prog K TxError (Unit {0})
  byte_delete h = tx_checked_call (os.tx_byte_pool_delete h.pool_ptr)

  -- `BlockPool::initialize`
  unfoldable pub block_initialize :
      (pool_ptr name block_size : ℕ) (pool_memory : Slice) → Prog K TxError BlockPoolHandle
  unfolding tx_checked_call
  block_initialize pool_ptr name block_size pool_memory = do
    tx_checked_call (
        os.tx_block_pool_create pool_ptr name (as_ulong block_size) pool_memory.ptr
          (as_ulong pool_memory.len))
    pure (record { block_pool_ptr = pool_ptr })

  unfoldable pub block_allocate : BlockPoolHandle → (wait : Bool) → Prog K TxError Slice
  block_allocate h wait = do
    ptr ← tx_checked_call (os.tx_block_allocate h.block_pool_ptr (wait_flag wait))
    len ← gets (os.tx_block_pool_block_size h.block_pool_ptr)
    pure (record { ptr = ptr; len = len })

  unfoldable pub block_release : BlockPoolHandle → (mem : Slice) → Prog K TxError (Unit {0})
  block_release h mem = tx_checked_call (os.tx_block_release mem.ptr)

  unfoldable pub block_prioritize : BlockPoolHandle → (mem : Slice) → Prog K TxError (Unit {0})
  block_prioritize h mem = tx_checked_call (os.tx_block_pool_prioritize h.block_pool_ptr)

  unfoldable pub block_delete : BlockPoolHandle → Prog K TxError (Unit {0})
  block_delete h = tx_checked_call (os.tx_block_pool_delete h.block_pool_ptr)
