-- ===== src/Launch/Steps.antt =====
-- threadx-app/cross/app/src/bin: the steps of a start return where the kernel's calls succeed.
use threadx_rust.Call.{tx_checked_call, KernelCall}
use threadx_rust.Sys
use threadx_rust.Allocator.Layouts.{initialize-ok}
use threadx_rust.Queue
use threadx_rust.EventFlags
use threadx_rust.EventFlags.{EventFlagsGroupHandle}
use threadx_rust.Queue.{QueueSender, QueueReceiver}
use threadx_rust.Pool.{byte_initialize, byte_allocate, new_handle, consume, BytePoolHandle}
use threadx_rust.Allocator
use threadx_rust.Allocator.{alloc, padded_size, Layout, align_offset}
use threadx_rust.Boxed.{as_ulong, Slice}
use threadx_rust.Launch.{
  StartApi, Memory, on_kernel, on_allocator, init_static, init_heap, box_new, new_pool, stack_from,
}
use threadx_rust.Base.{>>=-panic, panic, Picks, ◌+◌, then-Runs, Outcome, unwrap}
use threadx_rust.Base.{
  ℕ, ◌≡◌, ◌≢◌, ◌∙◌, refl, ap, Bool, true, false, not, some, List, ◌∷◌, Never, pure, unwrap,
  unwrap-ok, Runs, arith,
}
use threadx_rust.Launch.Success.{Succeeds, At, elem, on_kernel-Runs, then-Returns, call-Returns}

module _ {C T K F : Type 0} {api : StartApi C T K} {code : C → ℕ} {taken : K → List ℕ}
    (s : Succeeds api code taken) (checks : Bool) where
  pub init_static-Picks :
      (cell : C) (l : List ℕ) (ready : Bool)
      → elem (code cell) l ≡ false
      → Picks
          (At api code taken {F = F} l ready)
          (λ at. at ≢ 0)
          (At api code taken (code cell ∷ l) ready)
          (init_static api checks cell)
  unfolding init_static
  init_static-Picks cell l ready h = record {
    picks = λ m at.
        let k = m.kernel.kernel in
        let (free, more) = s.free_cell cell k in
        let e : (api.init_cell cell k).0 ≡ true = free ∙ rw (at.0, h) refl in
        (
          api.address cell,
          record m { kernel = record (m.kernel) { kernel = (api.init_cell cell k).1 } },
          rw e refl,
          s.nonnull cell,
          (more ∙ ap (λ t. code cell ∷ t) at.0, at.1),
        );
  }

  -- A static cell is given out once.
  pub init_static-panic :
      (cell : C) (l : List ℕ) (ready : Bool) (m : Memory F K)
      → At api code taken l ready m
      → elem (code cell) l ≡ true
      → (init_static api checks cell m).0 ≡ panic
  unfolding init_static
  init_static-panic cell l ready m at h =
      let e : (api.init_cell cell m.kernel.kernel).0 ≡ false =
        (s.free_cell cell m.kernel.kernel).0 ∙ ap (λ t. not (elem (code cell) t)) at.0 ∙ ap not h in
      rw e refl

  pub init_heap-panic :
      (cell : C) (name : ℕ) (l : List ℕ) (ready : Bool) (m : Memory F K)
      → At api code taken l ready m
      → elem (code cell) l ≡ true
      → (init_heap api checks cell name m).0 ≡ panic
  unfolding init_heap
  init_heap-panic cell name l ready m at h =
      >>=-panic (init_static api checks cell)
        (λ at.
          on_allocator
            (unwrap (Allocator.initialize api.pools name (record { ptr = at; len = 1024 }))))
        (init_static-panic cell l ready m at h)

  pub init_static-Runs :
      (cell : C) (l : List ℕ) (ready : Bool)
      → elem (code cell) l ≡ false
      → Runs
          (At api code taken {F = F} l ready)
          (At api code taken (code cell ∷ l) ready)
          (init_static api checks cell)
  init_static-Runs cell l ready h = record {
    runs = λ m at.
        let (a, m', e, _, x) = (init_static-Picks cell l ready h).picks m at in (a, m', e, x);
  }

  pub init_heap-Runs :
      (cell : C) (name : ℕ) (l : List ℕ) (ready : Bool)
      → elem (code cell) l ≡ false
      → Runs
          (At api code taken {F = F} l ready)
          (At api code taken (code cell ∷ l) true)
          (init_heap api checks cell name)
  unfolding init_heap Allocator.initialize tx_checked_call
  init_heap-Runs cell name l ready h = then-Runs (init_static-Runs cell l ready h) (λ at. filled at)
    where
      filled :
          (at : ℕ)
          → Runs {A = Unit {0}}
              (At api code taken {F = F} (code cell ∷ l) ready)
              (At api code taken (code cell ∷ l) true)
              (on_allocator
                (unwrap (Allocator.initialize api.pools name (record { ptr = at; len = 1024 }))))
      filled at = record {
        runs = λ m x.
            let create = api.pools.tx_byte_pool_create m.kernel.pool_ptr name at 1024 in
            let calm = s.pool_created m.kernel.pool_ptr name at 1024 m.kernel.kernel in
            (
              tt,
              record m {
                kernel = record (m.kernel) {
                  initialized = true;
                  kernel = (create m.kernel.kernel).2;
                };
              },
              ap
                  (λ (r : Outcome Never (Unit {0}) × Allocator.Allocator K).
                    (r.0, record m { kernel = r.1 }))
                  (unwrap-ok (Allocator.initialize api.pools name (record { ptr = at; len = 1024 }))
                    (initialize-ok api.pools name (record { ptr = at; len = 1024 }) m.kernel
                      calm.0)),
              (calm.1 ∙ x.0, refl),
            );
      }

  pub box_new-Runs :
      (layout : Layout) {size : ℕ} (l : List ℕ)
      → padded_size checks layout ≡ some size
      → Runs
          (At api code taken {F = F} l true)
          (At api code taken l true)
          (box_new api checks layout)
  unfolding box_new alloc tx_checked_call
  box_new-Runs layout {size} l fits = record {
    runs = λ m x.
        let allocate =
          api.pools.tx_byte_allocate m.kernel.pool_ptr (as_ulong size) Sys.tx_wait_forever in
        let calm =
          s.allocated m.kernel.pool_ptr (as_ulong size) Sys.tx_wait_forever m.kernel.kernel in
        (
          (allocate m.kernel.kernel).1 + align_offset (allocate m.kernel.kernel).1 layout.align,
          record m { kernel = record (m.kernel) { kernel = (allocate m.kernel.kernel).2 } },
          ground arith,
          (calm.1 ∙ x.0, x.1),
        );
  }

  pub new_pool-Runs :
      (pool mem len : ℕ) (l : List ℕ) (ready : Bool)
      → pool ≢ 0
      → Runs
          (At api code taken {F = F} l ready)
          (At api code taken l ready)
          (new_pool api checks pool mem len)
  unfolding new_pool byte_initialize new_handle
  new_pool-Runs pool mem len l ready some_pool =
      on_kernel-Runs api code taken (byte_initialize api.pools pool (api.text "pool1") memory) l
        ready
        (then-Returns api code taken (tx_checked_call create) (λ _. new_handle pool)
          (call-Returns api code taken create
            (s.pool_created pool (api.text "pool1") mem (as_ulong len)))
          (λ _. λ k. (record { pool_ptr = pool }, k, ground arith, refl)))
    where
      memory : Slice
      memory = record { ptr = mem; len = len }

      create : KernelCall K (Unit {0})
      create = api.pools.tx_byte_pool_create pool (api.text "pool1") mem (as_ulong len)

  pub stack_from-Runs :
      (pool : BytePoolHandle) (size : ℕ) (l : List ℕ) (ready : Bool)
      → Runs
          (At api code taken {F = F} l ready)
          (At api code taken l ready)
          (stack_from api checks pool size)
  unfolding stack_from byte_allocate
  stack_from-Runs pool size l ready =
      then-Runs
        (on_kernel-Runs api code taken (byte_allocate api.pools pool size true) l ready (
          then-Returns api code taken (tx_checked_call allocate)
            (λ ptr. pure (record { block = record { ptr = ptr; len = size } }))
            (call-Returns api code taken allocate
              (s.allocated pool.pool_ptr (as_ulong size) Sys.tx_wait_forever))
            (λ ptr. λ k. (record { block = record { ptr = ptr; len = size } }, k, refl, refl))))
        (λ block. record { runs = λ m x. (consume block, m, refl, x) })
    where
      allocate : KernelCall K ℕ
      allocate = api.pools.tx_byte_allocate pool.pool_ptr (as_ulong size) Sys.tx_wait_forever

  pub queue-Runs :
      (size_of at name : ℕ) (memory : Slice) (l : List ℕ) (ready : Bool)
      → Runs
          (At api code taken {F = F} l ready)
          (At api code taken l ready)
          (on_kernel {F = F} (unwrap (Queue.initialize api.queues size_of at name memory)))
  unfolding Queue.initialize
  queue-Runs size_of at name memory l ready =
      on_kernel-Runs api code taken (Queue.initialize api.queues size_of at name memory) l ready (
        then-Returns api code taken (tx_checked_call create) (λ _. pure ends)
          (call-Returns api code taken create
            (s.queue_created at name (as_ulong size_of) memory.ptr (as_ulong memory.len)))
          (λ _. λ k. (ends, k, refl, refl)))
    where
      ends : QueueSender × QueueReceiver
      ends = (record { sender_ptr = at }, record { receiver_ptr = at })

      create : KernelCall K (Unit {0})
      create =
          api.queues.tx_queue_create at name (as_ulong size_of) memory.ptr (as_ulong memory.len)

  pub flags-Runs :
      (group name : ℕ) (l : List ℕ) (ready : Bool)
      → Runs
          (At api code taken {F = F} l ready)
          (At api code taken l ready)
          (on_kernel {F = F} (unwrap (EventFlags.initialize api.flags group name)))
  unfolding EventFlags.initialize
  flags-Runs group name l ready =
      on_kernel-Runs api code taken (EventFlags.initialize api.flags group name) l ready (
        then-Returns api code taken (tx_checked_call (api.flags.tx_event_flags_create group name))
          (λ _. pure handle)
          (call-Returns api code taken (api.flags.tx_event_flags_create group name)
            (s.flags_created group name))
          (λ _. λ k. (handle, k, refl, refl)))
    where
      handle : EventFlagsGroupHandle
      handle = record { flag_group_ptr = group }
