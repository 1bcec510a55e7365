-- ===== src/Launch.antt =====
-- threadx-app/cross/app/src/bin: what the closures that define an application do alike.
pub mod Success
pub mod Steps
pub mod Started
pub mod Locks
pub mod Checked
use Prim.Native.String.{String}
use threadx_rust.Base.{ℕ, Bool, true, Prog, Never, pure, panics, unwrap, ◌>>=◌, ◌>>◌, if◌then◌else◌}
use threadx_rust.Boxed.{Machine, Slice}
use threadx_rust.Allocator
use threadx_rust.Allocator.{Layout, alloc}
use threadx_rust.Pool.{PoolApi, BytePoolHandle, byte_initialize, byte_allocate, consume}
use threadx_rust.Thread.{ThreadApi, initialize_with_autostart_box}
use threadx_rust.Timer.{TimerApi}
use threadx_rust.EventFlags.{EventFlagsApi}
use threadx_rust.Queue.{QueueApi}
use threadx_rust.Build.Strings.{codes}
use threadx_rust.Mutex.{MutexApi}

-- The kernel's calls; `StaticCell::init`, which is `false` for a cell that is taken; the addresses
-- of the statics and of the texts. `C` names the static cells, `T` is the type of the messages.
pub record StartApi (C T K : Type 0) : Type 0 where
  pub pools : PoolApi K
  pub mutexes : MutexApi K
  pub threads : ThreadApi K
  pub timers : TimerApi K
  pub flags : EventFlagsApi K
  pub queues : QueueApi K T
  pub init_cell : C → K → Bool × K
  pub address : C → ℕ
  pub text : String → ℕ

-- The boxes on the heap, the global allocator, and the kernel.
abbrev pub Memory : Type 0 → Type 0 → Type 0
Memory F K = Machine F (Allocator.Allocator K)

abbrev pub on_allocator :
    {F K E A : Type 0} → Prog (Allocator.Allocator K) E A → Prog (Memory F K) E A
on_allocator p m = let (o, a) = p m.kernel in (o, record m { kernel = a })

abbrev pub on_kernel : {F K E A : Type 0} → Prog K E A → Prog (Memory F K) E A
on_kernel p = on_allocator (λ a. let (o, k) = p a.kernel in (o, record a { kernel = k }))

-- The calls on threads and timers, beside the allocator.
abbrev pub threads_beside : {K : Type 0} → ThreadApi K → ThreadApi (Allocator.Allocator K)
threads_beside os = record {
  tx_thread_create = λ c. Allocator.on_kernel (os.tx_thread_create c);
  tx_thread_resume = λ p. Allocator.on_kernel (os.tx_thread_resume p);
  tx_thread_suspend = λ p. Allocator.on_kernel (os.tx_thread_suspend p);
  tx_thread_delete = λ p. Allocator.on_kernel (os.tx_thread_delete p);
  tx_thread_sleep = λ n. Allocator.on_kernel (os.tx_thread_sleep n);
  tx_thread_name = λ p a. os.tx_thread_name p a.kernel;
  copy_tx_struct = λ p q a. record a { kernel = os.copy_tx_struct p q a.kernel };
}

abbrev pub timers_beside : {K : Type 0} → TimerApi K → TimerApi (Allocator.Allocator K)
timers_beside os = record { tx_timer_create = λ c. Allocator.on_kernel (os.tx_timer_create c) }

-- `Box::new` of a `Box<dyn FnOnce()>` or a `Box<dyn Fn()>`, which is a wide pointer.
abbrev pub fn_box :
    {C T K : Type 0} → StartApi C T K → (checks : Bool) → Prog (Allocator.Allocator K) Never ℕ
fn_box api checks = alloc api.pools checks (record { size = 8; align = 4 })

module _ {C T F K : Type 0} (api : StartApi C T K) (checks : Bool) where
  unfoldable pub init_static : C → Prog (Memory F K) Never ℕ
  init_static cell = on_kernel (λ k.
      let (free, k') = api.init_cell cell k in
      if free then pure (api.address cell) k' else panics k')

  -- `GLOBAL.initialize`
  unfoldable pub init_heap : (cell : C) (name : ℕ) → Prog (Memory F K) Never (Unit {0})
  unfolding init_static
  init_heap cell name = do
    at ← init_static cell
    on_allocator (unwrap (Allocator.initialize api.pools name (record { ptr = at; len = 1024 })))

  -- `Box::new`, on the global allocator.
  unfoldable pub box_new : Layout → Prog (Memory F K) Never ℕ
  unfolding alloc
  box_new layout = on_allocator (alloc api.pools checks layout)

  unfoldable pub new_pool : (pool mem len : ℕ) → Prog (Memory F K) Never BytePoolHandle
  unfolding byte_initialize
  new_pool pool mem len =
      on_kernel (
        unwrap
          (byte_initialize api.pools pool (api.text "pool1") (record { ptr = mem; len = len })))

  unfoldable pub stack_from : BytePoolHandle → (size : ℕ) → Prog (Memory F K) Never Slice
  unfolding byte_allocate consume
  stack_from pool size = do
    block ← on_kernel (unwrap (byte_allocate api.pools pool size true))
    pure (consume block)

  -- A thread of the given name that runs a closure, which is boxed a second time.
  unfoldable pub start_thread :
      (thread : ℕ) (name : String) → F → Slice → (priority : ℕ) → Prog (Memory F K) Never (Unit {0})
  unfolding initialize_with_autostart_box alloc
  start_thread thread name closure stack priority = do
    unwrap (
        initialize_with_autostart_box (threads_beside api.threads) (fn_box api checks) thread
          (codes name) closure stack priority priority 0)
    pure tt
