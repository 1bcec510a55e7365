-- ===== src/Demos/AsyncStart.antt =====
-- threadx-app/cross/app/src/bin/executor.rs: the closure that defines the application.
use threadx_rust.Allocator.{Layout}
use threadx_rust.Base.{Never, Prog, ℕ, Bool}
use threadx_rust.Executor.{World, Executor, ExecutorApi}
use threadx_rust.Executor
use threadx_rust.Base.{◌>>=◌, ◌>>◌}
use threadx_rust.Launch.{
  StartApi, Memory, on_kernel, init_static, init_heap, box_new, new_pool, stack_from, start_thread,
}

-- The `StaticCell`s of the program.
pub data AsyncCell : Type 0 where
  heap : AsyncCell
  bp_mem : AsyncCell
  bp : AsyncCell
  thread2 : AsyncCell

-- The closure of the thread, with the executor that it has moved in.
pub data AsyncJob : Type 0 where
  polls : Executor → AsyncJob

module _ {K : Type 0} (os : ExecutorApi K) (api : StartApi AsyncCell (Unit {0}) (World K))
    (checks : Bool) (layout : Layout) where
  -- The second closure of `main`. The state of the executor stands beside the kernel.
  unfoldable pub async_define : (mem_start : ℕ) → Prog (Memory AsyncJob (World K)) Never (Unit {0})
  unfolding init_heap new_pool stack_from init_static box_new start_thread Executor.new
  async_define mem_start = do
    at_pool ← init_static api checks bp
    mem ← init_static api checks bp_mem
    pool ← new_pool api checks at_pool mem 2048
    task2_mem ← stack_from api checks pool 1024
    init_heap api checks heap (api.text "global")
    executor ← on_kernel (Executor.new os)
    box_new api checks layout
    thread ← init_static api checks thread2
    start_thread api checks thread "thread2" (polls executor) task2_mem 1
