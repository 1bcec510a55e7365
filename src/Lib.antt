-- ===== src/Lib.antt =====
-- Verification of threadx-rust: the Rust wrappers of the ThreadX kernel (threadx-rs), the network
-- stack on NetX Duo and the uProtocol transport of the demo application (threadx-app/cross/app),
-- its board (threadx-app/cross/board), and the build scripts of the bindings.
--
-- The wrappers turn Rust calls into calls of C functions. A C function is a parameter: a field of
-- a record `…Api K` over the state `K` of the kernel, which returns a status, what it writes
-- through out pointers, and the state after the call. Where a theorem relies on what ThreadX
-- documents of such a function, it takes a record of laws (`Contract`, `KernelContract`). A Rust
-- function is a program over the state (Base.Program): it returns, returns an `Err`, or panics.
--
-- Parts and files:
--   Base, Base.*        shared names, Boolean tests, lists and programs.
--   Sys                 constants of threadx-sys/src/lib.rs.
--   Error, Error.Codes  TxError (threadx-rs/src/error.rs).
--   Call                tx_checked_call!, tx_checked_call_no_log!, WaitOption (threadx-rs/src/lib.rs).
--   Time, Time.*        durations as ticks (threadx-rs/src/time.rs).
--   Boxed               closures on the heap, as thread.rs and timer.rs use them.
--   Thread, Timer       threads and timers (threadx-rs/src/thread.rs, timer.rs).
--   Mutex, Mutex.*      Mutex, StaticMutex and guards (threadx-rs/src/mutex.rs).
--     Protocol          the life cycle of a control block, for one user of the mutex.
--     Owners, Exclusion several threads on a kernel that knows the owner of the mutex.
--   EventFlags          event flag groups (threadx-rs/src/event_flags.rs).
--   Executor            SIGNALS, Signal::wait and notify, Executor::new and block_on
--                       (threadx-rs/src/executor.rs). `wait` is cut where the thread suspends:
--                       `wait_enter` is the critical section, `wait_flags` the wait that returns.
--     Contract          what it relies on of mutexes and event flags.
--     Effects           each operation in terms of the table and of the flags.
--     Inversion         what holds when an operation has returned.
--     System            threads that run block_on, and wakers, in any interleaving.
--     Slots, Stuck      invariants of the table, for any number of tasks.
--     Completion        block_on of a future that is woken by itself or by other threads, in any
--                       slot.
--     Waker             the specification of one block_on and its wakers, by the actions that are
--                       seen from outside.
--     Single, Simulation, Wakeups
--                       one block_on at a time.
--     CrossTalk         a notification that reaches another task.
--   Semaphore, Queue    semaphores and queues (threadx-rs/src/semaphore.rs, queue.rs).
--   Pool, Allocator     byte and block pools, the global allocator (threadx-rs/src/pool.rs,
--                       allocator.rs).
--   Init                Builder and the callbacks of the start (threadx-rs/src/lib.rs); entering the
--                       kernel ends in the scheduler, which is a result of its own, as the call
--                       does not return.
--   Network             NxError (threadx-app/cross/app/src/network/mod.rs); Stack is the
--                       TcpClientStack and Setup is initialize of network.rs beside it.
--   Uprotocol           the data model (threadx-app/cross/app/src/uprotocol_v1.rs) and Transport
--                       (minimqtransport.rs).
--   App                 the event payload and the turns of the two loops of the demo
--                       (threadx-app/cross/app/src/bin/network.rs). Shown is the contract of the
--                       kernel, the broker and the queue; Sending, Returns and Delivery are about
--                       a turn. Pipeline is both loops beside
--                       each other, InTransit where a measurement is, Turns and Screen that a
--                       turn is made of the steps of Pipeline; Screen has the turn with what it
--                       prints, which App leaves out, and Printing the loop of it beside threads
--                       that run while it sleeps. Define is the
--                       closures of `main`, Startup is do_network up to its loop, with the
--                       display and the clock. Holding, HandOver and Defined are about the
--                       former, Emptied and Once about the latter.
--   Launch, Launch.*    what the closures that define an application do alike: static cells, the
--                       heap, boxes, pools and threads; Success is a kernel on which they succeed,
--                       Steps, Started and Locks that they return there without overflow checks;
--                       Checked is the start of a thread with them. A closure takes two boxes: the
--                       one of the program, and the one that threadx-rs/src/thread.rs and timer.rs
--                       put around it.
--   Exceptions          the interrupt handlers (threadx-app/cross/app/src/threadx/exceptions.rs).
--   Build               what the build scripts read and hand to bindgen (threadx-sys/build.rs,
--                       netx-sys/build.rs); Strings are the functions on texts, Script is `main`
--                       of both, over the environment, the files, cmake and bindgen.
--   Demos               the threads of the other demos: Queue (threadx-app/cross/app/src/bin/
--                       queue.rs), Flags (event_flag.rs); Start is the closures that
--                       create the threads, Defined that they return without overflow checks (the
--                       profile for releases in threadx-app/cross/Cargo.toml), Checked what they do
--                       with them (the profile for development). Async is the thread of
--                       executor.rs, AsyncStart the closure that creates it.
--   Board               low_level_init and I2CBus::transaction (threadx-app/cross/board/src/lib.rs),
--                       over the crates of the hardware.
--   Every part has its witnesses and test kernels in modules named ...Tests.
--
-- Calls: Thread, Mutex, EventFlags, Semaphore, Queue, Pool and Allocator go through Call, and Timer
-- checks a status by itself; Thread and Timer go through Time and Boxed, Executor through
-- StaticMutex and EventFlags, the allocator through the byte pool, App through all of these, and
-- Demos through Queue, EventFlags and Thread. Launch goes through all that an application creates.
-- The callbacks of Init are where the demos call Board.
--
-- Bounds and fuel: an address or size is a natural number; a cast to the 32-bit ULONG is written
-- as `% 2 ^ 32`, and `usize` has 32 bits, with and without overflow checks. The table of signals
-- has 31 entries. The loop of block_on is on fuel, where `none` stands for a loop that goes on: one
-- more than the number of polls that answer Pending is enough. The theorems on interleavings are
-- about its critical sections in any order, which needs no fuel. The digits of an i32 are on fuel
-- 9, which is enough for ten of them.
--
-- Not modelled: generated bindings, the build script of wiced-sys, which only calls bindgen, the
-- test runner xtask, log output, the wire encoding that prost derives, and the tests.
pub mod Base
pub mod Sys
pub mod Error
pub mod Call
pub mod Time
pub mod Boxed
pub mod Thread
pub mod Timer
pub mod Mutex
pub mod EventFlags
pub mod Executor
pub mod Semaphore
pub mod Queue
pub mod Pool
pub mod Allocator
pub mod Init
pub mod Network
pub mod Uprotocol
pub mod App
pub mod Build
pub mod Launch
pub mod Demos
pub mod Board
pub mod Exceptions
