-- ===== src/Launch/Started.antt =====
-- threadx-app/cross/app/src/bin: the starts of threads and timers return.
use threadx_rust.Error.Codes.{tx_checked_call-ok}
use threadx_rust.Timer.{TimerCreate}
use threadx_rust.Thread.{ThreadHandle, ThreadCreate}
use threadx_rust.Call.{tx_checked_call, KernelCall}
use threadx_rust.Timer.{initialize_with_closure, check_status, timer_trampoline}
use threadx_rust.Time.{Duration, millis_per_tick, as_millis}
use threadx_rust.Time.Rounding.{ticks-some}
use threadx_rust.Launch.{timers_beside}
use threadx_rust.Boxed
use threadx_rust.Boxed.{into_raw, boxed}
use threadx_rust.Launch.{fn_box}
use threadx_rust.Sys
use threadx_rust.Allocator.{alloc, padded_size, align_offset, sub_usize, add_usize}
use threadx_rust.Base.{false, Outcome, Never, ok, modify, ◌>>=◌, ◌+◌, arith}
use threadx_rust.Time.{ticks}
use threadx_rust.Launch.{threads_beside}
use threadx_rust.Error.{TxError}
use threadx_rust.Thread.{local_name, initialize_with_autostart_box, local_bytes, box_trampoline}
use threadx_rust.Build.Strings.{codes}
use Prim.Native.String.{String}
use threadx_rust.Allocator
use threadx_rust.Allocator.{alloc, padded_size, Layout, align_offset}
use threadx_rust.Boxed.{as_ulong, Slice}
use threadx_rust.Launch.{StartApi, Memory, start_thread}
use threadx_rust.Base.{◌^◌, ◌%◌, ◌/◌, ◌<◌, unwrap_option, unwrap}
use threadx_rust.Base.{
  ℕ, ◌≡◌, ◌∙◌, ap, true, some, List, Prog, pure, unwrap, ◌>>◌, >>=-ok, unwrap-ok, Runs,
}
use threadx_rust.Launch.Success.{Succeeds, At}
use threadx_rust.Timer.Start.{check_status-ok}

module _ {C T K : Type 0} {api : StartApi C T K} {code : C → ℕ} {taken : K → List ℕ}
    (s : Succeeds api code taken) where
  -- Without overflow checks, the second box of a closure is allocated.
  fn_box-ok :
      (a : Allocator.Allocator K)
      → a.initialized ≡ true
      → let allocate = api.pools.tx_byte_allocate a.pool_ptr (as_ulong 8) Sys.tx_wait_forever in
        (at : ℕ) × (fn_box api false a ≡ (ok at, record a { kernel = (allocate a.kernel).2 }))
  unfolding alloc padded_size sub_usize add_usize tx_checked_call
  fn_box-ok a ready =
      let allocate = api.pools.tx_byte_allocate a.pool_ptr (as_ulong 8) Sys.tx_wait_forever in
      let calm = s.allocated a.pool_ptr (as_ulong 8) Sys.tx_wait_forever a.kernel in
      ((allocate a.kernel).1 + align_offset (allocate a.kernel).1 4, ground (arith, ready, calm.0))

module _ {C T K F : Type 0} {api : StartApi C T K} {code : C → ℕ} {taken : K → List ℕ}
    (s : Succeeds api code taken) where
  abbrev Had : List ℕ → Memory F K → Type 0
  Had l = At api code taken l true

  boxed-ok :
      (closure : F) (l : List ℕ) (m : Memory F K)
      → Had l m
      → (at : ℕ) × (m' : Memory F K) × (boxed {E = TxError} (fn_box api false) closure m
          ≡ (ok at, m'))
        × Had l m'
  boxed-ok closure l m x =
      let a = m.kernel in
      let (at, e) = fn_box-ok s a x.1 in
      let calm = s.allocated a.pool_ptr (as_ulong 8) Sys.tx_wait_forever a.kernel in
      let allocate = api.pools.tx_byte_allocate a.pool_ptr (as_ulong 8) Sys.tx_wait_forever in
      let beside : Prog (Memory F K) Never ℕ =
        λ m. let (r, k) = fn_box api false m.kernel in (r, record m { kernel = k }) in
      let m1 : Memory F K = record m { kernel = record a { kernel = (allocate a.kernel).2 } } in
      let written : ℕ → Prog (Memory F K) TxError ℕ =
        λ at. (modify (into_raw closure at) >> pure at) in
      (
        at,
        into_raw closure at m1,
        >>=-ok (unwrap beside) written (
            unwrap-ok beside {k = m} (
              ap (λ (r : Outcome Never ℕ × Allocator.Allocator K). (r.0, record m { kernel = r.1 }))
                e)),
        (calm.1 ∙ x.0, x.1),
      )

  pub start_thread-Runs :
      (thread : ℕ) (name : String) (closure : F) (stack : Slice) (priority : ℕ) {bytes : List ℕ}
      (l : List ℕ)
      → local_name (codes name) ≡ some bytes
      → Runs (Had l) (Had l) (start_thread api false thread name closure stack priority)
  unfolding start_thread initialize_with_autostart_box
  start_thread-Runs thread name closure stack priority {bytes} l short = record {
    runs = λ m x.
        let (at, m1, boxing, x1) = boxed-ok closure l m x in
        let m2 : Memory F K = record m1 {
          kernel = record (m1.kernel) { kernel = (create at bytes m1.kernel.kernel).2 };
        } in
        let calm = s.thread_created (created at bytes) m1.kernel.kernel in
        let call : ℕ → List ℕ → KernelCall (Memory F K) (Unit {0}) =
          λ a b. Boxed.on_kernel (Allocator.on_kernel (create a b)) in
        let named : Prog (Memory F K) TxError (List ℕ) = unwrap_option (local_name (codes name)) in
        let rest : ℕ → List ℕ → Prog (Memory F K) TxError ThreadHandle =
          λ a b. (tx_checked_call (call a b) >> pure handle) in
        let behind_box : ℕ → Prog (Memory F K) TxError ThreadHandle = λ a. (named >>= rest a) in
        let start =
          initialize_with_autostart_box (threads_beside api.threads) (fn_box api false) thread
            (codes name) closure stack priority priority 0 in
        (
          tt,
          m2,
          >>=-ok (unwrap start) (λ _. pure tt)
              (unwrap-ok start (
                >>=-ok (boxed (fn_box api false) closure) behind_box boxing
                ∙ >>=-ok named (rest at) (ap (λ o. unwrap_option o m1) short)
                ∙ >>=-ok (tx_checked_call (call at bytes)) (λ _. pure handle)
                    (tx_checked_call-ok (call at bytes) m1 calm.0))),
          (calm.1 ∙ x1.0, x1.1),
        );
  }
    where
      handle : ThreadHandle
      handle = record { tx_ptr = thread }

      created : (at : ℕ) → List ℕ → ThreadCreate
      created at b = record {
        thread_ptr = thread;
        name = local_bytes b;
        entry = box_trampoline;
        entry_input = as_ulong at;
        stack_start = stack.ptr;
        stack_size = as_ulong stack.len;
        priority = priority;
        preempt_threshold = priority;
        time_slice = 0;
        auto_start = 1;
      }

      create : (at : ℕ) → List ℕ → KernelCall K (Unit {0})
      create at b = api.threads.tx_thread_create (created at b)

  pub timer-Runs :
      (ticks_per_second timer name : ℕ) (closure : F) (first again : Duration) (l : List ℕ)
      → 0 < millis_per_tick ticks_per_second
      → Runs {A = Unit {0}} (Had l) (Had l) (
          unwrap (
            initialize_with_closure
              (timers_beside api.timers)
              (fn_box api false)
              ticks_per_second
              timer
              name
              closure
              first
              again
              true))
  unfolding initialize_with_closure check_status
  timer-Runs ticks_per_second timer name closure first again l pos = record {
    runs = λ m x.
        let (at, m1, boxing, x1) = boxed-ok closure l m x in
        let calm =
          s.timer_created (created at (as_ticks first) (as_ticks again)) m1.kernel.kernel in
        let make : ℕ → ℕ → ℕ → KernelCall K (Unit {0}) =
          λ a t u. api.timers.tx_timer_create (created a t u) in
        let call : ℕ → ℕ → ℕ → Prog (Memory F K) TxError (Unit {0}) =
          λ a t u. check_status (Boxed.on_kernel (Allocator.on_kernel (make a t u))) in
        let m2 : Memory F K = record m1 {
          kernel = record (m1.kernel) {
            kernel = (make at (as_ticks first) (as_ticks again) m1.kernel.kernel).2;
          };
        } in
        let wait : Duration → Prog (Memory F K) TxError ℕ =
          λ d. unwrap_option (ticks ticks_per_second d) in
        (
          tt,
          m2,
          unwrap-ok
              (initialize_with_closure (timers_beside api.timers) (fn_box api false)
                ticks_per_second timer name closure first again true)
              (>>=-ok (boxed (fn_box api false) closure)
                  (λ a. (wait first >>= λ t. (wait again >>= λ u. call a t u))) boxing
                ∙ rw (ticks-some ticks_per_second first pos, ticks-some ticks_per_second again pos)
                    (check_status-ok
                      (Boxed.on_kernel
                        (Allocator.on_kernel (make at (as_ticks first) (as_ticks again))))
                      m1 calm.0)),
          (calm.1 ∙ x1.0, x1.1),
        );
  }
    where
      as_ticks : Duration → ℕ
      as_ticks d = as_millis d / millis_per_tick ticks_per_second % 2 ^ 32

      created : (at t u : ℕ) → TimerCreate
      created at t u = record {
        timer_ptr = timer;
        name = name;
        expiration = timer_trampoline;
        expiration_input = as_ulong at;
        initial_ticks = t;
        reschedule_ticks = u;
        auto_activate = 1;
      }
