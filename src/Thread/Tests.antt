-- ===== src/Thread/Tests.antt =====
-- threadx-rs/src/thread.rs: threads on a kernel that accepts them, with closures that add a number
-- to the kernel's state.
use threadx_rust.Base.{
  refl, Prog, Never, pure, ◌++◌, arith, some, replicate, ◌∷◌, [], ◌+◌, none, ℕ, ◌≡◌,
}
use threadx_rust.Thread.{
  thread_box_callback_trampoline, box_trampoline, local_bytes, ThreadCreate,
  initialize_with_autostart_box, ThreadApi,
}
use threadx_rust.Boxed.{Machine, Slice}
use threadx_rust.Thread.Start.{Log, logged, autostart_runs_closure}

abbrev os : ThreadApi ℕ
os = record {
  tx_thread_create = λ c k. (0, tt, k);
  tx_thread_resume = λ p k. (0, tt, k);
  tx_thread_suspend = λ p k. (0, tt, k);
  tx_thread_delete = λ p k. (0, tt, k);
  tx_thread_sleep = λ p k. (0, tt, k);
  tx_thread_name = λ p k. 0;
  copy_tx_struct = λ p q k. k;
}

abbrev call : ℕ → Log ℕ → Log ℕ
call f s = (s.0, s.1 + f)

abbrev empty_heap : Machine ℕ (Log ℕ)
empty_heap = record { boxes = λ a. none; kernel = ([], 0) }

abbrev stack : Slice
stack = record { ptr = 4000; len = 1024 }

-- The box is allocated at 2000.
abbrev new_box : Prog (Log ℕ) Never ℕ
new_box = pure 2000

autostart_runs_closure_example :
    let m' =
      (initialize_with_autostart_box
        (logged os)
        new_box
        100
        (65 ∷ 66 ∷ [])
        7
        stack
        1
        1
        0
        empty_heap).1 in
    (c : ThreadCreate) × (m'.kernel.0 ≡ c ∷ [])
    × (c.name ≡ local_bytes ((65 ∷ 66 ∷ []) ++ replicate 30 0))
    × (c.entry ≡ box_trampoline)
    × (c.auto_start ≡ 1)
    × (thread_box_callback_trampoline call c.entry_input m'
        ≡ some (record m' { kernel = call 7 m'.kernel }))
autostart_runs_closure_example =
    autostart_runs_closure os call new_box 100 (65 ∷ 66 ∷ []) 7 stack 1 1 0 empty_heap refl refl
      (omega arith) (omega arith)
