-- ===== src/Mutex/Tests.antt =====
-- threadx-rs/src/mutex.rs: a mutex on a kernel that counts its calls.
use threadx_rust.Base.{◌==◌, if◌then◌else◌, [], ◌+◌, ◌∷◌, true, arith, List, ℕ, ◌≡◌, ◌≢◌}
use threadx_rust.Mutex.{MutexApi, Cell}
use threadx_rust.Call.{wait_forever, no_wait}
use threadx_rust.Mutex.Protocol.{
  run, start, do_lock, do_initialize, do_unlock, do_write, do_drop, Op, run_in_phase, phase,
  expected, misused,
}

-- The second get fails.
abbrev os : MutexApi ℕ
os = record {
  tx_mutex_create = λ p n i k. (0, tt, k);
  tx_mutex_get = λ p w k. (if k == 1 then 0x1d else 0, tt, k + 1);
  tx_mutex_put = λ p k. (0, tt, k);
  tx_mutex_delete = λ p k. (0, tt, k);
}

abbrev program : List (Op ℕ)
program =
    do_lock wait_forever
    ∷ do_initialize 7 true
    ∷ do_lock wait_forever
    ∷ do_lock no_wait
    ∷ do_write (λ x. x + 1)
    ∷ do_unlock
    ∷ do_drop
    ∷ []

run_in_phase_example :
    let s = run os program (start 5 100 0) in
    (phase s.cell.kernel.0 ≡ expected s.cell.value.initialized s.dropped s.guards)
    × (phase s.cell.kernel.0 ≢ misused)
run_in_phase_example = run_in_phase os 5 100 0 program (omega arith)

abbrev cell : Cell ℕ ℕ
cell = record { value = record { inner = 5; mutex = 100; initialized = true }; kernel = 1 }
