-- ===== src/Timer/Tests.antt =====
-- threadx-rs/src/timer.rs: a timer on a kernel that accepts it.
use threadx_rust.Time.{ticks, millis_per_tick}
use threadx_rust.Time.{millis_per_tick}
use threadx_rust.Base.{Prog, Never, pure, arith, some, ◌∷◌, true, [], ◌+◌, none, ℕ, ◌≡◌, refl}
use threadx_rust.Timer.{
  timer_trampoline, timer_callback_trampoline, TimerCreate, initialize_with_closure, ticks,
  TimerApi,
}
use threadx_rust.Boxed.{Machine}
use threadx_rust.Timer.Start.{Log, logged, timer_runs_closure}

abbrev os : TimerApi ℕ
os = record { tx_timer_create = λ c k. (0, tt, k) }

abbrev call : ℕ → Log ℕ → Log ℕ
call f s = (s.0, s.1 + f)

abbrev empty_heap : Machine ℕ (Log ℕ)
empty_heap = record { boxes = λ a. none; kernel = ([], 0) }

-- The box is allocated at 2000.
abbrev new_box : Prog (Log ℕ) Never ℕ
new_box = pure 2000

timer_runs_closure_example :
    let m' =
      (initialize_with_closure
        (logged os)
        new_box
        100
        100
        300
        7
        (record { secs = 1; nanos = 0 })
        (record { secs = 0; nanos = 25_000_000 })
        true
        empty_heap).1 in
    (c : TimerCreate) × (m'.kernel.0 ≡ c ∷ [])
    × (c.expiration ≡ timer_trampoline)
    × (c.timer_ptr ≡ 100)
    × (c.name ≡ 300)
    × (c.initial_ticks ≡ 100)
    × (c.reschedule_ticks ≡ 2)
    × (c.auto_activate ≡ 1)
    × (timer_callback_trampoline call c.expiration_input m'
        ≡ some (record m' { kernel = call 7 m'.kernel }))
unfolding ticks millis_per_tick
timer_runs_closure_example =
    timer_runs_closure os call new_box 100 100 300 7 (record { secs = 1; nanos = 0 })
      (record { secs = 0; nanos = 25_000_000 }) true empty_heap refl refl (omega arith) refl refl
