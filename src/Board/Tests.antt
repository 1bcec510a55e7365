-- ===== src/Board/Tests.antt =====
-- threadx-app/cross/board/src/lib.rs: a board whose hardware counts the transactions.
use threadx_rust.Base.{
  ◌==◌, ℕ, ◌+◌, ◌-◌, ◌*◌, ◌^◌, ◌≤◌, ◌<◌, ◌≡◌, ◌≢◌, ◌⊎◌, ◌↔◌, true, none, some, List, [], ◌∷◌, Prog,
  ok, panic, refl, if◌then◌else◌,
}
use threadx_rust.Board.{HardwareApi, State, Operation, write, reload, transaction, low_level_init}
use threadx_rust.Board.Reload.{reload_lem}
use threadx_rust.Board.Bus.{bus_ready, HasBus}

reload_lem_example :
    let tps : ℕ = 100 in
    ((tps ≡ 0) × (reload true tps ≡ none))
    ⊎ ((v : ℕ) × (reload true tps ≡ some v)
        × (tps * (v + 1) ≤ 96_000_000)
        × (96_000_000 < tps * (v + 2))
        × ((v < 2 ^ 24) ↔ (6 ≤ tps)))
    ⊎ ((96_000_000 < tps) × (reload true tps ≡ (if true then none else some (2 ^ 32 - 1))))
reload_lem_example = reload_lem true 100

-- A transaction fails in state 1.
abbrev hw : HardwareApi ℕ ℕ
hw = record {
  set_system_stack = λ a k. k;
  take_peripherals = λ k. (true, k);
  freeze = λ c k. k;
  take_core = λ k. (true, k);
  enable_trace = λ k. k;
  enable_cycle_counter = λ k. k;
  set_clock_source_core = λ k. k;
  set_reload = λ v k. k;
  enable_counter = λ k. k;
  enable_interrupt = λ k. k;
  i2c_new = λ khz k. (khz, k);
  transaction_slice = λ b a ops k. (if k == 1 then some 7 else none, b, k + 1);
  write_register = λ a v k. k;
}

-- A driver of one transaction.
abbrev driver :
    ((address : ℕ) → List Operation → Prog (State ℕ ℕ) ℕ (Unit {0})) → Prog (State ℕ ℕ) ℕ (Unit {0})
driver t = t 0x5f (write (1 ∷ []) ∷ [])

abbrev off : State ℕ ℕ
off = record { shared_bus = none; hardware = 2 }

abbrev on : State ℕ ℕ
on = record { shared_bus = some 400; hardware = 4 }

starts : low_level_init hw true 0x2000_8000 driver driver 100 off ≡ (ok tt, on)
unfolding low_level_init
starts = refl

bus_ready_example : ((transaction hw 0x3c [] on).0 ≢ panic) × HasBus (transaction hw 0x3c [] on).1
bus_ready_example =
    bus_ready hw true 0x2000_8000 driver driver 100 off (λ t h. h 0x5f _) (λ t h. h 0x5f _) starts
      0x3c []
