-- ===== src/Board/Bus.antt =====
-- threadx-app/cross/board/src/lib.rs: the shared bus is there once the board is initialised.
use threadx_rust.Base.{
  unwrap_option, ℕ, ◌≡◌, ◌≢◌, Bool, none, List, Prog, Never, Outcome, ok, err, panic, unwrap, arith,
  next-Ends, then-Ends, from-Ends, next-Keeps, Keeps, Ends,
}
use threadx_rust.Board.{
  reload, board_clocks, take_once, sub_usize, share_bus, HardwareApi, State, Operation, transaction,
  low_level_init, on_hardware,
}

module _ {K Bus : Type 0} where
  abbrev pub HasBus : State K Bus → Type 0
  HasBus s = s.shared_bus ≢ none

  abbrev pub KeepsBus : Prog (State K Bus) ℕ (Unit {0}) → Type 0
  KeepsBus p = (s : State K Bus) → HasBus s → HasBus (p s).1

  -- A driver that loses the bus only if the transactions that it is given do.
  abbrev pub IsDriver :
      (((address : ℕ) → List Operation → Prog (State K Bus) ℕ (Unit {0}))
        → Prog (State K Bus) ℕ (Unit {0}))
      → Type 0
  IsDriver d =
      (t : (address : ℕ) → List Operation → Prog (State K Bus) ℕ (Unit {0}))
      → ((address : ℕ) (operations : List Operation) → KeepsBus (t address operations))
      → KeepsBus (d t)

  hardware-Keeps : (f : K → K) → Keeps HasBus (on_hardware {Bus = Bus} {E = Never} f)
  hardware-Keeps f = record { keeps = λ s h. h }

  unwrap-Keeps :
      (p : Prog (State K Bus) ℕ (Unit {0})) → KeepsBus p → Keeps HasBus (unwrap {F = Never} p)
  unwrap-Keeps p h = record { keeps = λ s b. run_unwrap (p s) (h s b) }
    where
      run_unwrap :
          (r : Outcome ℕ (Unit {0}) × State K Bus)
          → HasBus r.1
          → HasBus (unwrap {F = Never} (λ _. r) r.1).1
      run_unwrap (ok a, s) h = h
      run_unwrap (err e, s) h = h
      run_unwrap (panic, s) h = h

module _ {K Bus : Type 0} (hw : HardwareApi K Bus) where
  transaction-KeepsBus :
      (address : ℕ) (operations : List Operation) → KeepsBus (transaction hw address operations)
  unfolding transaction
  transaction-KeepsBus address operations s h = ground arith

  transaction-ne-panic :
      (address : ℕ) (operations : List Operation) (s : State K Bus)
      → HasBus s
      → (transaction hw address operations s).0 ≢ panic
  unfolding transaction
  transaction-ne-panic address operations s h = ground arith

  share_bus-Ends : Ends HasBus (share_bus hw {E = Never})
  unfolding share_bus
  share_bus-Ends = record { ends = λ s e. ground arith }

  -- Once `low_level_init` has returned, no transaction panics for want of the bus, and none takes
  -- the bus away, whatever errors they meet; this is so if the drivers of the sensor and the
  -- display touch the bus through transactions only.
  pub bus_ready :
      (checks : Bool) (stack_start : ℕ)
      (sensor_build display_init : ((address : ℕ)
          → List Operation
          → Prog (State K Bus) ℕ (Unit {0}))
        → Prog (State K Bus) ℕ (Unit {0}))
      (ticks_per_second : ℕ) (s : State K Bus) {s' : State K Bus}
      → IsDriver sensor_build
      → IsDriver display_init
      → low_level_init hw checks stack_start sensor_build display_init ticks_per_second s
        ≡ (ok tt, s')
      → (address : ℕ) (operations : List Operation)
      → ((transaction hw address operations s').0 ≢ panic)
        × HasBus (transaction hw address operations s').1
  unfolding low_level_init
  bus_ready checks stack_start sensor display tps s sd dd e address operations =
      let ready = ends.ends s e in
      (
        transaction-ne-panic address operations _ ready,
        transaction-KeepsBus address operations _ ready,
      )
    where
      ends : Ends HasBus (low_level_init hw checks stack_start sensor display tps)
      ends = next-Ends (on_hardware (hw.set_system_stack stack_start)) (
          next-Ends (λ s. unwrap_option (sub_usize checks stack_start 0x2000_0000) s)
            (next-Ends (take_once hw.take_peripherals) (
              next-Ends (on_hardware (hw.freeze board_clocks)) (
                next-Ends (take_once hw.take_core) (
                  next-Ends (on_hardware hw.enable_trace) (
                    next-Ends (on_hardware hw.enable_cycle_counter) (
                      next-Ends (on_hardware hw.set_clock_source_core) (
                        then-Ends (λ s. unwrap_option (reload checks tps) s)
                          (λ value. next-Ends (on_hardware (hw.set_reload value)) (
                            next-Ends (on_hardware hw.enable_counter) (
                              next-Ends (on_hardware hw.enable_interrupt) (
                                from-Ends share_bus-Ends (
                                  next-Keeps
                                    (unwrap-Keeps (sensor (transaction hw))
                                      (sd (transaction hw) transaction-KeepsBus))
                                    (next-Keeps
                                      (unwrap-Keeps (display (transaction hw))
                                        (dd (transaction hw) transaction-KeepsBus))
                                      (next-Keeps
                                        (hardware-Keeps (hw.write_register 0xE000_ED18 0x0000_0000))
                                        (next-Keeps
                                          (hardware-Keeps
                                            (hw.write_register 0xE000_ED1C 0xFF00_0000))
                                          (hardware-Keeps (
                                            hw.write_register 0xE000_ED20
                                              0x40FF_0000))))))))))))))))))
