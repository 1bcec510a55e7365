-- ===== src/Board.antt =====
-- threadx-app/cross/board/src/lib.rs: the low-level initialisation of the board, and its bus. What
-- it prints is left out.
pub mod Reload
pub mod Bus
mod Tests
use threadx_rust.Base.{
  ℕ, ◌/◌, ◌-◌, Bool, true, false, Option, none, some, List, [], ◌∷◌, Prog, Never, pure, fail,
  panics, panic_if, unwrap, unwrap_option, gets, modify, ◌>>=◌, ◌>>◌, ok, err, ◌==◌, ltb,
  if◌then◌else◌,
}
use threadx_rust.Allocator.{sub_usize}

-- `BoardMxAz3166`: the parts that an application may take.
pub record BoardMxAz3166 (Display Sensor Bus : Type 0) : Type 0 where
  pub display : Option Display
  pub temp_sensor : Option Sensor
  pub i2c_bus : Option Bus

-- The clock configuration that is frozen, in MHz.
pub record Clocks : Type 0 where
  pub sysclk : ℕ
  pub hclk : ℕ
  pub pclk1 : ℕ
  pub pclk2 : ℕ
  pub hse : ℕ

abbrev pub board_clocks : Clocks
board_clocks = record { sysclk = 96; hclk = 96; pclk1 = 36; pclk2 = 64; hse = 26 }

-- An operation of an I2C transaction.
pub data Operation : Type 0 where
  read : (len : ℕ) → Operation
  write : (bytes : List ℕ) → Operation

-- What the crates of the hardware give: the peripherals once each (`false` if they are taken),
-- the registers, a new I2C bus at a speed in kHz, its transactions, whose errors are codes, and
-- the drivers of the sensor and the display, which work through the transactions of a bus.
pub record HardwareApi (K Bus : Type 0) : Type 0 where
  pub set_system_stack : ℕ → K → K
  pub take_peripherals : K → Bool × K
  pub freeze : Clocks → K → K
  pub take_core : K → Bool × K
  pub enable_trace : K → K
  pub enable_cycle_counter : K → K
  pub set_clock_source_core : K → K
  pub set_reload : ℕ → K → K
  pub enable_counter : K → K
  pub enable_interrupt : K → K
  pub i2c_new : (khz : ℕ) → K → Bus × K
  pub transaction_slice : Bus → (address : ℕ) → List Operation → K → Option ℕ × Bus × K
  pub write_register : (address value : ℕ) → K → K

-- `SHARED_BUS`, and the hardware.
pub record State (K Bus : Type 0) : Type 0 where
  pub shared_bus : Option Bus
  pub hardware : K

abbrev pub on_hardware : {K Bus E : Type 0} → (K → K) → Prog (State K Bus) E (Unit {0})
on_hardware f = modify (λ s. record s { hardware = f s.hardware })

abbrev pub take_once : {K Bus E : Type 0} → (K → Bool × K) → Prog (State K Bus) E (Unit {0})
take_once f s =
    let (free, k) = f s.hardware in
    if free then pure tt (record s { hardware = k }) else panics (record s { hardware = k })

-- `(96_000_000 / ticks_per_second) - 1` on `u32`: `none` is the panic of the division by zero or,
-- with overflow checks, of the subtraction.
unfoldable pub reload : (checks : Bool) (ticks_per_second : ℕ) → Option ℕ
unfolding sub_usize
reload checks ticks_per_second =
    if ticks_per_second == 0 then none else sub_usize checks (96_000_000 / ticks_per_second) 1

module _ {K Bus : Type 0} (hw : HardwareApi K Bus) where
  -- `I2CBus::transaction`, on the bus in `SHARED_BUS`.
  unfoldable pub transaction :
      (address : ℕ) (operations : List Operation) → Prog (State K Bus) ℕ (Unit {0})
  transaction address operations s = elim s.shared_bus [
    | none ↦ panics s
    | some bus ↦
        let (error, bus', k) = hw.transaction_slice bus address operations s.hardware in
        let s' : State K Bus = record { shared_bus = some bus'; hardware = k } in
        elim error [ none ↦ pure tt s' | some e ↦ fail e s' ]
  ]

  -- The new bus goes into `SHARED_BUS`.
  unfoldable pub share_bus : {E : Type 0} → Prog (State K Bus) E (Unit {0})
  share_bus s =
      let (bus, k) = hw.i2c_new 400 s.hardware in
      pure tt (record { shared_bus = some bus; hardware = k })

  -- `low_level_init`. The drivers of the sensor and of the display are programs over the bus that
  -- they are given. It returns no error: what goes wrong is a panic.
  unfoldable pub low_level_init :
      (checks : Bool) (stack_start : ℕ)
      (sensor_build display_init : ((address : ℕ)
          → List Operation
          → Prog (State K Bus) ℕ (Unit {0}))
        → Prog (State K Bus) ℕ (Unit {0}))
      (ticks_per_second : ℕ)
      → Prog (State K Bus) Never (Unit {0})
  unfolding transaction reload share_bus
  low_level_init checks stack_start sensor_build display_init ticks_per_second = do
    on_hardware (hw.set_system_stack stack_start)
    unwrap_option (sub_usize checks stack_start 0x2000_0000)
    take_once hw.take_peripherals
    on_hardware (hw.freeze board_clocks)
    take_once hw.take_core
    on_hardware hw.enable_trace
    on_hardware hw.enable_cycle_counter
    on_hardware hw.set_clock_source_core
    value ← unwrap_option (reload checks ticks_per_second)
    on_hardware (hw.set_reload value)
    on_hardware hw.enable_counter
    on_hardware hw.enable_interrupt
    share_bus
    unwrap (sensor_build transaction)
    unwrap (display_init transaction)
    on_hardware (hw.write_register 0xE000_ED18 0x0000_0000)
    on_hardware (hw.write_register 0xE000_ED1C 0xFF00_0000)
    on_hardware (hw.write_register 0xE000_ED20 0x40FF_0000)
