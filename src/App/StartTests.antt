-- ===== src/App/StartTests.antt =====
-- threadx-app/cross/app/src/bin/network.rs: the start of the application on a kernel whose calls
-- succeed.
use threadx_rust.Base.{
  suc, ℕ, ◌≡◌, refl, true, false, not, some, none, List, [], ◌∷◌, ok, panic, arith, ◌>>◌,
}
use threadx_rust.Allocator.{Layout, padded_size, sub_usize, add_usize}
use threadx_rust.Launch.{StartApi}
use threadx_rust.Launch.Success.{Succeeds, elem}
use threadx_rust.App.Payload.{Event, temperature_measurement, pos}
use threadx_rust.App.Define.{AppCell, AppJob, AppState, store_board, app_define}
use threadx_rust.App.HandOver.{code}
use threadx_rust.App.Defined.{app_defined_once}

-- The codes of the cells that are taken.
abbrev Kernel : Type 0
Kernel = List ℕ

abbrev api : StartApi AppCell Event Kernel
api = record {
  pools = record {
    tx_byte_pool_create = λ p n s l k. (0, tt, k);
    tx_byte_allocate = λ p n w k. (0, 640, k);
    tx_byte_release = λ p k. (0, tt, k);
    tx_byte_pool_delete = λ p k. (0, tt, k);
    tx_block_pool_create = λ p n b s l k. (0, tt, k);
    tx_block_allocate = λ p w k. (0, 640, k);
    tx_block_release = λ p k. (0, tt, k);
    tx_block_pool_prioritize = λ p k. (0, tt, k);
    tx_block_pool_delete = λ p k. (0, tt, k);
    tx_block_pool_block_size = λ p k. 8;
  };
  mutexes = record {
    tx_mutex_create = λ p n i k. (0, tt, k);
    tx_mutex_get = λ p w k. (0, tt, k);
    tx_mutex_put = λ p k. (0, tt, k);
    tx_mutex_delete = λ p k. (0, tt, k);
  };
  threads = record {
    tx_thread_create = λ c k. (0, tt, k);
    tx_thread_resume = λ p k. (0, tt, k);
    tx_thread_suspend = λ p k. (0, tt, k);
    tx_thread_delete = λ p k. (0, tt, k);
    tx_thread_sleep = λ n k. (0, tt, k);
    tx_thread_name = λ p k. 0;
    copy_tx_struct = λ p q k. k;
  };
  timers = record { tx_timer_create = λ c k. (0, tt, k) };
  flags = record {
    tx_event_flags_create = λ p n k. (0, tt, k);
    tx_event_flags_set = λ p f o k. (0, tt, k);
    tx_event_flags_get = λ p f o w k. (0, 1, k);
  };
  queues = record {
    tx_queue_create = λ p n m s z k. (0, tt, k);
    tx_queue_send = λ p m w k. (0, tt, k);
    tx_queue_receive = λ p w k. (0, temperature_measurement (pos 0), k);
  };
  init_cell = λ c k. (not (elem (code c) k), code c ∷ k);
  address = λ c. suc (code c);
  text = λ t. 500;
}

succeeds : Succeeds api code (λ k. k)
succeeds = record {
  free_cell = λ c k. (refl, refl);
  nonnull = λ c h. ground arith;
  pool_created = λ p n s l k. (refl, refl);
  allocated = λ p n w k. (refl, refl);
  queue_created = λ p n m s z k. (refl, refl);
  flags_created = λ p n k. (refl, refl);
  thread_created = λ c k. (refl, refl);
  timer_created = λ c k. (refl, refl);
  mutex_created = λ p n i k. (refl, refl);
  mutex_got = λ p w k. (refl, refl);
  mutex_put = λ p k. (refl, refl);
}

-- The closures move three pointers of four bytes each.
abbrev layout_of : ℕ → Layout
layout_of i = record { size = 12; align = 4 }

fits : (i : ℕ) → padded_size false (layout_of i) ≡ some 12
unfolding padded_size sub_usize add_usize
fits i = refl

-- The parts of the board are numbers.
abbrev State : Type 0
State = AppState ℕ ℕ ℕ (AppJob ℕ ℕ) Kernel

abbrev blank : State
blank = record {
  board = none;
  display = record { inner = none; mutex = 0; initialized = false };
  memory = record {
    boxes = λ i. none;
    kernel = record { pool_ptr = 400; initialized = false; kernel = [] };
  };
}

app_defined_once_example :
    (a' : State) × ((store_board
            (record { display = some 1; temp_sensor = some 2; i2c_bus = some 3 })
          >> app_define api false 90 layout_of 0)
        blank
      ≡ (ok tt, a'))
    × (a'.display ≡ record { inner = some 1; mutex = 90; initialized = true })
    × (a'.board ≡ some (record { display = none; temp_sensor = none; i2c_bus = none }))
    × ((app_define api false 90 layout_of 0 a').0 ≡ panic)
app_defined_once_example =
    app_defined_once succeeds 90 (λ e. ground arith) layout_of (λ i. 12) fits 1 2 3 0 0 blank
      (refl, refl)
