-- ===== src/Demos/StartTests.antt =====
-- threadx-app/cross/app/src/bin: the starts on a kernel that knows which static cells are taken.
use threadx_rust.Base.{
  true, none, suc, ℕ, ◌≡◌, refl, false, not, some, List, [], ◌∷◌, ok, panic, arith,
}
use threadx_rust.Allocator.{Layout, padded_size, sub_usize, add_usize}
use threadx_rust.Launch.{StartApi, Memory}
use threadx_rust.Launch.Success.{Succeeds, elem}
use threadx_rust.Demos.Queue.{Event, info}
use threadx_rust.Demos.Start.{Cell, QueueJob, FlagJob, queue_define, flags_define}
use threadx_rust.Demos.Checked.{queue_define_panics}
use threadx_rust.Demos.Defined.{code, queue_defined_once, flags_defined}

-- The codes of the cells that are taken.
abbrev Kernel : Type 0
Kernel = List ℕ

abbrev api : StartApi Cell Event Kernel
api = record {
  pools = record {
    tx_byte_pool_create = λ p n s l k. (0, tt, k);
    tx_byte_allocate = λ p n w k. (0, 640, k);
    tx_byte_release = λ p k. (0, tt, k);
    tx_byte_pool_delete = λ p k. (0, tt, k);
    tx_block_pool_create = λ p n b s l k. (0, tt, k);
    tx_block_allocate = λ p w k. (0, 640, k);
    tx_block_release = λ p k. (0, tt, k);
    tx_block_pool_prioritize = λ p k. (0, tt, k);
    tx_block_pool_delete = λ p k. (0, tt, k);
    tx_block_pool_block_size = λ p k. 8;
  };
  mutexes = record {
    tx_mutex_create = λ p n i k. (0, tt, k);
    tx_mutex_get = λ p w k. (0, tt, k);
    tx_mutex_put = λ p k. (0, tt, k);
    tx_mutex_delete = λ p k. (0, tt, k);
  };
  threads = record {
    tx_thread_create = λ c k. (0, tt, k);
    tx_thread_resume = λ p k. (0, tt, k);
    tx_thread_suspend = λ p k. (0, tt, k);
    tx_thread_delete = λ p k. (0, tt, k);
    tx_thread_sleep = λ n k. (0, tt, k);
    tx_thread_name = λ p k. 0;
    copy_tx_struct = λ p q k. k;
  };
  timers = record { tx_timer_create = λ c k. (0, tt, k) };
  flags = record {
    tx_event_flags_create = λ p n k. (0, tt, k);
    tx_event_flags_set = λ p f o k. (0, tt, k);
    tx_event_flags_get = λ p f o w k. (0, 1, k);
  };
  queues = record {
    tx_queue_create = λ p n m s z k. (0, tt, k);
    tx_queue_send = λ p m w k. (0, tt, k);
    tx_queue_receive = λ p w k. (0, info 0, k);
  };
  init_cell = λ c k. (not (elem (code c) k), code c ∷ k);
  address = λ c. suc (code c);
  text = λ t. 500;
}

succeeds : Succeeds api code (λ k. k)
succeeds = record {
  free_cell = λ c k. (refl, refl);
  nonnull = λ c h. ground arith;
  pool_created = λ p n s l k. (refl, refl);
  allocated = λ p n w k. (refl, refl);
  queue_created = λ p n m s z k. (refl, refl);
  flags_created = λ p n k. (refl, refl);
  thread_created = λ c k. (refl, refl);
  timer_created = λ c k. (refl, refl);
  mutex_created = λ p n i k. (refl, refl);
  mutex_got = λ p w k. (refl, refl);
  mutex_put = λ p k. (refl, refl);
}

-- The closures move a handle, which is one pointer of four bytes.
abbrev layout_of : ℕ → Layout
layout_of i = record { size = 4; align = 4 }

fits : (i : ℕ) → padded_size false (layout_of i) ≡ some 4
unfolding padded_size sub_usize add_usize
fits i = refl

abbrev blank : {F : Type 0} → Memory F Kernel
blank = record {
  boxes = λ i. none;
  kernel = record { pool_ptr = 400; initialized = false; kernel = [] };
}

queue_defined_once_example :
    (m' : Memory QueueJob Kernel) × (queue_define api false 100 layout_of 0 blank ≡ (ok tt, m'))
    × ((queue_define api false 100 layout_of 0 m').0 ≡ panic)
queue_defined_once_example =
    queue_defined_once succeeds 100 layout_of (λ i. 4) fits 0 0 blank (refl, refl)

flags_defined_example :
    (m' : Memory FlagJob Kernel) × (flags_define api false 100 layout_of 0 blank ≡ (ok tt, m'))
flags_defined_example =
    flags_defined succeeds 100 layout_of (λ i. 4) fits (omega arith) (omega arith) 0 blank
      (refl, refl)

queue_define_panics_example : (queue_define api true 100 layout_of 0 blank).0 ≡ panic
queue_define_panics_example = queue_define_panics api 100 layout_of 0 blank
