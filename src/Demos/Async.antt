-- ===== src/Demos/Async.antt =====
-- threadx-app/cross/app/src/bin/executor.rs: the futures, and the loop of the thread.
use threadx_rust.App.{ignore}
use threadx_rust.Base.{
  next-Gives, then-Gives, Gives, ℕ, zero, suc, ◌≡◌, Option, none, some, Prog, Never, ok, pure,
  unwrap_option, ◌>>=◌, ◌>>◌,
}
use threadx_rust.Executor.{
  on_kernel, ExecutorApi, World, Executor, Signal, Poll, pending, ready, poll_loop, block_on,
  claim_slot, release_slot, wait,
}
use threadx_rust.Board.{BoardMxAz3166}
use threadx_rust.Thread.{ThreadApi, sleep}

-- `test_async`, whose first poll runs it to its end, and `NeverFinished`, which only clones the
-- waker.
unfoldable pub test_async :
    {K : Type 0} → Signal → Unit {0} → Prog (World K) Never (Poll (Unit {0}) (Unit {0}))
test_async s fut = pure (ready tt)

unfoldable pub never_finished :
    {K : Type 0} → Signal → Unit {0} → Prog (World K) Never (Poll (Unit {0}) (Unit {0}))
never_finished s fut = pure (pending tt)

-- `BOARD`, and the rest.
pub record Shared (K Display Sensor Bus : Type 0) : Type 0 where
  pub board : Option (BoardMxAz3166 Display Sensor Bus)
  pub world : World K

abbrev pub on_world :
    {K Display Sensor Bus E A : Type 0}
    → Prog (World K) E A
    → Prog (Shared K Display Sensor Bus) E A
on_world p s = let (o, w) = p s.world in (o, record s { world = w })

module _ {K Display Sensor Bus : Type 0} (os : ExecutorApi K) (threads : ThreadApi K)
    (temperature_x8 : Sensor → Bus → World K → Option ℕ × Sensor × World K)
    (ticks_per_second : ℕ) where
  -- The reading of the sensor, with the interrupts off.
  unfoldable pub read_sensor : Prog (Shared K Display Sensor Bus) Never (Unit {0})
  read_sensor = do
    b ← (λ s. unwrap_option s.board s)
    sensor ← unwrap_option b.temp_sensor
    bus ← unwrap_option b.i2c_bus
    deg ← (λ s.
        let (o, sensor', w) = temperature_x8 sensor bus s.world in
        (ok o, record { board = some (record b { temp_sensor = some sensor' }); world = w }))
    unwrap_option deg
    pure tt

  -- One turn of the loop of the thread.
  unfoldable pub async_turn :
      (others : World K → World K) → Executor → Prog (Shared K Display Sensor Bus) Never (Unit {0})
  unfolding read_sensor test_async
  async_turn others executor = do
    on_world (block_on os test_async others 1 executor tt)
    read_sensor
    on_world (on_kernel (ignore (sleep threads ticks_per_second (record { secs = 5; nanos = 0 }))))

module _ {K : Type 0} (os : ExecutorApi K) (others : World K → World K) where
  any : {A : Type 0} (m : Prog (World K) Never A) → Gives (λ w. Unit {0}) (λ a w. Unit {0}) m
  any m = record { gives = λ w p e. tt }

  polling_hangs :
      (fuel : ℕ) (s : Signal)
      → Gives (λ w. Unit {0}) (λ r w. r ≡ none) (poll_loop os never_finished others fuel s tt)
  unfolding poll_loop never_finished
  polling_hangs zero s = record { gives = λ w p e. cc }
  polling_hangs (suc n) s = record {
    gives = λ w p e. (next-Gives (any (wait os others s)) (polling_hangs n s)).gives w tt e;
  }

  -- `block_on` of `NeverFinished` gives no result, whatever the other threads do: it panics, or
  -- its loop goes on after any number of polls.
  pub block_on_hangs :
      (fuel : ℕ) (executor : Executor) (w w' : World K) (r : Option (Unit {0}))
      → block_on os never_finished others fuel executor tt w ≡ (ok r, w')
      → r ≡ none
  unfolding block_on
  block_on_hangs fuel executor w w' r e = hangs.gives w tt e
    where
      finish :
          (i : ℕ) (o : Option (Unit {0}))
          → Gives {K = World K} {A = Option (Unit {0})}
              (λ w. o ≡ none)
              (λ r w. r ≡ none)
              (elim o [ none ↦ pure none | some x ↦ (release_slot os i >> pure (some x)) ])
      finish i none = record { gives = λ w p e. cc }
      finish i (some x) = record { gives = λ w p e. absurd (cc) }

      hangs :
          Gives
            (λ w. Unit {0})
            (λ r w. r ≡ none)
            (block_on os never_finished others fuel executor tt)
      hangs = then-Gives (any (claim_slot os)) (λ i.
          then-Gives
            (polling_hangs fuel
              (record { state_index = i; event_flag_handle = executor.event_handle }))
            (λ o. finish i o))
