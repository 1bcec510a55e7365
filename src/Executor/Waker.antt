-- ===== src/Executor/Waker.antt =====
-- What one `block_on` and its wakers promise each other, with the table, the mutex and the flags
-- of threadx-rs/src/executor.rs left out.
use threadx_rust.Base.{Bool, true, false, List, [], ◌∷◌}

-- No `block_on` runs; it polls its future; it sleeps. The flag says that a notification has come
-- that no poll has answered yet.
pub data Waker : Type 0 where
  off : Waker
  awake : (pending : Bool) → Waker
  asleep : (pending : Bool) → Waker

-- What happens: a `block_on` begins, a poll has answered `Pending` and the task polls again at once or
-- goes to sleep, it is woken, the `block_on` finishes, a waker is used.
pub data Act : Type 0 where
  begins : Act
  passes : Act
  sleeps : Act
  wakes : Act
  finishes : Act
  notifies : Act

-- A notification is kept until the task has been woken; the task goes to sleep only when none is
-- pending, and wakes only when one is. It may be woken once more than it was notified.
pub data WakerStep : Waker → Act → Waker → Type 0 where
  begin : WakerStep off begins (awake false)
  pass : WakerStep (awake true) passes (awake false)
  sleep : WakerStep (awake false) sleeps (asleep false)
  wake : (pending : Bool) → WakerStep (asleep true) wakes (awake pending)
  finish : (pending : Bool) → WakerStep (awake pending) finishes off
  notify_awake : (pending : Bool) → WakerStep (awake pending) notifies (awake true)
  notify_asleep : (pending : Bool) → WakerStep (asleep pending) notifies (asleep true)

-- A run, with what has happened in it, the last first.
pub data WakerRun (a : Waker) : List Act → Waker → Type 0 where
  here : WakerRun a [] a
  next :
      {l : List Act} {x : Act} {b d : Waker}
      → WakerRun a l b
      → WakerStep b x d
      → WakerRun a (x ∷ l) d
