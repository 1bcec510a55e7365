-- ===== src/Mutex/Protocol.antt =====
-- threadx-rs/src/mutex.rs: which calls a `Mutex` makes on its control block, and in which order.
use threadx_rust.Base.{
  ℕ, zero, suc, ◌+◌, ◌-◌, ◌≡◌, ◌≢◌, Bool, true, false, not, ◌&&◌, List, [], ◌∷◌, arith, ok, err,
  panic, Outcome, ◌==◌, ◌⊎◌, if◌then◌else◌,
}
use threadx_rust.Sys
use threadx_rust.Error.{TxError}
use threadx_rust.Call.{KernelCall, WaitOption, wait_code, tx_checked_call}
use threadx_rust.Mutex.{
  MutexApi, mutex_error, poison_error, Cell, guard, new, initialize, lock, drop_guard, drop_mutex,
  deref_mut,
}

-- A call on the control block, with whether it succeeded.
pub data Event : Type 0 where
  created : Bool → Event
  got : Bool → Event
  put : Bool → Event
  deleted : Bool → Event

-- A kernel that also records these calls, the last one first.
abbrev pub Log : Type 0 → Type 0
Log K = List Event × K

abbrev record_as :
    {K : Type 0} → (Bool → Event) → KernelCall K (Unit {0}) → KernelCall (Log K) (Unit {0})
record_as e f s = let (ret, out, k) = f s.1 in (ret, out, (e (ret == Sys.tx_success) ∷ s.0, k))

abbrev pub logged : {K : Type 0} → MutexApi K → MutexApi (Log K)
logged os = record {
  tx_mutex_create = λ p n i. record_as created (os.tx_mutex_create p n i);
  tx_mutex_get = λ p w. record_as got (os.tx_mutex_get p w);
  tx_mutex_put = λ p. record_as put (os.tx_mutex_put p);
  tx_mutex_delete = λ p. record_as deleted (os.tx_mutex_delete p);
}

-- What a control block goes through: not created, created with this many gets not yet put back,
-- deleted, and misused.
pub data Phase : Type 0 where
  fresh : Phase
  live : (held : ℕ) → Phase
  gone : Phase
  misused : Phase

abbrev pub advance : Phase → Event → Phase
advance fresh (created true) = live 0
advance fresh (created false) = fresh
advance (live n) (got true) = live (suc n)
advance (live n) (got false) = live n
advance (live (suc n)) (put _) = live n
advance (live zero) (deleted _) = gone
advance _ _ = misused

abbrev pub phase : List Event → Phase
phase [] = fresh
phase (e ∷ es) = advance (phase es) e

-- What a program does with a mutex that it neither moves nor locks with a guard that is leaked:
-- nothing forbids either (`mem::forget`, or a move behind `initialize`), and both are left out.
pub data Op (T : Type 0) : Type 0 where
  do_initialize : (name : ℕ) (inherit : Bool) → Op T
  do_lock : WaitOption → Op T
  do_write : (T → T) → Op T
  do_unlock : Op T
  do_drop : Op T

-- The mutex, the number of guards that live, and whether the mutex has been dropped.
pub record Session (T K : Type 0) : Type 0 where
  pub cell : Cell T (Log K)
  pub guards : ℕ
  pub dropped : Bool

abbrev pub locked_by : {E A : Type 0} → Outcome E A → ℕ
locked_by (ok _) = 1
locked_by (err _) = 0
locked_by panic = 0

module _ {T K : Type 0} (os : MutexApi K) where
  -- The borrow checker allows `initialize` and the drop only while no guard lives, a write and an
  -- unlock only with a guard, and nothing after the drop: such an operation is no program.
  pub perform : Op T → Session T K → Session T K
  perform (do_initialize name inherit) s =
      if s.guards == 0 && not s.dropped
      then record s { cell = (initialize (logged os) name inherit s.cell).1 }
      else s
  perform (do_lock w) s =
      if not s.dropped
      then (let (r, c) = lock (logged os) w s.cell in
          record s { cell = c; guards = s.guards + locked_by r })
      else s
  perform (do_write f) s =
      if s.guards == 0 then s else record s { cell = (deref_mut {E = TxError} guard f s.cell).1 }
  perform do_unlock s = if s.guards == 0 then s else record s {
    cell = (drop_guard (logged os) {E = TxError} guard s.cell).1;
    guards = s.guards - 1;
  }
  perform do_drop s =
      if s.guards == 0 && not s.dropped
      then record s { cell = (drop_mutex (logged os) {E = TxError} s.cell).1; dropped = true }
      else s

  pub run : List (Op T) → Session T K → Session T K
  run [] s = s
  run (op ∷ ops) s = run ops (perform op s)

abbrev pub start : {T K : Type 0} → T → (mutex : ℕ) → K → Session T K
start {T} {K} inner mutex k = record {
  cell = record { value = new inner mutex; kernel = ([], k) };
  guards = 0;
  dropped = false;
}

-- The phase that the flag, the guards and the drop call for.
abbrev pub expected : (initialized dropped : Bool) → (guards : ℕ) → Phase
expected false _ _ = fresh
expected true true _ = gone
expected true false n = live n

pub record Inv {T K : Type 0} (s : Session T K) : Type 0 where
  pub placed : s.cell.value.mutex ≢ 0
  pub unlocked : s.cell.value.initialized ≡ false → s.guards ≡ 0
  pub finished : s.dropped ≡ true → s.guards ≡ 0
  pub in_phase : phase s.cell.kernel.0 ≡ expected s.cell.value.initialized s.dropped s.guards

module _ {T K : Type 0} (os : MutexApi K) where
  perform-Inv : (op : Op T) (s : Session T K) → Inv s → Inv (perform os op s)
  unfolding perform initialize lock drop_guard drop_mutex deref_mut
  perform-Inv (do_initialize name inherit) s h = ground arith
  perform-Inv op s h = ground arith

  run-Inv : (ops : List (Op T)) (s : Session T K) → Inv s → Inv (run os ops s)
  unfolding run
  run-Inv [] s h = h
  run-Inv (op ∷ ops) s h = run-Inv ops (perform os op s) (perform-Inv op s h)

  start-Inv : (inner : T) (mutex : ℕ) (k : K) → mutex ≢ 0 → Inv (start inner mutex k)
  unfolding new
  start-Inv inner mutex k h = ground arith

  -- As long as a new `Mutex` whose control block is not at address 0 stays where it is and each of
  -- its guards is dropped in the end, so that a program does nothing but initialise, lock, write,
  -- drop a guard and drop the mutex, in any order: whatever the kernel answers, the calls on the
  -- control block follow the life cycle, one successful create first, then gets and puts with a
  -- put for each guard, then one delete. The phase that they reach is the one that the flag, the
  -- living guards and the drop call for, which is never misuse.
  pub run_in_phase :
      (inner : T) (mutex : ℕ) (k : K) (ops : List (Op T))
      → mutex ≢ 0
      → let s = run os ops (start inner mutex k) in
        (phase s.cell.kernel.0 ≡ expected s.cell.value.initialized s.dropped s.guards)
        × (phase s.cell.kernel.0 ≢ misused)
  run_in_phase inner mutex k ops h =
      let inv = run-Inv ops (start inner mutex k) (start-Inv inner mutex k h) in
      (inv.in_phase, rw inv.in_phase (expected-ne-misused _ _ _))
    where
      expected-ne-misused : (i d : Bool) (n : ℕ) → expected i d n ≢ misused
      expected-ne-misused i d n = ground arith

  -- A lock before a successful `initialize` is refused as poisoned, with no call of the kernel.
  pub lock_uninitialized :
      (c : Cell T K) (w : WaitOption)
      → c.value.initialized ≡ false
      → lock os w c ≡ (err poison_error, c)
  unfolding lock
  lock_uninitialized c w h = ground arith

  -- Once initialised, a mutex with its control block at an address other than 0 is locked exactly
  -- when the kernel grants it, and a failed lock carries an error; either way the protected value
  -- is as it was.
  pub lock_initialized :
      (c : Cell T K) (w : WaitOption)
      → c.value.initialized ≡ true
      → c.value.mutex ≢ 0
      → let (ret, out, k) = os.tx_mutex_get c.value.mutex (wait_code w) c.kernel in
        let (r, c') = lock os w c in
        (c'.value ≡ c.value)
        × (c'.kernel ≡ k)
        × (((ret ≡ Sys.tx_success) × (r ≡ ok guard))
            ⊎ ((ret ≢ Sys.tx_success) × ((e : TxError) × (r ≡ err (mutex_error e)))))
  unfolding lock tx_checked_call
  lock_initialized c w h p = ground arith
