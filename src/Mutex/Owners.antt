-- ===== src/Mutex/Owners.antt =====
-- threadx-rs/src/mutex.rs: a `Mutex` whose kernel knows the owner, and what the threads do with it.
use threadx_rust.Base.{
  ℕ, zero, suc, ◌+◌, ◌-◌, ◌≡◌, ◌≢◌, Bool, true, List, [], ◌∷◌, Option, none, some, ◌==◌,
  if◌then◌else◌,
}
use threadx_rust.Sys
use threadx_rust.Error.{TxError}
use threadx_rust.Call.{WaitOption}
use threadx_rust.Mutex.{MutexApi, Cell, guard, lock, drop_guard, deref_mut}
use threadx_rust.Mutex.Protocol.{locked_by}

-- The owner of a mutex with its count of gets.
abbrev pub Owner : Type 0
Owner = Option (ℕ × ℕ)

abbrev pub may_get : (thread : ℕ) → Owner → Bool
may_get t none = true
may_get t (some (o, n)) = o == t

abbrev pub acquired : (thread : ℕ) → Owner → Owner
acquired t none = some (t, 1)
acquired t (some (o, n)) = some (o, suc n)

abbrev pub released : Owner → Owner
released none = none
released (some (o, zero)) = none
released (some (o, suc zero)) = none
released (some (o, suc (suc n))) = some (o, suc n)

-- What ThreadX documents of a mutex, whose calls `os t` are those of thread `t`: a get by the
-- owner succeeds and nests, any other get that succeeds finds the mutex free, and a put by a
-- thread that is not the owner is an error. A thread that still waits is not an owner.
pub record OwnerContract {K : Type 0} (os : ℕ → MutexApi K) (m : ℕ) : Type 0 where
  pub owner : K → Owner
  pub get_ok :
      (t w : ℕ) (k : K)
      → ((os t).tx_mutex_get m w k).0 ≡ Sys.tx_success
      → (may_get t (owner k) ≡ true) × (owner ((os t).tx_mutex_get m w k).2 ≡ acquired t (owner k))
  pub get_err :
      (t w : ℕ) (k : K)
      → ((os t).tx_mutex_get m w k).0 ≢ Sys.tx_success
      → owner ((os t).tx_mutex_get m w k).2 ≡ owner k
  pub get_own :
      (t w n : ℕ) (k : K) → owner k ≡ some (t, n) → ((os t).tx_mutex_get m w k).0 ≡ Sys.tx_success
  pub put_own :
      (t n : ℕ) (k : K)
      → owner k ≡ some (t, n)
      → owner ((os t).tx_mutex_put m k).2 ≡ released (owner k)
  pub put_other :
      (t : ℕ) (k : K)
      → ((n : ℕ) → owner k ≢ some (t, n))
      → owner ((os t).tx_mutex_put m k).2 ≡ owner k

-- What a thread does with the mutex.
pub data Op (T : Type 0) : Type 0 where
  do_lock : (thread : ℕ) → WaitOption → Op T
  do_write : (thread : ℕ) → (T → T) → Op T
  do_unlock : (thread : ℕ) → Op T

-- The mutex, and how many guards each thread has.
pub record Session (T K : Type 0) : Type 0 where
  pub cell : Cell T K
  pub guards : ℕ → ℕ

abbrev pub count_at : (ℕ → ℕ) → ℕ → ℕ → ℕ → ℕ
count_at guards t n u = if t == u then n else guards u

module _ {T K : Type 0} (os : ℕ → MutexApi K) where
  -- A thread writes and unlocks through a guard of its own.
  unfoldable pub perform : Op T → Session T K → Session T K
  perform (do_lock t w) s =
      let (r, c) = lock (os t) w s.cell in
      record { cell = c; guards = count_at s.guards t (s.guards t + locked_by r) }
  perform (do_write t f) s =
      if s.guards t == 0 then s else record s { cell = (deref_mut {E = TxError} guard f s.cell).1 }
  perform (do_unlock t) s = if s.guards t == 0 then s else record {
    cell = (drop_guard (os t) {E = TxError} guard s.cell).1;
    guards = count_at s.guards t (s.guards t - 1);
  }

  unfoldable pub run : List (Op T) → Session T K → Session T K
  run [] s = s
  run (op ∷ ops) s = run ops (perform op s)

-- The guards that the owner's count stands for.
abbrev pub share : Owner → ℕ → ℕ
share none u = 0
share (some (o, n)) u = if o == u then n else 0

-- A mutex on which no guard lives yet.
abbrev pub begin : {T K : Type 0} → Cell T K → Session T K
begin cell = record { cell = cell; guards = λ t. 0 }
