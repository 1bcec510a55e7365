-- ===== src/Mutex/OwnerTests.antt =====
-- threadx-rs/src/mutex.rs: a kernel that is the owner of its one mutex, and three threads.
use threadx_rust.Call.{no_wait, wait_forever}
use threadx_rust.Mutex.Exclusion.{lock_reenters, sent_guard_keeps_lock, guards_exclude}
use threadx_rust.Mutex.Owners.{
  released, perform, begin, acquired, may_get, run, do_write, do_lock, Op, OwnerContract, Owner,
}
use threadx_rust.Mutex.{guard, TxError, lock, drop_guard, MutexApi, Cell}
use threadx_rust.Sys
use threadx_rust.Base.{
  suc, ok, ◌≢◌, refl, if◌then◌else◌, ◌==◌, [], ◌+◌, ◌∷◌, ◌==◌, some, false, arith, none, Bool, true,
  List, ◌≡◌, ℕ,
}

abbrev cell : Cell ℕ Owner
cell = record { value = record { inner = 5; mutex = 100; initialized = true }; kernel = none }

abbrev owns : ℕ → Owner → Bool
owns t none = false
owns t (some (o, n)) = o == t

-- A get that the owner does not allow gives up.
abbrev os : ℕ → MutexApi Owner
os t = record {
  tx_mutex_create = λ p n i k. (0, tt, k);
  tx_mutex_get = λ p w k. if may_get t k then (0, tt, acquired t k) else (0x1d, tt, k);
  tx_mutex_put = λ p k. if owns t k then (0, tt, released k) else (0x1e, tt, k);
  tx_mutex_delete = λ p k. (0, tt, k);
}

contract : OwnerContract os 100
contract = record {
  owner = λ k. k;
  get_ok = get_ok;
  get_err = get_err;
  get_own = λ t w n k e. ground arith;
  put_own = λ t n k e. ground arith;
  put_other = put_other;
}
  where
    get_ok :
        (t w : ℕ) (k : Owner)
        → ((os t).tx_mutex_get 100 w k).0 ≡ Sys.tx_success
        → (may_get t k ≡ true) × (((os t).tx_mutex_get 100 w k).2 ≡ acquired t k)
    get_ok t w none h = (refl, refl)
    get_ok t w (some (o, n)) h = ground arith

    get_err :
        (t w : ℕ) (k : Owner)
        → ((os t).tx_mutex_get 100 w k).0 ≢ Sys.tx_success
        → ((os t).tx_mutex_get 100 w k).2 ≡ k
    get_err t w k h = ground arith

    put_other :
        (t : ℕ) (k : Owner) → ((n : ℕ) → k ≢ some (t, n)) → ((os t).tx_mutex_put 100 k).2 ≡ k
    put_other t none h = refl
    put_other t (some (o, n)) h = ground (arith, h n)

-- Thread 1 locks, thread 2 is refused, thread 1 writes and locks again.
abbrev ops : List (Op ℕ)
ops = do_lock 1 wait_forever ∷ do_lock 2 no_wait ∷ do_write 1 (λ x. x + 1) ∷ do_lock 1 no_wait ∷ []

held : (run os ops (begin cell)).guards 1 ≢ 0
unfolding run perform lock
held = omega arith

free : contract.owner cell.kernel ≡ none
unfolding contract
free = refl

abbrev one : ℕ
one = 1

guards_exclude_example : one ≡ 1
guards_exclude_example = guards_exclude contract (omega arith) cell refl refl free ops 1 1 held held

lock_reenters_example :
    let s = run os ops (begin cell) in
    ((lock (os 1) no_wait s.cell).0 ≡ ok guard)
    × ((perform os (do_lock 1 no_wait) s).guards 1 ≡ suc (s.guards 1))
lock_reenters_example = lock_reenters contract (omega arith) cell refl refl free ops 1 no_wait held

sent_guard_keeps_lock_example :
    let s = run os ops (begin cell) in
    let (r, left) = drop_guard (os 2) {E = TxError} guard s.cell in
    (r ≡ ok tt)
    × (contract.owner left.kernel ≡ some (1, s.guards 1))
    × ((lock (os 3) no_wait left).0 ≢ ok guard)
sent_guard_keeps_lock_example =
    sent_guard_keeps_lock contract (omega arith) cell refl refl free ops 1 2 3 no_wait held
      (omega arith) (omega arith)
