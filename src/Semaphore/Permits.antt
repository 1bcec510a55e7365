-- ===== src/Semaphore/Permits.antt =====
-- threadx-rs/src/semaphore.rs: puts and gets against the count.
use threadx_rust.Error.Codes.{tx_checked_call-err, tx_checked_call-ok}
use threadx_rust.Error.{no_instance, discriminant}
use threadx_rust.Call.{no_wait}
use threadx_rust.Semaphore.{wait_code, get, SemaphoreUserHandle, put, SemaphoreApi}
use threadx_rust.Sys
use threadx_rust.Call.{wait_code, no_wait}
use threadx_rust.Base.{
  ◌==◌, inl, inr, Bool-cases, Bool-cases, refl, err, ◌∷◌, ◌-◌, ◌^◌, ◌+◌, [], ok, ◌<◌, List, Outcome,
  ℕ, suc, ◌≡◌, arith,
}

-- What ThreadX documents of a semaphore: a put adds one to the count, which has 32 bits; a get
-- takes one, and one that does not wait fails on a count of zero.
pub record Contract {K : Type 0} (os : SemaphoreApi K) (sem_ptr : ℕ) : Type 0 where
  pub count : K → ℕ
  pub put_ok :
      (k : K)
      → count k < 2 ^ 32 - 1
      → ((os.tx_semaphore_put sem_ptr k).0 ≡ Sys.tx_success)
        × (count (os.tx_semaphore_put sem_ptr k).2 ≡ count k + 1)
  pub get_ok :
      (k : K) (wait : ℕ)
      → 0 < count k
      → ((os.tx_semaphore_get sem_ptr wait k).0 ≡ Sys.tx_success)
        × (count (os.tx_semaphore_get sem_ptr wait k).2 + 1 ≡ count k)
  pub get_zero :
      (k : K)
      → count k ≡ 0
      → ((os.tx_semaphore_get sem_ptr Sys.tx_no_wait k).0 ≡ Sys.tx_no_instance)
        × (count (os.tx_semaphore_get sem_ptr Sys.tx_no_wait k).2 ≡ 0)

pub data Op : Type 0 where
  do_put : Op
  do_get : Op

-- 1 for a success.
abbrev pub granted : {E A : Type 0} → Outcome E A → ℕ
granted (ok _) = 1
granted _ = 0

abbrev pub puts : List Op → ℕ
puts [] = 0
puts (do_put ∷ ops) = suc (puts ops)
puts (do_get ∷ ops) = puts ops

module _ {K : Type 0} (os : SemaphoreApi K) (sem_ptr : ℕ) where
  abbrev handle : SemaphoreUserHandle
  handle = record { user_ptr = sem_ptr }

  -- Puts, and gets that do not wait, one after the other: how many puts and how many gets
  -- succeeded, and the kernel after them.
  pub run : List Op → K → ℕ × ℕ × K
  run [] k = (0, 0, k)
  run (do_put ∷ ops) k =
      let (r, k') = put os handle k in let (p, g, k'') = run ops k' in (granted r + p, g, k'')
  run (do_get ∷ ops) k =
      let (r, k') = get os handle no_wait k in
      let (p, g, k'') = run ops k' in (p, granted r + g, k'')

module _ {K : Type 0} {os : SemaphoreApi K} {sem_ptr : ℕ} (c : Contract os sem_ptr) where
  put-ok :
      (k : K)
      → c.count k < 2 ^ 32 - 1
      → put os (handle os sem_ptr) k ≡ (ok tt, (os.tx_semaphore_put sem_ptr k).2)
  unfolding put
  put-ok k h = tx_checked_call-ok (os.tx_semaphore_put sem_ptr) k (c.put_ok k h).0

  get-ok :
      (k : K)
      → 0 < c.count k
      → get os (handle os sem_ptr) no_wait k
        ≡ (ok tt, (os.tx_semaphore_get sem_ptr Sys.tx_no_wait k).2)
  unfolding get wait_code
  get-ok k h = tx_checked_call-ok (os.tx_semaphore_get sem_ptr Sys.tx_no_wait) k (c.get_ok k _ h).0

  get-zero :
      (k : K)
      → c.count k ≡ 0
      → get os (handle os sem_ptr) no_wait k
        ≡ (err no_instance, (os.tx_semaphore_get sem_ptr Sys.tx_no_wait k).2)
  unfolding get wait_code discriminant
  get-zero k h =
      tx_checked_call-err (os.tx_semaphore_get sem_ptr Sys.tx_no_wait) k {e = no_instance}
        (c.get_zero k h).0

  -- On a semaphore as documented, while the count and the puts stay below 2 ^ 32, all puts of a
  -- sequence succeed, and the gets that succeed are as many as the permits that were there or were
  -- put, less those that are left.
  pub run_conserves :
      (ops : List Op) (k : K)
      → c.count k + puts ops < 2 ^ 32
      → let (p, g, k') = run os sem_ptr ops k in
        (p ≡ puts ops) × (g + c.count k' ≡ c.count k + puts ops)
  unfolding run
  run_conserves [] k h = (refl, omega arith)
  run_conserves (do_put ∷ ops) k h =
      let (_, more) = c.put_ok k (omega arith) in
      rw (put-ok k (omega arith)) (
        let (x, y) = run_conserves ops (os.tx_semaphore_put sem_ptr k).2 (omega (arith, more)) in
        (omega (arith, x), omega (arith, y, more)))
  run_conserves (do_get ∷ ops) k h = elim (Bool-cases (0 == c.count k)) [
    | inl z ↦
        let none_left = c.get_zero k (ground arith) in
        let (x, y) =
          run_conserves ops (os.tx_semaphore_get sem_ptr Sys.tx_no_wait k).2
            (ground (arith, none_left.1)) in
        rw (get-zero k (ground arith)) (x, ground (arith, y, none_left.1))
    | inr z ↦
        let (_, taken) = c.get_ok k Sys.tx_no_wait (ground arith) in
        let (x, y) =
          run_conserves ops (os.tx_semaphore_get sem_ptr Sys.tx_no_wait k).2
            (omega (arith, taken)) in
        rw (get-ok k (ground arith)) (x, omega (arith, y, taken))
  ]
