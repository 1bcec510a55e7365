-- ===== src/Semaphore/Tests.antt =====
-- threadx-rs/src/semaphore.rs: a semaphore that is its count.
use threadx_rust.Base.{◌-◌, ◌==◌, ◌+◌, if◌then◌else◌, arith, ℕ, ◌≡◌, refl, List, [], ◌∷◌}
use threadx_rust.Sys
use threadx_rust.Semaphore.{SemaphoreApi}
use threadx_rust.Semaphore.Permits.{Contract, Op, do_put, do_get, run, run_conserves}

abbrev os : SemaphoreApi ℕ
os = record {
  tx_semaphore_create = λ p n i k. (0, tt, i);
  tx_semaphore_delete = λ p k. (0, tt, k);
  tx_semaphore_get = λ p w k. if k == 0 then (Sys.tx_no_instance, tt, k) else (0, tt, k - 1);
  tx_semaphore_put = λ p k. (0, tt, k + 1);
  tx_semaphore_prioritize = λ p k. (0, tt, k);
  tx_semaphore_put_notify = λ p n k. (0, tt, k);
  tx_semaphore_name = λ p k. 0;
  first_word = λ p k. 0;
}

contract : Contract os 100
contract = record {
  count = λ k. k;
  put_ok = λ k h. (refl, refl);
  get_ok = λ k w h. ground arith;
  get_zero = λ k h. ground arith;
}

abbrev ops : List Op
ops = do_get ∷ do_put ∷ do_get ∷ do_get ∷ do_get ∷ do_put ∷ []

run_conserves_example :
    let (p, g, k') = run os 100 ops 1 in (p ≡ 2) × (g + contract.count k' ≡ contract.count 1 + 2)
unfolding contract
run_conserves_example = run_conserves contract ops 1 (omega arith)
