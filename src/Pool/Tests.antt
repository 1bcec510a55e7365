-- ===== src/Pool/Tests.antt =====
-- threadx-rs/src/pool.rs: a pool that lays blocks out one after the other and never fails.
use threadx_rust.Base.{
  ℕ, ◌+◌, ◌≡◌, ◌≤◌, refl, List, [], ◌∷◌, Bool, true, false, inl, inr, Bool-cases, ◌==◌,
  if◌then◌else◌, arith,
}
use threadx_rust.Boxed.{Slice}
use threadx_rust.Pool.{PoolApi, BytePoolHandle}
use threadx_rust.Pool.Disjoint.{
  Contract, remove, ApartFrom, AllApart, run, run-AllApart, do_allocate, do_release, Op,
}

-- The blocks from the last one on, each with whether it is in use.
abbrev Blocks : Type 0
Blocks = List (Bool × ℕ)

total : Blocks → ℕ
total [] = 0
total ((u, n) ∷ l) = n + total l

in_use : Blocks → List Slice
in_use [] = []
in_use ((true, n) ∷ l) = record { ptr = total l; len = n } ∷ in_use l
in_use ((false, n) ∷ l) = in_use l

mark : ℕ → Blocks → Blocks
mark ptr [] = []
mark ptr ((true, n) ∷ l) =
    let rest = mark ptr l in if total l == ptr then (false, n) ∷ l else (true, n) ∷ rest
mark ptr ((false, n) ∷ l) = (false, n) ∷ mark ptr l

total-mark : (ptr : ℕ) (l : Blocks) → total (mark ptr l) ≡ total l
unfolding total mark
total-mark ptr [] = refl
total-mark ptr ((true, n) ∷ l) = ground (arith, total-mark ptr l)
total-mark ptr ((false, n) ∷ l) = omega (arith, total-mark ptr l)

in_use-mark : (ptr : ℕ) (l : Blocks) → in_use (mark ptr l) ≡ remove ptr (in_use l)
unfolding in_use mark remove
in_use-mark ptr [] = refl
in_use-mark ptr ((true, n) ∷ l) = elim (Bool-cases (total l == ptr)) [
  | inl same ↦ rw same refl
  | inr other ↦ rw (other, total-mark ptr l, in_use-mark ptr l) refl
]
in_use-mark ptr ((false, n) ∷ l) = in_use-mark ptr l

above : (at n : ℕ) (l : Blocks) → total l ≤ at → ApartFrom (record { ptr = at; len = n }) (in_use l)
unfolding total in_use
above at n [] h = tt
above at n ((true, m) ∷ l) h = (inr (omega arith), above at n l (omega arith))
above at n ((false, m) ∷ l) h = above at n l (omega arith)

abbrev os : PoolApi Blocks
os = record {
  tx_byte_pool_create = λ p n s l k. (0, tt, []);
  tx_byte_allocate = λ p n w k. (0, total k, (true, n) ∷ k);
  tx_byte_release = λ p k. (0, tt, mark p k);
  tx_byte_pool_delete = λ p k. (0, tt, k);
  tx_block_pool_create = λ p n b s l k. (0, tt, k);
  tx_block_allocate = λ p w k. (0, 0, k);
  tx_block_release = λ p k. (0, tt, k);
  tx_block_pool_prioritize = λ p k. (0, tt, k);
  tx_block_pool_delete = λ p k. (0, tt, k);
  tx_block_pool_block_size = λ p k. 1;
}

abbrev handle : BytePoolHandle
handle = record { pool_ptr = 100 }

contract : Contract os 100
unfolding in_use
contract = record {
  live = in_use;
  allocate_ok = λ n w k h. (refl, above (total k) n k (omega arith));
  allocate_err = λ n w k h. absurd (h refl);
  release_ok = λ p k h. in_use-mark p k;
  release_err = λ p k h. absurd (h refl);
}

abbrev ops : List Op
ops =
    do_allocate 16 true
    ∷ do_allocate 8 false
    ∷ do_release (record { ptr = 0; len = 16 })
    ∷ do_allocate 4 true
    ∷ []

run-AllApart_example :
    let (held, k) = run os handle ops ([], []) in (contract.live k ≡ held) × AllApart held
unfolding contract
run-AllApart_example =
    run-AllApart contract ops [] [] (omega arith, (omega arith, (omega arith, tt))) refl tt
