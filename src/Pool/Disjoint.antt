-- ===== src/Pool/Disjoint.antt =====
-- threadx-rs/src/pool.rs: the blocks of a byte pool that are in use.
use threadx_rust.Base.{
  Outcome, panic, ap, sym, ◌∙◌, run_next, ap, pure, Prog, err, ok, ◌^◌, ◌<◌, inr, ◌≤◌, Bool-cases,
  ◌+◌, ◌≢◌, inl, ℕ, ◌≡◌, List, [], ◌∷◌, Bool, if◌then◌else◌, ◌==◌, ◌⊎◌,
}
use native.Mathlib.Nat.{mod-eq_of_lt}
use mathlib.Core.Path.{subst}
use threadx_rust.Sys
use threadx_rust.Boxed.{Slice, as_ulong}
use threadx_rust.Error.Codes.{tx_checked_call_lem}
use threadx_rust.Pool.{
  TxError, MemoryBlock, consume, PoolApi, BytePoolHandle, byte_allocate, byte_release, wait_flag,
}

-- Two pieces of memory that share no byte.
abbrev pub Apart : Slice → Slice → Type 0
Apart a b = (a.ptr + a.len ≤ b.ptr) ⊎ (b.ptr + b.len ≤ a.ptr)

abbrev pub ApartFrom : Slice → List Slice → Type 0
ApartFrom b [] = Unit
ApartFrom b (a ∷ l) = Apart b a × ApartFrom b l

abbrev pub AllApart : List Slice → Type 0
AllApart [] = Unit
AllApart (b ∷ l) = ApartFrom b l × AllApart l

-- Without the first block at that address.
unfoldable pub remove : ℕ → List Slice → List Slice
remove ptr [] = []
remove ptr (b ∷ l) = let rest = remove ptr l in if b.ptr == ptr then l else b ∷ rest

-- What ThreadX documents of a byte pool: `live` are the blocks in use. A block that it hands out
-- has the size that was asked for and shares no byte with a block in use; a release ends the use
-- of the block at that address; a call that fails changes no block.
pub record Contract {K : Type 0} (os : PoolApi K) (pool_ptr : ℕ) : Type 0 where
  pub live : K → List Slice
  pub allocate_ok :
      (size wait : ℕ) (k : K)
      → (os.tx_byte_allocate pool_ptr size wait k).0 ≡ Sys.tx_success
      → let block : Slice = record {
        ptr = (os.tx_byte_allocate pool_ptr size wait k).1;
        len = size;
      } in
        (live (os.tx_byte_allocate pool_ptr size wait k).2 ≡ block ∷ live k)
        × ApartFrom block (live k)
  pub allocate_err :
      (size wait : ℕ) (k : K)
      → (os.tx_byte_allocate pool_ptr size wait k).0 ≢ Sys.tx_success
      → live (os.tx_byte_allocate pool_ptr size wait k).2 ≡ live k
  pub release_ok :
      (ptr : ℕ) (k : K)
      → (os.tx_byte_release ptr k).0 ≡ Sys.tx_success
      → live (os.tx_byte_release ptr k).2 ≡ remove ptr (live k)
  pub release_err :
      (ptr : ℕ) (k : K)
      → (os.tx_byte_release ptr k).0 ≢ Sys.tx_success
      → live (os.tx_byte_release ptr k).2 ≡ live k

pub data Op : Type 0 where
  do_allocate : (size : ℕ) (wait : Bool) → Op
  do_release : Slice → Op

-- The blocks that the program holds after a release of `mem`, and after an allocation.
abbrev pub given_back : Outcome TxError (Unit {0}) → Slice → List Slice → List Slice
given_back (ok _) mem held = remove mem.ptr held
given_back (err _) mem held = held
given_back panic mem held = held

abbrev pub handed_out : Outcome TxError MemoryBlock → List Slice → List Slice
handed_out (ok m) held = consume m ∷ held
handed_out (err _) held = held
handed_out panic held = held

module _ {K : Type 0} (os : PoolApi K) (h : BytePoolHandle) where
  -- Allocations and releases, one after the other, whatever their results, with the blocks that
  -- the program holds: those that the allocations have returned, as they have returned them,
  -- without those that have been released.
  pub run : List Op → List Slice × K → List Slice × K
  run [] (held, k) = (held, k)
  run (do_allocate size wait ∷ ops) (held, k) =
      let (r, k') = byte_allocate os h size wait k in run ops (handed_out r held, k')
  run (do_release mem ∷ ops) (held, k) =
      let (r, k') = byte_release os h mem k in run ops (given_back r mem held, k')

-- Allocations of less than 2 ^ 32 bytes, as `usize` has 32 bits.
abbrev pub Fits : List Op → Type 0
Fits [] = Unit
Fits (do_allocate size wait ∷ ops) = (size < 2 ^ 32) × Fits ops
Fits (do_release mem ∷ ops) = Fits ops

remove-ApartFrom :
    (ptr : ℕ) (b : Slice) (l : List Slice) → ApartFrom b l → ApartFrom b (remove ptr l)
unfolding remove
remove-ApartFrom ptr b [] h = h
remove-ApartFrom ptr b (a ∷ l) h = elim (Bool-cases (a.ptr == ptr)) [
  | inl same ↦ rw same h.1
  | inr other ↦ rw other (h.0, remove-ApartFrom ptr b l h.1)
]

remove-AllApart : (ptr : ℕ) (l : List Slice) → AllApart l → AllApart (remove ptr l)
unfolding remove
remove-AllApart ptr [] h = h
remove-AllApart ptr (b ∷ l) h = elim (Bool-cases (b.ptr == ptr)) [
  | inl same ↦ rw same h.1
  | inr other ↦ rw other (remove-ApartFrom ptr b l h.0, remove-AllApart ptr l h.1)
]

module _ {K : Type 0} {os : PoolApi K} {h : BytePoolHandle} (c : Contract os (h.pool_ptr)) where
  abbrev call : ℕ → Bool → K → ℕ × ℕ × K
  call size wait = os.tx_byte_allocate h.pool_ptr (as_ulong size) (wait_flag wait)

  allocate-cases :
      (size : ℕ) (wait : Bool) (k : K)
      → ((call size wait k).0 ≡ Sys.tx_success)
          × (byte_allocate os h size wait k ≡ (
            ok (record { block = record { ptr = (call size wait k).1; len = size } }),
            (call size wait k).2,
          ))
        ⊎ ((e : TxError) × ((call size wait k).0 ≢ Sys.tx_success)
            × (byte_allocate os h size wait k ≡ (err e, (call size wait k).2)))
  unfolding byte_allocate
  allocate-cases size wait k =
      let block : ℕ → Prog K TxError MemoryBlock =
        λ ptr. pure (record { block = record { ptr = ptr; len = size } }) in
      elim (tx_checked_call_lem (call size wait) k) [
        | inl (done, p) ↦ inl (done, ap (run_next block) p)
        | inr (e, failed, p, _) ↦ inr (e, failed, ap (run_next block) p)
      ]

  -- On a byte pool as documented, an allocation of less than 2 ^ 32 bytes that succeeds returns the
  -- block that is then in use, of the size asked for, which shares no byte with the blocks in use
  -- before.
  pub allocated_block :
      (size : ℕ) (wait : Bool) (k : K) {m : MemoryBlock} {k' : K}
      → size < 2 ^ 32
      → byte_allocate os h size wait k ≡ (ok m, k')
      → (c.live k' ≡ consume m ∷ c.live k) × (m.block.len ≡ size) × ApartFrom (consume m) (c.live k)
  unfolding consume
  allocated_block size wait k {m} {k'} small p = elim (allocate-cases size wait k) [
    | inl (done, q) ↦
        let (more, new) = c.allocate_ok (as_ulong size) (wait_flag wait) k done in
        let same : as_ulong size ≡ size = mod-eq_of_lt small in
        let block : m ≡ record { block = record { ptr = (call size wait k).1; len = size } } = cc in
        let after : k' ≡ (call size wait k).2 = cc in
        let slice : ℕ → Slice = λ n. record { ptr = (call size wait k).1; len = n } in
        let given : m.block ≡ slice (as_ulong size) =
          ap (λ (x : MemoryBlock). x.block) block ∙ ap slice (sym same) in
        (
          ap c.live after ∙ more ∙ ap (λ b. b ∷ c.live k) (sym given),
          ap (λ (x : MemoryBlock). x.block.len) block,
          subst (λ b. ApartFrom b (c.live k)) (sym given) new,
        )
    | inr (e, failed, q) ↦ absurd (cc)
  ]

  -- The blocks that the program holds are those in use, and no two of them share a byte.
  abbrev Held : List Slice × K → Type 0
  Held (held, k) = (c.live k ≡ held) × AllApart held

  allocate-Held :
      (size : ℕ) (wait : Bool) (held : List Slice) (k : K)
      → size < 2 ^ 32
      → Held (held, k)
      → let (r, k') = byte_allocate os h size wait k in Held (handed_out r held, k')
  unfolding consume
  allocate-Held size wait held k small (same, apart) = elim (allocate-cases size wait k) [
    | inl (done, p) ↦
        let block : Slice = record { ptr = (call size wait k).1; len = size } in
        let (more, _, new) = allocated_block size wait k small p in
        rw p (more ∙ ap (λ l. block ∷ l) same, (subst (ApartFrom block) same new, apart))
    | inr (e, failed, p) ↦
        rw p (c.allocate_err (as_ulong size) (wait_flag wait) k failed ∙ same, apart)
  ]

  release-Held :
      (mem : Slice) (held : List Slice) (k : K)
      → Held (held, k)
      → let (r, k') = byte_release os h mem k in Held (given_back r mem held, k')
  unfolding byte_release
  release-Held mem held k (same, apart) =
      elim (tx_checked_call_lem (os.tx_byte_release mem.ptr) k) [
        | inl (done, p) ↦ rw p (
          c.release_ok mem.ptr k done ∙ ap (remove mem.ptr) same,
          remove-AllApart mem.ptr held apart,
        )
        | inr (e, failed, p, _) ↦ rw p (c.release_err mem.ptr k failed ∙ same, apart)
      ]

  -- On a byte pool as documented, from a state in which the program holds the blocks in use and no
  -- two of them share a byte, whatever sequence of allocations, of less than 2 ^ 32 bytes each,
  -- and releases it makes, with whatever results: the blocks that the wrapper has returned to it
  -- and that it has not released are still the blocks in use, and no two share a byte.
  pub run-AllApart :
      (ops : List Op) (held : List Slice) (k : K)
      → Fits ops
      → c.live k ≡ held
      → AllApart held
      → let (held', k') = run os h ops (held, k) in (c.live k' ≡ held') × AllApart held'
  unfolding run
  run-AllApart [] held k fit same apart = (same, apart)
  run-AllApart (do_allocate size wait ∷ ops) held k fit same apart =
      let (r, k') = byte_allocate os h size wait k in
      let (same', apart') = allocate-Held size wait held k fit.0 (same, apart) in
      run-AllApart ops (handed_out r held) k' fit.1 same' apart'
  run-AllApart (do_release mem ∷ ops) held k fit same apart =
      let (r, k') = byte_release os h mem k in
      let (same', apart') = release-Held mem held k (same, apart) in
      run-AllApart ops (given_back r mem held) k' fit same' apart'
