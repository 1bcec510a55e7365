-- ===== src/Executor/Claim.antt =====
-- threadx-rs/src/executor.rs: how `block_on` gets its slot.
use threadx_rust.Executor.Slots.{position_unused-get}
use threadx_rust.Executor.Effects.{claim_slot-some, claim_slot-none}
use mathlib.Core.Option
use threadx_rust.Executor.Contract.{KernelContract}
use threadx_rust.Executor.{
  empty, claim_slot, unused, World, SignalState, ExecutorApi, position_unused,
}
use threadx_rust.Base.{
  get_elem?-set, ◌∙◌, ap, panic, inr, ◌⊎◌, ◌==◌, inl, Option-cases, if◌then◌else◌, ok, [], ◌∷◌,
  some, none, get_elem?, List, ℕ, zero, suc, ◌≡◌, ◌≢◌, arith,
}

none_left :
    (l : List SignalState) → Option.map suc (position_unused l) ≡ none → position_unused l ≡ none
none_left l h = elim (Option-cases (position_unused l)) [
  | inl p ↦ p
  | inr (j, p) ↦ absurd (ground arith)
]

none_unused :
    (l : List SignalState) → position_unused l ≡ none → (i : ℕ) → get_elem? l i ≢ some unused
unfolding position_unused
none_unused [] h i e = cc
none_unused (unused ∷ l) h i e = cc
none_unused (v ∷ l) h zero e = cc
none_unused (v ∷ l) h (suc i) e = none_unused l (none_left l h) i e

module _ {K : Type 0} {os : ExecutorApi K} (c : KernelContract os) (w : World K) where
  -- On a kernel as documented, a `block_on` gets a slot that was unused; it marks that slot as
  -- empty and changes no other slot. It panics exactly when no slot is unused.
  pub claim_slot_lem :
      ((i : ℕ) × (get_elem? w.signals i ≡ some unused)
        × ((claim_slot os w).0 ≡ ok i)
        × ((j : ℕ)
            → get_elem? (claim_slot os w).1.signals j
              ≡ (if i == j then some empty else get_elem? w.signals j)))
      ⊎ (((i : ℕ) → get_elem? w.signals i ≢ some unused) × ((claim_slot os w).0 ≡ panic))
  claim_slot_lem = elim (Option-cases (position_unused w.signals)) [
    | inl p ↦ inr (none_unused w.signals p, claim_slot-none c w p)
    | inr (i, p) ↦
        let g = position_unused-get w.signals i p in
        inl (
          i,
          g,
          ap (λ r. r.0) (claim_slot-some c w i p),
          λ j.
              ap (λ r. get_elem? r.1.signals j) (claim_slot-some c w i p)
              ∙ get_elem?-set w.signals i j empty g,
        )
  ]
