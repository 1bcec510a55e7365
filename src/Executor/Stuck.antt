-- ===== src/Executor/Stuck.antt =====
-- threadx-rs/src/executor.rs: a task in any slot but the first, once it waits.
use threadx_rust.Executor.Inversion.{claim_slot-post}
use threadx_rust.EventFlags.Bits.{has_bit-shift, has_bit}
use threadx_rust.Executor.Slots.{position_unused-get, start-Inv, Reach-Inv, Inv, IsFresh}
use threadx_rust.Executor.System.{
  notify_task, finish, wake, block, pass, here, begin, next, blocked, Step, start, Reach, System,
  Task,
}
use threadx_rust.Executor.Contract.{AllSet, KernelContract}
use threadx_rust.Executor.{World, ExecutorApi}
use threadx_rust.Base.{
  inr, ==_iff, true, lt_of_get_elem?, inl, ◌==◌, ◌<◌, Bool-cases, ℕ, suc, ◌≡◌, ◌∙◌, sym, ap, arith,
}

module _ {K : Type 0} {os : ExecutorApi K} (c : KernelContract os)
    (Admit : (ℕ → Task) → Type 0) where
  -- The flag that slot `i + 1` waits for is clear, so a wake of it is impossible.
  no_wake :
      (s : System K) (i flags : ℕ)
      → Inv c s
      → s.task (suc i) ≡ blocked flags
      → ¬ AllSet (c.bit s.world.kernel) flags
  no_wake s i flags h e all =
      let (v, g, _) = h.owned (suc i) (λ x. cc) in
      let small : suc i < 32 =
        omega (arith, lt_of_get_elem? s.world.signals (suc i) {v = v} g, h.slots) in
      let on : has_bit flags (suc i) ≡ true =
        rw (h.waits (suc i) flags e) (has_bit-shift (suc i) small) in
      cc (all (suc i) on, h.high_clear i)

  stays_blocked :
      {s t : System K} (i flags : ℕ)
      → Inv c s
      → Step c Admit s t
      → s.task (suc i) ≡ blocked flags
      → t.task (suc i) ≡ blocked flags
  stays_blocked {s} i flags h (begin j a p) e = elim (Bool-cases (j == suc i)) [
    | inl same ↦
        let (v, g, ne) = h.owned (suc i) (λ x. cc) in
        let free = position_unused-get s.world.signals j (claim_slot-post c s.world j p).0 in
        let q : j ≡ suc i = (==_iff j (suc i)).0 same in absurd (ne (cc))
    | inr other ↦ ground arith
  ]
  stays_blocked i flags h (pass j e' p) e = e
  stays_blocked i flags h (block j e' p) e = elim (Bool-cases (j == suc i)) [
    | inl same ↦ let q : j ≡ suc i = (==_iff j (suc i)).0 same in absurd (cc)
    | inr other ↦ ground arith
  ]
  stays_blocked {s} i flags h (wake j {flags = f} e' a p) e = elim (Bool-cases (j == suc i)) [
    | inl same ↦
        let q : j ≡ suc i = (==_iff j (suc i)).0 same in
        absurd (no_wake s i f h (ap s.task (sym q) ∙ e') a)
    | inr other ↦ ground arith
  ]
  stays_blocked i flags h (finish j e' p) e = elim (Bool-cases (j == suc i)) [
    | inl same ↦ let q : j ≡ suc i = (==_iff j (suc i)).0 same in absurd (cc)
    | inr other ↦ ground arith
  ]
  stays_blocked i flags h (notify_task j e' p) e = e

  still_blocked :
      {s t : System K} (i flags : ℕ)
      → Inv c s
      → Reach c Admit s t
      → s.task (suc i) ≡ blocked flags
      → t.task (suc i) ≡ blocked flags
  still_blocked i flags h here e = e
  still_blocked i flags h (next r st) e =
      stays_blocked i flags (Reach-Inv c Admit h r) st (still_blocked i flags h r e)

  -- On a kernel as documented and from a fresh start, whoever runs and notifies whatever: once the
  -- `block_on` of a slot other than slot 0 waits for its flag, it waits for ever.
  pub higher_slot_never_wakes :
      (w : World K) {s t : System K} (i flags : ℕ)
      → IsFresh c w
      → Reach c Admit (start w) s
      → s.task (suc i) ≡ blocked flags
      → Reach c Admit s t
      → t.task (suc i) ≡ blocked flags
  higher_slot_never_wakes w i flags f r e later =
      still_blocked i flags (Reach-Inv c Admit (start-Inv c w f) r) later e
