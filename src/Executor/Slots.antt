-- ===== src/Executor/Slots.antt =====
-- threadx-rs/src/executor.rs: what holds whoever starts a `block_on`, and whenever.
use threadx_rust.Executor.Inversion.{
  notify-cases, release_slot-post, wait_enter-cases, claim_slot-post,
}
use mathlib.Core.Option
use mathlib.Core.Path.{subst}
use threadx_rust.Base.{
  replicate, Option-cases, Bool-cases, ==_iff, ap, ℕ, zero, suc, ◌%◌, ◌^◌, ◌≡◌, ◌≢◌, ◌∙◌, refl, inl,
  inr, false, ◌||◌, some, List, [], ◌∷◌, arith, ok, length, get_elem?, set, length-set,
  get_elem?-set, ◌==◌,
}
use threadx_rust.EventFlags.Bits.{has_bit-one}
use threadx_rust.Executor.{
  SignalState, unused, empty, waiting, notified, ExecutorApi, World, wait_flags, position_unused,
}
use threadx_rust.Executor.Contract.{KernelContract, AllSet, mutex_get, flags_set, flags_get}
use threadx_rust.Executor.Effects.{signal, passed, published, wait_flags-lem}
use threadx_rust.Executor.System.{
  notify_task, finish, wake, block, pass, here, next, begin, Reach, polling, start, Step, Task,
  idle, blocked, System, update,
}

skip_used :
    (l : List SignalState) (i : ℕ) (v : SignalState)
    → Option.map suc (position_unused l) ≡ some i
    → ((j : ℕ) → position_unused l ≡ some j → get_elem? l j ≡ some unused)
    → get_elem? (v ∷ l) i ≡ some unused
skip_used l zero v h ih = elim (Option-cases (position_unused l)) [
  | inl p ↦ absurd (ground arith)
  | inr (j, p) ↦ absurd (ground arith)
]
skip_used l (suc i) v h ih = elim (Option-cases (position_unused l)) [
  | inl p ↦ absurd (ground arith)
  | inr (j, p) ↦ ih i (ground arith)
]

pub position_unused-get :
    (l : List SignalState) (i : ℕ) → position_unused l ≡ some i → get_elem? l i ≡ some unused
unfolding position_unused
position_unused-get [] i h = absurd (cc)
position_unused-get (unused ∷ l) zero h = refl
position_unused-get (unused ∷ l) (suc i) h = absurd (cc)
position_unused-get (empty ∷ l) i h = skip_used l i empty h (λ j. position_unused-get l j)
position_unused-get (waiting ∷ l) i h = skip_used l i waiting h (λ j. position_unused-get l j)
position_unused-get (notified ∷ l) i h = skip_used l i notified h (λ j. position_unused-get l j)

module _ {K : Type 0} {os : ExecutorApi K} (c : KernelContract os) where
  open c use {bit, bit-mutex_get, bit-mutex_put, bit-flags_set, bit-flags_get}

  pub bit-passed : (k : K) (i : ℕ) → bit (passed c k) i ≡ bit k i
  bit-passed k i = bit-mutex_put _ i ∙ bit-mutex_get k i

  pub bit-published : (k : K) (i : ℕ) → bit (published c k) i ≡ (bit k i || i == 0)
  bit-published k i = ground (
    arith,
    bit-mutex_put (flags_set os 1 (mutex_get os k).2).2 i,
    bit-flags_set 1 (mutex_get os k).2 i,
    bit-mutex_get k i,
    has_bit-one i,
  )

  pub wait_flags-after :
      (w : World K) (i flags : ℕ) {w' : World K}
      → AllSet (bit w.kernel) flags
      → wait_flags os (signal os i) flags w ≡ (ok tt, w')
      → w' ≡ record w { kernel = (flags_get os flags w.kernel).2 }
  wait_flags-after w i flags h p = cc (wait_flags-lem c w i flags h)

  pub record Inv (s : System K) : Type 0 where
    pub slots : length s.world.signals ≡ 31
    pub owned :
        (i : ℕ)
        → s.task i ≢ idle
        → (v : SignalState) × (get_elem? s.world.signals i ≡ some v) × (v ≢ unused)
    pub waits : (i flags : ℕ) → s.task i ≡ blocked flags → flags ≡ 2 ^ i % 2 ^ 32
    pub high_clear : (i : ℕ) → bit s.world.kernel (suc i) ≡ false

  -- A write of slot `i`, with the task of the slot.
  write-Inv :
      (s : System K) (i : ℕ) (v : SignalState) (a : Task) (k : K) {u : SignalState}
      → Inv s
      → get_elem? s.world.signals i ≡ some u
      → (a ≢ idle → v ≢ unused)
      → ((flags : ℕ) → a ≡ blocked flags → flags ≡ 2 ^ i % 2 ^ 32)
      → ((j : ℕ) → bit k (suc j) ≡ false)
      → Inv (record {
        world = record (s.world) { signals = set s.world.signals i v; kernel = k };
        task = update s.task i a;
      })
  write-Inv s i v a k h q fit wait clear = record {
    slots = length-set s.world.signals i v ∙ h.slots;
    owned = λ j busy. elim (Bool-cases (i == j)) [
      | inl same ↦ (v, ground (arith, get_elem?-set s.world.signals i j v q), fit (ground arith))
      | inr other ↦
          let (x, g, ne) = h.owned j (ground arith) in
          (x, ground (arith, get_elem?-set s.world.signals i j v q), ne)
    ];
    waits = λ j flags e. elim (Bool-cases (i == j)) [
      | inl same ↦
          let e' : i ≡ j = (==_iff i j).0 same in
          wait flags (ground arith) ∙ ap (λ (n : ℕ). 2 ^ n % 2 ^ 32) e'
      | inr other ↦ h.waits j flags (ground arith)
    ];
    high_clear = clear;
  }

  -- A write of slot `i` that leaves the tasks alone.
  keep-Inv :
      (s : System K) (i : ℕ) (v : SignalState) (k : K) {u : SignalState}
      → Inv s
      → get_elem? s.world.signals i ≡ some u
      → v ≢ unused
      → ((j : ℕ) → bit k (suc j) ≡ false)
      → Inv (record {
        world = record (s.world) { signals = set s.world.signals i v; kernel = k };
        task = s.task;
      })
  keep-Inv s i v k h q ne clear = record {
    slots = length-set s.world.signals i v ∙ h.slots;
    owned = λ j busy. elim (Bool-cases (i == j)) [
      | inl same ↦ (v, ground (arith, get_elem?-set s.world.signals i j v q), ne)
      | inr other ↦
          let (x, g, ne') = h.owned j busy in
          (x, ground (arith, get_elem?-set s.world.signals i j v q), ne')
    ];
    waits = h.waits;
    high_clear = clear;
  }

  -- A change of the kernel and of the task of a busy slot.
  busy-Inv :
      (s : System K) (i : ℕ) (k : K)
      → Inv s
      → s.task i ≢ idle
      → ((j : ℕ) → bit k (suc j) ≡ false)
      → Inv (record { world = record (s.world) { kernel = k }; task = update s.task i polling })
  busy-Inv s i k h busy clear = record {
    slots = h.slots;
    owned = λ j e. elim (Bool-cases (i == j)) [
      | inl same ↦ h.owned j (subst (λ n. s.task n ≢ idle) ((==_iff i j).0 same) busy)
      | inr other ↦ h.owned j (ground arith)
    ];
    waits = λ j flags e. elim (Bool-cases (i == j)) [
      | inl same ↦ absurd (ground arith)
      | inr other ↦ h.waits j flags (ground arith)
    ];
    high_clear = clear;
  }

  high-passed : (s : System K) → Inv s → (j : ℕ) → bit (passed c s.world.kernel) (suc j) ≡ false
  high-passed s h j = bit-passed s.world.kernel (suc j) ∙ h.high_clear j

  high-published :
      (s : System K) → Inv s → (j : ℕ) → bit (published c s.world.kernel) (suc j) ≡ false
  high-published s h j = ground (arith, bit-published s.world.kernel (suc j), h.high_clear j)

  module _ (Admit : (ℕ → Task) → Type 0) where
    pub Step-Inv : {s t : System K} → Step c Admit s t → Inv s → Inv t
    Step-Inv {s} (begin i a p) h =
        let (free, q) = claim_slot-post c s.world i p in
        rw q (
          write-Inv s i empty polling (passed c s.world.kernel) h
            (position_unused-get s.world.signals i free) (λ _. λ e. cc) (λ flags e. absurd (cc))
            (high-passed s h))
    Step-Inv {s} (pass i e p) h = elim (wait_enter-cases c s.world i p) [
      | inl (g, _, q) ↦
          rw q (keep-Inv s i empty (passed c s.world.kernel) h g (λ x. cc) (high-passed s h))
      | inr (_, x, _) ↦ absurd (cc)
    ]
    Step-Inv {s} (block i {flags} e p) h = elim (wait_enter-cases c s.world i p) [
      | inl (_, x, _) ↦ absurd (cc)
      | inr (g, x, q) ↦ rw q (
          write-Inv s i waiting (blocked flags) (passed c s.world.kernel) h g (λ _. λ y. cc)
            (λ f y. ground arith) (high-passed s h))
    ]
    Step-Inv {s} (wake i {flags} e a p) h = rw (wait_flags-after s.world i flags a p) (
        busy-Inv s i (flags_get os flags s.world.kernel).2 h (λ x. cc)
          (λ j. ground (arith, bit-flags_get flags s.world.kernel a (suc j), h.high_clear j)))
    Step-Inv {s} (finish i e p) h =
        let (v, g, _) = h.owned i (λ x. cc) in
        rw (release_slot-post c s.world i p) (
          write-Inv s i unused idle (passed c s.world.kernel) h g (λ ne. absurd (ne refl))
            (λ f y. absurd (cc)) (high-passed s h))
    Step-Inv {s} (notify_task i e p) h = elim (notify-cases c s.world i p) [
      | inl (g, q) ↦ rw q (record {
        slots = h.slots;
        owned = h.owned;
        waits = h.waits;
        high_clear = high-passed s h;
      })
      | inr (inl (g, q)) ↦
          rw q (keep-Inv s i notified (passed c s.world.kernel) h g (λ x. cc) (high-passed s h))
      | inr (inr (g, q)) ↦
          rw q (keep-Inv s i empty (published c s.world.kernel) h g (λ x. cc) (high-published s h))
    ]

    pub Reach-Inv : {s t : System K} → Inv s → Reach c Admit s t → Inv t
    Reach-Inv h here = h
    Reach-Inv h (next r st) = Step-Inv st (Reach-Inv h r)

  -- `SIGNALS` as it is initialised, and no flag set.
  pub record IsFresh (w : World K) : Type 0 where
    pub table : w.signals ≡ replicate 31 unused
    pub clear : (i : ℕ) → bit w.kernel i ≡ false

  pub start-Inv : (w : World K) → IsFresh w → Inv (start w)
  start-Inv w f = record {
    slots = rw f.table;
    owned = λ i ne. absurd (ne refl);
    waits = λ i flags e. absurd (cc);
    high_clear = λ i. f.clear (suc i);
  }
