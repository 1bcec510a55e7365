-- ===== src/Timer/Start.antt =====
-- threadx-rs/src/timer.rs: what the kernel is told when a timer is created, and how it answers.
use native.Mathlib.Nat.{mod-eq_of_lt}
use threadx_rust.Base.{
  Prog, Never, ℕ, ◌^◌, ◌<◌, ◌≡◌, ◌≢◌, refl, Bool, none, some, List, ◌∷◌, arith, ◌⊎◌, inl, inr, ok,
  err, panic, Bool-cases, Option-cases, ◌==◌, ==_iff, if◌then◌else◌,
}
use threadx_rust.Sys
use threadx_rust.Error.{TxError, discriminant, from_u32}
use threadx_rust.Error.Codes.{from_u32_iff}
use threadx_rust.Call.{KernelCall}
use threadx_rust.Boxed.{Machine, as_ulong}
use threadx_rust.Time.{Duration, ticks}
use threadx_rust.Timer.{
  timer_trampoline, TimerCreate, TimerApi, timer_callback_trampoline, check_status,
  initialize_with_closure,
}

-- The status check keeps the kernel's state. It succeeds on `TX_SUCCESS`, fails with the variant
-- of any other status that has one, and panics on a status that has none.
pub check_status_lem :
    {K : Type 0} (f : KernelCall K (Unit {0})) (k : K)
    → let s = (f k).0 in
      let k' = (f k).2 in
      ((s ≡ Sys.tx_success) × (check_status f k ≡ (ok tt, k')))
      ⊎ ((e : TxError) × (discriminant e ≡ s) × (check_status f k ≡ (err e, k')))
      ⊎ ((s ≢ Sys.tx_success) × (from_u32 s ≡ none) × (check_status f k ≡ (panic, k')))
unfolding check_status
check_status_lem f k = elim (Bool-cases ((f k).0 == Sys.tx_success)) [
  | inl success ↦ inl ((==_iff _ Sys.tx_success).0 success, ground arith)
  | inr failed ↦ elim (Option-cases (from_u32 (f k).0)) [
    | inl p ↦ inr (inr (ground arith, p, ground arith))
    | inr (e, p) ↦ inr (inl (e, (from_u32_iff _ e).0 p, ground arith))
  ]
]

-- A kernel that also records the timers it is asked to create.
abbrev pub Log : Type 0 → Type 0
Log K = List TimerCreate × K

abbrev pub logged : {K : Type 0} → TimerApi K → TimerApi (Log K)
logged os = record {
  tx_timer_create = λ c s. let (ret, out, k) = os.tx_timer_create c s.1 in (ret, out, (c ∷ s.0, k));
}

module _ {F K : Type 0} (os : TimerApi K) (call : F → Log K → Log K) where
  -- Where both durations convert to ticks, and the closure's box is allocated at an address below
  -- 2 ^ 32 without creating a timer: the kernel is asked once to create a timer, the one of the given
  -- control block and name, with these ticks, the requested activation and the trampoline as what to
  -- call, and the trampoline on that timer's argument runs the closure that was passed in, whether or
  -- not the kernel reports success.
  pub timer_runs_closure :
      (new_box : Prog (Log K) Never ℕ) (tps self name : ℕ) (f : F) (first again : Duration)
      {t u : ℕ} (auto : Bool) (m : Machine F (Log K)) {at : ℕ} {k : Log K}
      → new_box m.kernel ≡ (ok at, k)
      → k.0 ≡ m.kernel.0
      → at < 2 ^ 32
      → ticks tps first ≡ some t
      → ticks tps again ≡ some u
      → let m' =
          (initialize_with_closure (logged os) new_box tps self name f first again auto m).1 in
        (c : TimerCreate) × (m'.kernel.0 ≡ c ∷ m.kernel.0)
        × (c.expiration ≡ timer_trampoline)
        × (c.timer_ptr ≡ self)
        × (c.name ≡ name)
        × (c.initial_ticks ≡ t)
        × (c.reschedule_ticks ≡ u)
        × (c.auto_activate ≡ (if auto then 1 else 0))
        × (timer_callback_trampoline call c.expiration_input m'
            ≡ some (record m' { kernel = call f m'.kernel }))
  unfolding initialize_with_closure timer_callback_trampoline
  timer_runs_closure new_box tps self name f first again {t} {u} auto m {at} {k} allocated quiet_box
        small p q =
      (
        record {
          timer_ptr = self;
          name = name;
          expiration = timer_trampoline;
          expiration_input = as_ulong at;
          initial_ticks = t;
          reschedule_ticks = u;
          auto_activate = if auto then 1 else 0;
        },
        ground arith,
        refl,
        refl,
        refl,
        refl,
        refl,
        refl,
        ground (arith, mod-eq_of_lt small),
      )

pub check_status-ok :
    {K : Type 0} (f : KernelCall K (Unit {0})) (k : K)
    → (f k).0 ≡ Sys.tx_success
    → check_status f k ≡ (ok tt, (f k).2)
unfolding check_status
check_status-ok f k h = rw h refl
