-- ===== src/Init/Boot.antt =====
-- threadx-rs/src/lib.rs: what runs between `Builder::initialize` and the scheduler.
use threadx_rust.Base.{
  ◌⊎◌, arith, some, ◌+◌, ℕ, ◌≡◌, Prog, Never, ok, panic, gets, pure, ◌>>=◌, ◌>>◌,
}
use threadx_rust.Init.{
  Builder, Statics, Entered, scheduling, never_returns, initialize, tx_initialize_low_level,
  tx_application_define, after_enter,
}

module _ {S : Type 0}
    (enter : Prog (Statics S) Never (Unit {0})
      → (ℕ → Prog (Statics S) Never (Unit {0}))
      → Prog (Statics S) Never Entered) where
  -- What ThreadX documents of entering the kernel: the low-level initialisation, then
  -- `tx_application_define` with the address that `_tx_initialize_unused_memory` holds by then,
  -- and then the scheduler, from which it does not come back. The state is that in which the
  -- scheduler takes over.
  abbrev pub Enters : Type 0
  Enters =
      (low : Prog (Statics S) Never (Unit {0})) (define : ℕ → Prog (Statics S) Never (Unit {0}))
      (s : Statics S)
      → enter low define s
        ≡ (do low; mem_start ← gets (λ t. t.unused_memory); define mem_start; pure scheduling) s

  -- On a kernel that enters as documented, `initialize` runs the two callbacks of its builder,
  -- the low-level one first with the tick rate and then the other with the address one word after
  -- `__sheap`, whatever callbacks an earlier builder has left. When both return, the scheduler
  -- takes over with that address as the unused memory, and `initialize` never returns; when one
  -- panics, so does `initialize`.
  pub initialize_runs_callbacks :
      (ticks_per_second sheap : ℕ) (b : Builder S) (s : Statics S)
      → Enters
      → let (r, s') = initialize enter ticks_per_second sheap b s in
        let (r', rest) =
          (b.low_level_init_cb ticks_per_second >> b.app_define_cb (sheap + 4)) s.rest in
        (s'.rest ≡ rest)
        × (((r' ≡ ok tt) × (r ≡ ok never_returns) × (s'.unused_memory ≡ sheap + 4))
            ⊎ ((r' ≡ panic) × (r ≡ panic)))
  unfolding initialize tx_initialize_low_level tx_application_define after_enter
  initialize_runs_callbacks tps sheap b s h =
      let entered =
        h (tx_initialize_low_level tps sheap) tx_application_define
          (record s { init_cb = some b.low_level_init_cb; define_cb = some b.app_define_cb }) in
      ground arith
