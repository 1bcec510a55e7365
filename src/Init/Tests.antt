-- ===== src/Init/Tests.antt =====
-- threadx-rs/src/lib.rs: a start of the system.
use threadx_rust.Base.{
  Outcome, ◌⊎◌, ◌∷◌, ◌>>=◌, ◌>>◌, ok, panic, gets, pure, Never, [], Prog, List, ℕ, ◌≡◌, refl,
}
use threadx_rust.Init.{Builder, Statics, Entered, scheduling, never_returns, blank, initialize}
use threadx_rust.Init.Boot.{initialize_runs_callbacks}

-- Callbacks that write down what they are called with.
abbrev builder : Builder (List ℕ)
builder = record {
  low_level_init_cb = λ t s. (ok tt, t ∷ s);
  app_define_cb = λ m s. (ok tt, m ∷ s);
}

abbrev enter :
    Prog (Statics (List ℕ)) Never (Unit {0})
    → (ℕ → Prog (Statics (List ℕ)) Never (Unit {0}))
    → Prog (Statics (List ℕ)) Never Entered
enter low define = do
  low
  mem_start ← gets (λ t. t.unused_memory)
  define mem_start
  pure scheduling

abbrev finished : Outcome Never (Unit {0})
finished = ok tt

initialize_runs_callbacks_example :
    let (r, s') = initialize enter 100 4000 builder (blank []) in
    (s'.rest ≡ 4004 ∷ 100 ∷ [])
    × (((finished ≡ ok tt) × (r ≡ ok never_returns) × (s'.unused_memory ≡ 4004))
        ⊎ ((finished ≡ panic) × (r ≡ panic)))
initialize_runs_callbacks_example =
    initialize_runs_callbacks enter 100 4000 builder (blank []) (λ low define s. refl)
