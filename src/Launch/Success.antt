-- ===== src/Launch/Success.antt =====
-- threadx-app/cross/app/src/bin: when the steps of a start succeed.
use threadx_rust.Error.Codes.{tx_checked_call-ok}
use threadx_rust.Timer.{TimerCreate}
use threadx_rust.Thread.{ThreadCreate}
use threadx_rust.Call.{tx_checked_call, KernelCall}
use threadx_rust.Sys
use threadx_rust.Launch.{StartApi, Memory, on_kernel}
use threadx_rust.Base.{Outcome, unwrap}
use threadx_rust.Base.{
  ℕ, ◌≡◌, ◌≢◌, ◌∙◌, ap, Bool, false, not, List, [], ◌∷◌, ◌==◌, ◌||◌, Prog, Never, ok, unwrap, ◌>>=◌,
  >>=-ok, unwrap-ok, Runs,
}

abbrev pub elem : ℕ → List ℕ → Bool
elem n [] = false
elem n (m ∷ l) = n == m || elem n l

module _ {C T K : Type 0} (api : StartApi C T K) (code : C → ℕ) (taken : K → List ℕ) where
  -- A call that succeeds, and takes no static cell.
  abbrev pub Calm : {A : Type 0} → KernelCall K A → Type 0
  Calm f = (k : K) → ((f k).0 ≡ Sys.tx_success) × (taken (f k).2 ≡ taken k)

  -- A kernel on which every call of a start succeeds: `taken` lists the codes of the static cells
  -- that have been taken, and a cell is given out once.
  pub record Succeeds : Type 0 where
    pub free_cell :
        (cell : C) (k : K)
        → ((api.init_cell cell k).0 ≡ not (elem (code cell) (taken k)))
          × (taken (api.init_cell cell k).1 ≡ code cell ∷ taken k)
    pub nonnull : (cell : C) → api.address cell ≢ 0
    pub pool_created : (p n s l : ℕ) → Calm (api.pools.tx_byte_pool_create p n s l)
    pub allocated : (p n w : ℕ) → Calm (api.pools.tx_byte_allocate p n w)
    pub queue_created : (p n m s z : ℕ) → Calm (api.queues.tx_queue_create p n m s z)
    pub flags_created : (p n : ℕ) → Calm (api.flags.tx_event_flags_create p n)
    pub thread_created : (c : ThreadCreate) → Calm (api.threads.tx_thread_create c)
    pub timer_created : (c : TimerCreate) → Calm (api.timers.tx_timer_create c)
    pub mutex_created : (p n i : ℕ) → Calm (api.mutexes.tx_mutex_create p n i)
    pub mutex_got : (p w : ℕ) → Calm (api.mutexes.tx_mutex_get p w)
    pub mutex_put : (p : ℕ) → Calm (api.mutexes.tx_mutex_put p)

  -- The cells that are taken, and whether the global allocator is ready.
  abbrev pub At : {F : Type 0} → List ℕ → Bool → Memory F K → Type 0
  At l ready m = (taken m.kernel.kernel ≡ l) × (m.kernel.initialized ≡ ready)

  -- A program on the kernel that returns, and takes no cell.
  abbrev pub Returns : {E A : Type 0} → Prog K E A → Type 0
  Returns {E} {A} m = (k : K) → (a : A) × (k' : K) × (m k ≡ (ok a, k')) × (taken k' ≡ taken k)

  pub call-Returns : {A : Type 0} (f : KernelCall K A) → Calm f → Returns (tx_checked_call f)
  call-Returns f h k = ((f k).1, (f k).2, tx_checked_call-ok f k (h k).0, (h k).1)

  pub then-Returns :
      {E A B : Type 0} (m : Prog K E A) (f : A → Prog K E B)
      → Returns m
      → ((a : A) → Returns (f a))
      → Returns (m >>= f)
  then-Returns m f h g k =
      let (a, k', e, t) = h k in
      let (b, k'', e', t') = g a k' in (b, k'', >>=-ok m f e ∙ e', t' ∙ t)

  pub on_kernel-Runs :
      {F E A : Type 0} (m : Prog K E A) (l : List ℕ) (ready : Bool)
      → Returns m
      → Runs (At {F = F} l ready) (At l ready) (on_kernel {F = F} (unwrap m))
  on_kernel-Runs {F} {E} {A} m l ready h = record {
    runs = λ w at.
        let (a, k, e, t) = h w.kernel.kernel in
        (
          a,
          record w { kernel = record (w.kernel) { kernel = k } },
          ap
              (λ (r : Outcome Never A × K).
                (r.0, record w { kernel = record (w.kernel) { kernel = r.1 } }))
              (unwrap-ok m e),
          (t ∙ at.0, at.1),
        );
  }
