-- ===== src/Mutex/Exclusion.antt =====
-- threadx-rs/src/mutex.rs: the guards that several threads take on one `Mutex`.
use threadx_rust.Base.{
  false, sym, Bool-cases, inr, inl, ◌∙◌, ap, refl, ok, arith, ◌⊎◌, ℕ, zero, suc, ◌+◌, ◌-◌, ◌≡◌, ◌≢◌,
  true, List, [], ◌∷◌, none, some, ◌==◌,
}
use threadx_rust.Error.{TxError}
use threadx_rust.Call.{wait_code, tx_checked_call, WaitOption}
use threadx_rust.Mutex.{Mutex, MutexApi, Cell, guard, lock, drop_guard, deref_mut}
use threadx_rust.Mutex.Protocol.{locked_by}
use threadx_rust.Mutex.Owners.{
  do_unlock, do_write, do_lock, begin, count_at, acquired, released, Op, run, perform, Session,
  OwnerContract, may_get, share, Owner,
}

share-acquired :
    (t : ℕ) (o : Owner) (u : ℕ)
    → may_get t o ≡ true
    → share (acquired t o) u ≡ count_at (share o) t (share o t + 1) u
share-acquired t none u h = ground arith
share-acquired t (some (o, n)) u h = ground arith

share-released :
    (t : ℕ) (o : Owner) (u : ℕ)
    → share o t ≢ 0
    → share (released o) u ≡ count_at (share o) t (share o t - 1) u
share-released t none u h = absurd (h refl)
share-released t (some (o, zero)) u h = absurd (ground arith)
share-released t (some (o, suc zero)) u h = ground arith
share-released t (some (o, suc (suc n))) u h = ground arith

-- Only the owner has a share.
share-owner : (t : ℕ) (o : Owner) → share o t ≢ 0 → o ≡ some (t, share o t)
share-owner t none h = absurd (h refl)
share-owner t (some (o, n)) h = ground arith

share-one : (o : Owner) (t u : ℕ) → share o t ≢ 0 → share o u ≢ 0 → t ≡ u
share-one none t u h g = absurd (h refl)
share-one (some (o, n)) t u h g = ground arith

module _ {T K : Type 0} {os : ℕ → MutexApi K} {m : ℕ} (c : OwnerContract os m) where
  pub record Inv (s : Session T K) : Type 0 where
    pub placed : s.cell.value.mutex ≡ m
    pub ready : s.cell.value.initialized ≡ true
    pub shares : (u : ℕ) → s.guards u ≡ share (c.owner s.cell.kernel) u

  -- What a lock does to the owner and to the count of its guards.
  lock-owner :
      (t : ℕ) (w : WaitOption) (s : Cell T K)
      → s.value.mutex ≡ m
      → let (r, s') = lock (os t) w s in
        (s'.value ≡ s.value)
        × (((locked_by r ≡ 1)
              × (may_get t (c.owner s.kernel) ≡ true)
              × (c.owner s'.kernel ≡ acquired t (c.owner s.kernel)))
            ⊎ ((locked_by r ≡ 0) × (c.owner s'.kernel ≡ c.owner s.kernel)))
  unfolding lock tx_checked_call
  lock-owner t w s h =
      ground (arith, c.get_ok t (wait_code w) s.kernel, c.get_err t (wait_code w) s.kernel)

  module _ (placed : m ≢ 0) where
    -- A put by the owner, and one by another thread. Either way the drop of the guard is no error.
    drop_guard-owner :
        (t : ℕ) (s : Cell T K)
        → s.value.mutex ≡ m
        → let (r, s') = drop_guard (os t) {E = TxError} guard s in
          (r ≡ ok tt) × (s'.value ≡ s.value) × (s'.kernel ≡ ((os t).tx_mutex_put m s.kernel).2)
    unfolding drop_guard tx_checked_call
    drop_guard-owner t s h = ground arith

    lock-own :
        (t : ℕ) (w : WaitOption) (n : ℕ) (s : Cell T K)
        → s.value.mutex ≡ m
        → s.value.initialized ≡ true
        → c.owner s.kernel ≡ some (t, n)
        → (lock (os t) w s).0 ≡ ok guard
    unfolding lock tx_checked_call
    lock-own t w n s h r o = ground (arith, c.get_own t (wait_code w) n s.kernel o)

    lock-other :
        (t : ℕ) (w : WaitOption) (s : Cell T K)
        → s.value.mutex ≡ m
        → may_get t (c.owner s.kernel) ≡ false
        → (lock (os t) w s).0 ≢ ok guard
    lock-other t w s h refused e = elim (lock-owner t w s h).1 [
      | inl (_, may, _) ↦ ground arith
      | inr (zero_locked, _) ↦ ground (arith, ap locked_by e)
    ]

    perform-Inv : (op : Op T) (s : Session T K) → Inv s → Inv (perform os op s)
    unfolding perform deref_mut
    perform-Inv (do_lock t w) s h =
        let (v, granted) = lock-owner t w s.cell h.placed in
        let o = c.owner s.cell.kernel in
        record {
          placed = ap (λ (x : Mutex T). x.mutex) v ∙ h.placed;
          ready = ap (λ (x : Mutex T). x.initialized) v ∙ h.ready;
          shares = λ u. elim granted [
            | inl (one, may, acq) ↦ ground (arith, share-acquired t o u may, h.shares t, h.shares u)
            | inr (nothing, same) ↦ ground (arith, h.shares t, h.shares u)
          ];
        }
    perform-Inv (do_write t f) s h = elim (Bool-cases (s.guards t == 0)) [
      | inl none_left ↦ rw none_left h
      | inr some_left ↦
          rw some_left (record { placed = h.placed; ready = h.ready; shares = h.shares })
    ]
    perform-Inv (do_unlock t) s h = elim (Bool-cases (s.guards t == 0)) [
      | inl none_left ↦ rw none_left h
      | inr some_left ↦
          let (_, v, k) = drop_guard-owner t s.cell h.placed in
          let o = c.owner s.cell.kernel in
          let has : share o t ≢ 0 = ground (arith, h.shares t) in
          rw some_left (record {
            placed = ap (λ (x : Mutex T). x.mutex) v ∙ h.placed;
            ready = ap (λ (x : Mutex T). x.initialized) v ∙ h.ready;
            shares = λ u. ground (
              arith,
              k,
              c.put_own t (share o t) s.cell.kernel (share-owner t o has),
              share-released t o u has,
              h.shares t,
              h.shares u,
            );
          })
    ]

    pub run-Inv : (ops : List (Op T)) (s : Session T K) → Inv s → Inv (run os ops s)
    unfolding run
    run-Inv [] s h = h
    run-Inv (op ∷ ops) s h = run-Inv ops (perform os op s) (perform-Inv op s h)

    module _ (cell : Cell T K) (at_m : cell.value.mutex ≡ m) (ready : cell.value.initialized ≡ true)
        (free : c.owner cell.kernel ≡ none) (ops : List (Op T)) where
      reached-Inv : Inv (run os ops (begin cell))
      reached-Inv =
          run-Inv ops (begin cell)
            (record { placed = at_m; ready = ready; shares = λ u. sym (ap (λ o. share o u) free) })

      -- At every moment of every run on an initialised `Mutex`, its living guards belong to one
      -- thread, when each thread writes and unlocks through its own guards only.
      pub guards_exclude :
          (t u : ℕ)
          → (run os ops (begin cell)).guards t ≢ 0
          → (run os ops (begin cell)).guards u ≢ 0
          → t ≡ u
      guards_exclude t u g g' =
          let i = reached-Inv in
          let o = c.owner (run os ops (begin cell)).cell.kernel in
          share-one o t u (λ e. g (i.shares t ∙ e)) (λ e. g' (i.shares u ∙ e))

      owned_by :
          (t : ℕ)
          → (run os ops (begin cell)).guards t ≢ 0
          → c.owner (run os ops (begin cell)).cell.kernel
            ≡ some (t, (run os ops (begin cell)).guards t)
      owned_by t g =
          let i = reached-Inv in
          let o = c.owner (run os ops (begin cell)).cell.kernel in
          share-owner t o (λ e. g (i.shares t ∙ e)) ∙ ap (λ n. some (t, n)) (sym (i.shares t))

      -- A thread that has a guard of an initialised `Mutex` and locks it again, however it waits,
      -- gets another guard of the same value beside the first.
      pub lock_reenters :
          (t : ℕ) (w : WaitOption)
          → (run os ops (begin cell)).guards t ≢ 0
          → let s = run os ops (begin cell) in
            ((lock (os t) w s.cell).0 ≡ ok guard)
            × ((perform os (do_lock t w) s).guards t ≡ suc (s.guards t))
      unfolding perform
      lock_reenters t w g =
          let i = reached-Inv in
          let s = run os ops (begin cell) in
          let l = lock-own t w (s.guards t) s.cell i.placed i.ready (owned_by t g) in
          (l, ground (arith, l))

      -- A guard of an initialised `Mutex` that its thread sends to another, which drops it there:
      -- the drop returns as if it had released the mutex, but the first thread stays the owner, so
      -- no other thread gets a guard.
      pub sent_guard_keeps_lock :
          (t u v : ℕ) (w : WaitOption)
          → (run os ops (begin cell)).guards t ≢ 0
          → u ≢ t
          → v ≢ t
          → let s = run os ops (begin cell) in
            let (r, left) = drop_guard (os u) {E = TxError} guard s.cell in
            (r ≡ ok tt)
            × (c.owner left.kernel ≡ some (t, s.guards t))
            × ((lock (os v) w left).0 ≢ ok guard)
      sent_guard_keeps_lock t u v w g ne ne' =
          let i = reached-Inv in
          let s = run os ops (begin cell) in
          let own = owned_by t g in
          let (r, val, k) = drop_guard-owner u s.cell i.placed in
          let kept = c.put_other u s.cell.kernel (λ n e. ground (arith, own)) in
          let left = (drop_guard (os u) {E = TxError} guard s.cell).1 in
          let own' : c.owner left.kernel ≡ some (t, s.guards t) = ap c.owner k ∙ kept ∙ own in
          (
            r,
            own',
            lock-other v w left (ap (λ (x : Mutex T). x.mutex) val ∙ i.placed)
                (rw own' (ground arith)),
          )
