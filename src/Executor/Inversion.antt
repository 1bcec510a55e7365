-- ===== src/Executor/Inversion.antt =====
-- threadx-rs/src/executor.rs: what an operation that returned must have found in the table.
use threadx_rust.Base.{
  ℕ, ◌%◌, ◌^◌, ◌≡◌, ◌∙◌, ap, refl, ◌⊎◌, inl, inr, Option, none, some, ok, get_elem?, set,
}
use threadx_rust.Executor.{
  SignalState, unused, empty, waiting, notified, ExecutorApi, World, wait_enter, notify,
  position_unused, claim_slot, release_slot,
}
use threadx_rust.Executor.Contract.{KernelContract}
use threadx_rust.Executor.Effects.{
  signal, passed, published, wait-notified, wait-empty, wait-panic, wait-missing, notify-notified,
  notify-empty, notify-waiting, notify-unused, notify-missing, claim_slot-some, claim_slot-none,
  release_slot-lem, release_slot-missing,
}

module _ {K : Type 0} {os : ExecutorApi K} (c : KernelContract os) (w : World K) (i : ℕ) where
  abbrev state : Option SignalState
  state = get_elem? w.signals i

  abbrev After : World K → SignalState → (K → K) → Type 0
  After w' v f = w' ≡ record w { signals = set w.signals i v; kernel = f w.kernel }

  pub wait_enter-cases :
      {r : Option ℕ} {w' : World K}
      → wait_enter os (signal os i) w ≡ (ok r, w')
      → ((state ≡ some notified) × (r ≡ none) × After w' empty (passed c))
        ⊎ ((state ≡ some empty) × (r ≡ some (2 ^ i % 2 ^ 32)) × After w' waiting (passed c))
  wait_enter-cases {r} {w'} h = go state refl
    where
      go :
          (o : Option SignalState)
          → state ≡ o
          → ((state ≡ some notified) × (r ≡ none) × After w' empty (passed c))
            ⊎ ((state ≡ some empty) × (r ≡ some (2 ^ i % 2 ^ 32)) × After w' waiting (passed c))
      go none p = absurd (cc (wait-missing c w i p, h))
      go (some notified) p = inl (p, cc (wait-notified c w i p), cc (wait-notified c w i p))
      go (some empty) p = inr (p, cc (wait-empty c w i p), cc (wait-empty c w i p))
      go (some waiting) p = absurd (cc (wait-panic c w i p (inl refl), h))
      go (some unused) p = absurd (cc (wait-panic c w i p (inr refl), h))

  pub notify-cases :
      {w' : World K}
      → notify os (signal os i) w ≡ (ok tt, w')
      → ((state ≡ some notified) × (w' ≡ record w { kernel = passed c w.kernel }))
        ⊎ ((state ≡ some empty) × After w' notified (passed c))
        ⊎ ((state ≡ some waiting) × After w' empty (published c))
  notify-cases {w'} h = go state refl
    where
      go :
          (o : Option SignalState)
          → state ≡ o
          → ((state ≡ some notified) × (w' ≡ record w { kernel = passed c w.kernel }))
            ⊎ ((state ≡ some empty) × After w' notified (passed c))
            ⊎ ((state ≡ some waiting) × After w' empty (published c))
      go none p = absurd (cc (notify-missing c w i p, h))
      go (some notified) p = inl (p, cc (notify-notified c w i p))
      go (some empty) p = inr (inl (p, cc (notify-empty c w i p)))
      go (some waiting) p = inr (inr (p, cc (notify-waiting c w i p)))
      go (some unused) p = absurd (cc (notify-unused c w i p, h))

  pub release_slot-post :
      {w' : World K} → release_slot os i w ≡ (ok tt, w') → After w' unused (passed c)
  release_slot-post {w'} h = go state refl
    where
      go : (o : Option SignalState) → state ≡ o → After w' unused (passed c)
      go none p = absurd (cc (release_slot-missing c w i p, h))
      go (some v) p = cc (release_slot-lem c w i p)

  pub claim_slot-post :
      {w' : World K}
      → claim_slot os w ≡ (ok i, w')
      → (position_unused w.signals ≡ some i) × After w' empty (passed c)
  claim_slot-post {w'} h = go (position_unused w.signals) refl
    where
      go :
          (o : Option ℕ)
          → position_unused w.signals ≡ o
          → (position_unused w.signals ≡ some i) × After w' empty (passed c)
      go none p = absurd (cc (claim_slot-none c w p, h))
      go (some j) p =
          let e : j ≡ i = cc (claim_slot-some c w j p) in
          (p ∙ ap some e, cc (claim_slot-some c w i (p ∙ ap some e)))
