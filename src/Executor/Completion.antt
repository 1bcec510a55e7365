-- ===== src/Executor/Completion.antt =====
-- threadx-rs/src/executor.rs: `block_on` of a future that is woken after each `Pending`.
use threadx_rust.Base.{List, [], ◌∷◌, Bool, true, false, ◌^◌, ◌%◌}
use threadx_rust.Executor.{waiting}
use threadx_rust.Executor.Contract.{AllSet}
use threadx_rust.Base.{
  set-set, set-get_elem?, ap, refl, ◌>>=◌, >>=-ok, none, some, Option, ==_refl, get_elem?-set, set,
  ◌>>◌, pure, some, Never, Prog, get_elem?, ℕ, ◌≡◌, ◌∙◌, ok,
}
use threadx_rust.Executor.{
  Executor, claim_slot, release_slot, wait_flags, unused, empty, ExecutorApi, World, Signal, Poll,
  pending, ready, notify, wait, poll_loop, block_on, position_unused,
}
use threadx_rust.Executor.Contract.{KernelContract}
use threadx_rust.Executor.Effects.{passed, signal, claim_slot-some, release_slot-lem}
use threadx_rust.Executor.Slots.{position_unused-get}

-- A future with a script of the polls that answer `Pending`: whether the poll uses the waker itself.
unfoldable pub yielding :
    {K Item : Type 0} (os : ExecutorApi K)
    → Item
    → Signal
    → List Bool
    → Prog (World K) Never (Poll (List Bool) Item)
yielding os item s [] = pure (ready item)
yielding os item s (true ∷ script) = notify os s >> pure (pending script)
yielding os item s (false ∷ script) = pure (pending script)

module _ {K : Type 0} {os : ExecutorApi K} (c : KernelContract os) where
  -- Whatever else the other threads do while the task of slot `i` sleeps: one of them has notified it,
  -- which leaves its slot empty, and the flag that it waits for is set.
  abbrev pub Wakes : ℕ → (World K → World K) → Type 0
  Wakes i others =
      (w : World K)
      → get_elem? w.signals i ≡ some waiting
      → (get_elem? (others w).signals i ≡ some empty)
        × AllSet (c.bit (others w).kernel) (2 ^ i % 2 ^ 32)

module _ {K Item : Type 0} {os : ExecutorApi K} (c : KernelContract os) (item : Item)
    (others : World K → World K) (i : ℕ) (woken : Wakes c i others) where
  abbrev s : Signal
  s = signal os i

  abbrev again : ℕ → List Bool → Prog (World K) Never (Option Item)
  again fuel = poll_loop os (yielding os item) others fuel s

  abbrev step : ℕ → Poll (List Bool) Item → Prog (World K) Never (Option Item)
  step fuel r = elim r [ pending m ↦ (wait os others s >> again fuel m) | ready x ↦ pure (some x) ]

  abbrev resume : Option ℕ → Prog (World K) Never (Unit {0})
  resume flag = elim flag [ none ↦ pure tt | some f ↦ (λ v. wait_flags os s f (others v)) ]

module _ {K Fut Item : Type 0} {os : ExecutorApi K} (c : KernelContract os)
    (poll : Signal → Fut → Prog (World K) Never (Poll Fut Item)) (others : World K → World K)
    (executor : Executor) where
  -- A future that is ready at its first poll, which leaves the table alone: the slot is claimed
  -- and given back, and the table is as it was.
  pub block_on-ready :
      (fut : Fut) (x : Item) (w : World K) {i : ℕ} {k : K}
      → position_unused w.signals ≡ some i
      → let w1 : World K = record w {
        signals = set w.signals i empty;
        kernel = passed c w.kernel;
      } in
        poll (record { state_index = i; event_flag_handle = executor.event_handle }) fut w1
          ≡ (ok (ready x), record w1 { kernel = k })
        → block_on os poll others 1 executor fut w ≡ (ok (some x), record w { kernel = passed c k })
  unfolding block_on poll_loop
  block_on-ready fut x w {i} {k} free p =
      let w1 : World K = record w { signals = set w.signals i empty; kernel = passed c w.kernel } in
      let w2 : World K = record w1 { kernel = k } in
      let was = position_unused-get w.signals i free in
      let at1 : get_elem? w2.signals i ≡ some empty =
        rw (get_elem?-set w.signals i i empty was, ==_refl i) refl in
      let finish : ℕ → Option Item → Prog (World K) Never (Option Item) =
        λ j r. elim r [ none ↦ pure none | some y ↦ (release_slot os j >> pure (some y)) ] in
      let at : ℕ → Signal =
        λ j. record { state_index = j; event_flag_handle = executor.event_handle } in
      let polling : ℕ → Prog (World K) Never (Option Item) =
        λ j. poll_loop os poll others 1 (at j) fut in
      let step : Poll Fut Item → Prog (World K) Never (Option Item) = λ r. elim r [
        | pending m ↦ (wait os others (at i) >> pure none)
        | ready y ↦ pure (some y)
      ] in
      let same : set w2.signals i unused ≡ w.signals =
        set-set w.signals i empty unused ∙ set-get_elem? w.signals i was in
      >>=-ok (claim_slot os) (λ j. (polling j >>= finish j)) (claim_slot-some c w i free)
      ∙ >>=-ok (polling i) (finish i) (>>=-ok (poll (at i) fut) step p)
      ∙ >>=-ok (release_slot os i) (λ _. pure (some x)) (release_slot-lem c w2 i at1)
      ∙ ap (λ l. (ok (some x), record w { signals = l; kernel = passed c k })) same
