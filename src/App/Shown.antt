-- ===== src/App/Shown.antt =====
-- threadx-app/cross/app/src/bin/network.rs: what do_network relies on, and what leaves the queue and
-- the published payloads alone.
use threadx_rust.Mutex.Static.{tx_checked_call-state, static_lock-state, drop_static_guard-state}
use threadx_rust.Mutex.{static_lock, drop_static_guard, MutexGuardStatic}
use threadx_rust.Call.{wait_code}
use threadx_rust.Base.{
  arith, Option-cases, inl, inr, unwrap-state, get_elem?, ◌≢◌, ℕ, ◌≡◌, refl, ap, ◌∙◌, true, Option,
  none, some, List, [], ◌∷◌, ◌++◌, Prog, Never, unwrap, Keeps, then-Keeps, next-Keeps, pure-Keeps,
}
use threadx_rust.Uprotocol.Transport.{MqttApi, poll}
use Prim.Native.String.{String}
use threadx_rust.Sys
use threadx_rust.Time.{Duration, ticks}
use threadx_rust.Thread.{ThreadApi, sleep}
use threadx_rust.Queue.{QueueApi}
use threadx_rust.Executor.{
  position_unused, unused, empty, set_signal, get_signal, first_unused, ExecutorApi, World,
  on_kernel, lock_signals, unlock_signals, claim_slot, release_slot,
}
use threadx_rust.App.Payload.{Event}
use threadx_rust.Call.{wait_forever}
use threadx_rust.Base.{unwrap_option}

-- The events in the queue, and the payloads that have been published, in order.
abbrev pub Shown : Type 0
Shown = List Event × List (List ℕ)

-- What the turn relies on: a receive that does not wait takes the first event of the queue, and
-- fails only when there is none, a publication that succeeds is added to those before, and all
-- other calls touch neither. Each field is about the call by itself: what other threads do while
-- the caller sleeps is a step of its own, after the call, wherever a theorem speaks of it.
pub record Contract {K : Type 0} (os : ExecutorApi K) (threads : ThreadApi K)
    (queues : QueueApi K Event) (client : MqttApi K) (queue_ptr : ℕ) : Type 0 where
  pub shown : K → Shown
  pub received :
      (k : K)
      → let (ret, e, k') = queues.tx_queue_receive queue_ptr Sys.tx_no_wait k in
        ret ≡ Sys.tx_success → ((shown k).0 ≡ e ∷ (shown k').0) × ((shown k').1 ≡ (shown k).1)
  pub not_received :
      (k : K)
      → let (ret, _, k') = queues.tx_queue_receive queue_ptr Sys.tx_no_wait k in
        ret ≢ Sys.tx_success → ((shown k).0 ≡ []) × (shown k' ≡ shown k)
  pub published :
      (topic : String) (payload : List ℕ) (properties : List (String × String)) (k : K)
      → let (done, k') = client.publish topic payload properties k in
        done ≡ true → shown k' ≡ ((shown k).0, (shown k).1 ++ payload ∷ [])
  pub polled : (k : K) → shown (client.poll_client k).1 ≡ shown k
  pub asked : (k : K) → shown (client.client_is_connected k).1 ≡ shown k
  pub locked : (m w : ℕ) (k : K) → shown (os.mutexes.tx_mutex_get m w k).2 ≡ shown k
  pub unlocked : (m : ℕ) (k : K) → shown (os.mutexes.tx_mutex_put m k).2 ≡ shown k
  pub slept : (n : ℕ) (k : K) → shown (threads.tx_thread_sleep n k).2 ≡ shown k

module _ {K : Type 0} {os : ExecutorApi K} {threads : ThreadApi K} {queues : QueueApi K Event}
    {client : MqttApi K} {queue_ptr : ℕ} (c : Contract os threads queues client queue_ptr) where
  abbrev pub Shows : Shown → World K → Type 0
  Shows x w = c.shown w.kernel ≡ x

  pub on_kernel-Keeps :
      {A : Type 0} (x : Shown) (p : Prog K Never A)
      → ((k : K) → c.shown (p k).1 ≡ c.shown k)
      → Keeps (Shows x) (on_kernel p)
  on_kernel-Keeps x p h = record { keeps = λ w s. h w.kernel ∙ s }

  pub lock-Keeps : (x : Shown) → Keeps (Shows x) (lock_signals os)
  unfolding lock_signals
  lock-Keeps x =
      let m = static_lock os.mutexes os.mutex_s wait_forever in
      on_kernel-Keeps x (unwrap m) (λ k.
        ap c.shown (unwrap-state m k ∙ static_lock-state os.mutexes os.mutex_s wait_forever k)
        ∙ c.locked os.mutex_s (wait_code wait_forever) k)

  pub unlock-Keeps : (x : Shown) (g : MutexGuardStatic) → Keeps (Shows x) (unlock_signals os g)
  unfolding unlock_signals
  unlock-Keeps x g =
      on_kernel-Keeps x (drop_static_guard os.mutexes g)
        (λ k. ap c.shown (drop_static_guard-state os.mutexes g k) ∙ c.unlocked g.mutex_ptr k)

  pub table-Keeps :
      {A : Type 0} (x : Shown) (p : Prog (World K) Never A)
      → ((w : World K) → (p w).1.kernel ≡ w.kernel)
      → Keeps (Shows x) p
  table-Keeps x p h = record { keeps = λ w s. ap c.shown (h w) ∙ s }

  option-kernel :
      {A : Type 0} (w : World K) (o : Option A)
      → (unwrap_option {E = Never} o w).1.kernel ≡ w.kernel
  option-kernel w none = refl
  option-kernel w (some a) = refl

  pub claim_slot-Keeps : (x : Shown) → Keeps (Shows x) (claim_slot os)
  unfolding claim_slot
  claim_slot-Keeps x = then-Keeps (lock-Keeps x) (λ g.
      then-Keeps (table-Keeps x first_unused (λ w. option-kernel w (position_unused w.signals)))
        (λ idx.
          next-Keeps (table-Keeps x (set_signal idx empty) (λ w. refl))
            (next-Keeps (unlock-Keeps x g) (pure-Keeps idx))))

  pub release_slot-Keeps : (x : Shown) (idx : ℕ) → Keeps (Shows x) (release_slot os idx)
  unfolding release_slot
  release_slot-Keeps x idx = then-Keeps (lock-Keeps x) (λ g.
      next-Keeps (table-Keeps x (get_signal idx) (λ w. option-kernel w (get_elem? w.signals idx)))
        (next-Keeps (table-Keeps x (set_signal idx unused) (λ w. refl)) (unlock-Keeps x g)))

  -- Sleeping, whatever comes of it.
  pub sleep-shown :
      (ticks_per_second : ℕ) (d : Duration) (k : K)
      → c.shown (sleep threads ticks_per_second d k).1 ≡ c.shown k
  unfolding sleep
  sleep-shown ticks_per_second d k = elim (Option-cases (ticks ticks_per_second d)) [
    | inl e ↦ rw e refl
    | inr (n, e) ↦
        rw e (ap c.shown (tx_checked_call-state (threads.tx_thread_sleep n) k) ∙ c.slept n k)
  ]

  pub poll-shown : (k : K) → c.shown (poll client {E = Never} k).1 ≡ c.shown k
  unfolding poll
  poll-shown k = ap c.shown same ∙ c.polled k
    where
      same : (poll client {E = Never} k).1 ≡ (client.poll_client k).1
      same = ground arith
