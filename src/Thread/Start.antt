-- ===== src/Thread/Start.antt =====
-- threadx-rs/src/thread.rs: what the kernel is told when a thread is created.
use native.Mathlib.Decide.{dec_le}
use native.Mathlib.Nat.{mod-eq_of_lt}
use threadx_rust.Base.{
  ℕ, ◌-◌, ◌^◌, ◌≤◌, ◌<◌, ◌≡◌, refl, none, some, List, ◌∷◌, ◌++◌, arith, length, replicate,
  length-append, length-replicate, ◌⊎◌, inl, inr, panic, ok, Prog, Never,
}
use threadx_rust.Call.{KernelCall}
use threadx_rust.Boxed.{Machine, Slice, as_ulong}
use threadx_rust.Thread.{
  box_trampoline, local_bytes, ThreadCreate, ThreadApi, local_name, thread_box_callback_trampoline,
  initialize_with_autostart_box,
}

-- A kernel that also records the threads it is asked to create.
abbrev pub Log : Type 0 → Type 0
Log K = List ThreadCreate × K

abbrev pub quiet : {K A : Type 0} → KernelCall K A → KernelCall (Log K) A
quiet f s = let (ret, out, k) = f s.1 in (ret, out, (s.0, k))

abbrev pub logged : {K : Type 0} → ThreadApi K → ThreadApi (Log K)
logged os = record {
  tx_thread_create =
      λ c s. let (ret, out, k) = os.tx_thread_create c s.1 in (ret, out, (c ∷ s.0, k));
  tx_thread_resume = λ p. quiet (os.tx_thread_resume p);
  tx_thread_suspend = λ p. quiet (os.tx_thread_suspend p);
  tx_thread_delete = λ p. quiet (os.tx_thread_delete p);
  tx_thread_sleep = λ n. quiet (os.tx_thread_sleep n);
  tx_thread_name = λ p s. os.tx_thread_name p s.1;
  copy_tx_struct = λ p q s. (s.0, os.copy_tx_struct p q s.1);
}

-- The buffer of a thread's name has 32 bytes: the name, then zeros. A name of 32 bytes leaves no
-- terminator, and exactly the longer ones are a panic.
pub local_name_cases :
    (name : List ℕ)
    → ((bytes : List ℕ) × (local_name name ≡ some bytes)
        × (length bytes ≡ 32)
        × (bytes ≡ name ++ replicate (32 - length name) 0)
        × (length name ≤ 32))
      ⊎ ((local_name name ≡ none) × (32 < length name))
unfolding local_name
local_name_cases name = elim (dec_le (length name) 32) [
  | yes short ↦ inl (
    name ++ replicate (32 - length name) 0,
    ground arith,
    omega (
      arith,
      length-append name (replicate (32 - length name) 0),
      length-replicate {A = ℕ} (32 - length name) 0,
    ),
    refl,
    short,
  )
  | no long ↦ inr (ground arith, omega arith)
]

module _ {F K : Type 0} (os : ThreadApi K) (call : F → Log K → Log K) where
  -- For a name of at most 32 bytes, when the closure's box is allocated at an address below 2 ^ 32 and
  -- the allocation creates no thread, the kernel is asked once
  -- to create a thread, started at once, with the name padded to 32 bytes, and the trampoline on
  -- that thread's argument runs the closure that was passed in, whether or not the kernel reports
  -- success.
  pub autostart_runs_closure :
      (new_box : Prog (Log K) Never ℕ) (self : ℕ) (name : List ℕ) (f : F) (stack : Slice)
      (prio threshold slice : ℕ) (m : Machine F (Log K)) {at : ℕ} {k : Log K}
      → new_box m.kernel ≡ (ok at, k)
      → k.0 ≡ m.kernel.0
      → at < 2 ^ 32
      → length name ≤ 32
      → let m' =
          (initialize_with_autostart_box
            (logged os)
            new_box
            self
            name
            f
            stack
            prio
            threshold
            slice
            m).1 in
        (c : ThreadCreate) × (m'.kernel.0 ≡ c ∷ m.kernel.0)
        × (c.name ≡ local_bytes (name ++ replicate (32 - length name) 0))
        × (c.entry ≡ box_trampoline)
        × (c.auto_start ≡ 1)
        × (thread_box_callback_trampoline call c.entry_input m'
            ≡ some (record m' { kernel = call f m'.kernel }))
  unfolding initialize_with_autostart_box thread_box_callback_trampoline
  autostart_runs_closure new_box self name f stack prio threshold slice m {at} {k} allocated
        quiet_box small short =
      (
        record {
          thread_ptr = self;
          name = local_bytes (name ++ replicate (32 - length name) 0);
          entry = box_trampoline;
          entry_input = as_ulong at;
          stack_start = stack.ptr;
          stack_size = as_ulong stack.len;
          priority = prio;
          preempt_threshold = threshold;
          time_slice = slice;
          auto_start = 1;
        },
        ground arith,
        refl,
        refl,
        refl,
        ground (arith, mod-eq_of_lt small),
      )

  -- Creating a thread with a name of more than 32 bytes is a panic, and no thread is created.
  pub autostart_long_name :
      (new_box : Prog (Log K) Never ℕ) (self : ℕ) (name : List ℕ) (f : F) (stack : Slice)
      (prio threshold slice : ℕ) (m : Machine F (Log K)) {at : ℕ} {k : Log K}
      → new_box m.kernel ≡ (ok at, k)
      → 32 < length name
      → let (r, m') =
          initialize_with_autostart_box
            (logged os)
            new_box
            self
            name
            f
            stack
            prio
            threshold
            slice
            m in
        (r ≡ panic) × (m'.kernel ≡ k)
  unfolding initialize_with_autostart_box
  autostart_long_name new_box self name f stack prio threshold slice m {at} {k} allocated long =
      ground arith
