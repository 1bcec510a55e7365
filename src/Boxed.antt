-- ===== src/Boxed.antt =====
-- Closures in boxes, and their addresses as the argument word of a C callback
-- (`Box::into_raw`, `expose_provenance`, `with_exposed_provenance_mut`).
use threadx_rust.Base.{
  ℕ, ◌%◌, ◌^◌, Option, some, ◌==◌, if◌then◌else◌, Prog, Never, unwrap, modify, pure, ◌>>=◌, ◌>>◌,
}
use threadx_rust.Call.{KernelCall}

-- The kernel's state, and the boxes on the heap by address.
pub record Machine (F K : Type 0) : Type 0 where
  pub boxes : ℕ → Option F
  pub kernel : K

module _ {F K : Type 0} where
  -- `Box::into_raw(Box::new(f))`, where the allocator answers with the address `at`.
  abbrev pub into_raw : F → ℕ → Machine F K → Machine F K
  into_raw f at m = record m { boxes = λ a. if a == at then some f else m.boxes a }

  abbrev pub on_kernel : {A : Type 0} → KernelCall K A → KernelCall (Machine F K) A
  on_kernel f m = let (ret, out, k) = f m.kernel in (ret, out, record m { kernel = k })

module _ {F K : Type 0} where
  -- `Box::into_raw(Box::new(f))` for a closure `f` that is a box itself: a wide pointer, of eight bytes
  -- aligned to four. `new_box` is this allocation on the global allocator.
  abbrev pub boxed : {E : Type 0} → (new_box : Prog K Never ℕ) → F → Prog (Machine F K) E ℕ
  boxed new_box f = do
    at ← unwrap (λ m. let (r, k) = new_box m.kernel in (r, record m { kernel = k }))
    modify (into_raw f at)
    pure at

-- A cast to the 32-bit `ULONG`.
abbrev pub as_ulong : ℕ → ℕ
as_ulong n = n % 2 ^ 32

-- A `&mut [u8]`: its address and its length.
pub record Slice : Type 0 where
  pub ptr : ℕ
  pub len : ℕ
