-- ===== src/Launch/Checked.antt =====
-- threadx-app/cross/app/src/bin: with overflow checks, as in the profile for development, no thread is
-- started.
use Prim.Native.String.{String}
use threadx_rust.Base.{ℕ, ◌≡◌, true, Prog, Never, panic, arith, Keeps, Stops}
use threadx_rust.Allocator
use threadx_rust.Allocator.{alloc, padded_size, sub_usize}
use threadx_rust.Boxed.{Slice}
use threadx_rust.Launch.{StartApi, fn_box, start_thread}
use threadx_rust.Thread.{initialize_with_autostart_box}

-- What holds of every state.
abbrev pub Anything : {K : Type 0} → K → Type 0
Anything k = Unit

pub any-Keeps : {K A : Type 0} (m : Prog K Never A) → Keeps Anything m
any-Keeps m = record { keeps = λ k p. tt }

module _ {C T K : Type 0} (api : StartApi C T K) where
  -- The layout of the box around a closure has a size above its alignment, and the difference
  -- underflows.
  fn_box-panic : (a : Allocator.Allocator K) → (fn_box api true a).0 ≡ panic
  unfolding alloc padded_size sub_usize
  fn_box-panic a = ground arith

module _ {C T F K : Type 0} (api : StartApi C T K) where
  pub start_thread-Stops :
      (thread : ℕ) (name : String) (closure : F) (stack : Slice) (priority : ℕ)
      → Stops Anything (start_thread api true thread name closure stack priority)
  unfolding start_thread initialize_with_autostart_box
  start_thread-Stops thread name closure stack priority = record {
    stops = λ m p. (ground (arith, fn_box-panic api m.kernel), tt);
  }
