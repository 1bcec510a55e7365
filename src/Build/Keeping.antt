-- ===== src/Build/Keeping.antt =====
-- threadx-sys/build.rs, netx-sys/build.rs: facts about the state that the steps of a script keep.
use threadx_rust.Base.{
  Keeps, then-Keeps, option-Keeps, panics, pure, if◌then◌else◌, Bool, true, false, Option, Never,
}
use threadx_rust.Build.Script.{expect, io, expect_true, Io}

module _ {K : Type 0} {P : K → Type 0} where
  pub io-Keeps : {A : Type 0} (f : Io K A) → ((k : K) → P k → P (f k).1) → Keeps P (io f)
  io-Keeps f h = record { keeps = h }

  pub expect-Keeps :
      {A : Type 0} (f : Io K (Option A)) → ((k : K) → P k → P (f k).1) → Keeps P (expect f)
  expect-Keeps f h = then-Keeps {m = io f} (io-Keeps f h) option-Keeps

  pub expect_true-Keeps : (f : Io K Bool) → ((k : K) → P k → P (f k).1) → Keeps P (expect_true f)
  expect_true-Keeps f h =
      then-Keeps {m = io f} {f = λ b. if b then pure tt else panics} (io-Keeps f h) checked
    where
      checked : (b : Bool) → Keeps P (if b then pure {E = Never} tt else panics)
      checked true = record { keeps = λ k p. p }
      checked false = record { keeps = λ k p. p }
