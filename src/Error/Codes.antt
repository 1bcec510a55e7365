-- ===== src/Error/Codes.antt =====
-- threadx-rs/src/error.rs and the checked call: which status gives which error.
use threadx_rust.Base.{
  ℕ, ◌≡◌, ◌≢◌, refl, ◌⊎◌, inl, inr, ◌↔◌, none, some, arith, code-find_code, ok, err, Option-cases,
  ◌==◌, Bool-cases, ==_iff,
}
use threadx_rust.Sys
use threadx_rust.Error.{TxError, discriminant, variants, from_u32, unknown}
use threadx_rust.Call.{tx_checked_call_no_log, KernelCall, tx_checked_call}

from_u32-discriminant : (e : TxError) → from_u32 (discriminant e) ≡ some e
unfolding from_u32
from_u32-discriminant TxError.deleted = refl
from_u32-discriminant _ = refl

discriminant-from_u32 : (n : ℕ) {e : TxError} → from_u32 n ≡ some e → discriminant e ≡ n
unfolding from_u32
discriminant-from_u32 n h = code-find_code discriminant n variants h

-- A status decodes to a variant exactly when it is that variant's discriminant, so no two
-- variants share a code.
pub from_u32_iff : (n : ℕ) (e : TxError) → (from_u32 n ≡ some e) ↔ (discriminant e ≡ n)
from_u32_iff n e = (discriminant-from_u32 n, λ p. rw (← p) (from_u32-discriminant e))

pub discriminant-ne-success : (e : TxError) → discriminant e ≢ Sys.tx_success
unfolding discriminant
discriminant-ne-success TxError.deleted = omega arith
discriminant-ne-success _ = omega arith

module _ {K A : Type 0} (f : KernelCall K A) (k : K) where
  abbrev status : ℕ
  status = (f k).0

  -- A checked call keeps the kernel's state. It returns what the call wrote exactly on
  -- `TX_SUCCESS`; on any other status it fails, with the variant of that code if there is one,
  -- and with `Unknown` otherwise.
  pub tx_checked_call_lem :
      ((status ≡ Sys.tx_success) × (tx_checked_call f k ≡ (ok (f k).1, (f k).2)))
      ⊎ ((e : TxError) × (status ≢ Sys.tx_success)
          × (tx_checked_call f k ≡ (err e, (f k).2))
          × ((discriminant e ≡ status) ⊎ ((e ≡ unknown) × (from_u32 status ≡ none))))
  unfolding tx_checked_call
  tx_checked_call_lem = elim (Bool-cases (status == Sys.tx_success)) [
    | inl success ↦ inl ((==_iff status Sys.tx_success).0 success, ground arith)
    | inr failed ↦ elim (Option-cases (from_u32 status)) [
      | inl p ↦ inr (unknown, ground arith, ground arith, ground arith)
      | inr (e, p) ↦ inr (e, ground arith, ground arith, inl (discriminant-from_u32 status p))
    ]
  ]

  pub tx_checked_call-ok : status ≡ Sys.tx_success → tx_checked_call f k ≡ (ok (f k).1, (f k).2)
  tx_checked_call-ok h = elim tx_checked_call_lem [
    | inl (_, p) ↦ p
    | inr (e, n, _, _) ↦ absurd (n h)
  ]

-- The macro without log output decides alike.
pub tx_checked_call_no_log-ok :
    {K A : Type 0} (f : KernelCall K A) (k : K)
    → (f k).0 ≡ Sys.tx_success
    → tx_checked_call_no_log f k ≡ (ok (f k).1, (f k).2)
unfolding tx_checked_call_no_log
tx_checked_call_no_log-ok f k h = ground arith

pub tx_checked_call_no_log-err :
    {K A : Type 0} (f : KernelCall K A) (k : K) {e : TxError}
    → (f k).0 ≡ discriminant e
    → tx_checked_call_no_log f k ≡ (err e, (f k).2)
unfolding tx_checked_call_no_log
tx_checked_call_no_log-err f k {e} h =
    let n = discriminant-ne-success e in
    let d = from_u32-discriminant e in let p : (from_u32 (f k).0) ≡ some e = rw h d in ground arith

pub tx_checked_call-err :
    {K A : Type 0} (f : KernelCall K A) (k : K) {e : TxError}
    → (f k).0 ≡ discriminant e
    → tx_checked_call f k ≡ (err e, (f k).2)
unfolding tx_checked_call
tx_checked_call-err f k {e} h =
    let n = discriminant-ne-success e in
    let d = from_u32-discriminant e in let p : (from_u32 (f k).0) ≡ some e = rw h d in ground arith
