-- ===== src/Call.antt =====
-- threadx-rs/src/lib.rs: the checked calls into the kernel and the wait options.
use threadx_rust.Base.{ℕ, Option, none, some, Prog, ok, err, if◌then◌else◌, ◌==◌}
use threadx_rust.Sys
use threadx_rust.Error.{TxError, unknown, from_u32}

-- A call of a C function: its status code, what it wrote through its out pointers, and the state
-- of the kernel after it.
abbrev pub KernelCall : Type 0 → Type 0 → Type 0
KernelCall K A = K → ℕ × A × K

abbrev unwrap_or : Option TxError → TxError → TxError
unwrap_or none d = d
unwrap_or (some e) d = e

-- `tx_checked_call!`. What the call wrote is read only after a success. The log output of the
-- macro has no effect on the program's state.
unfoldable pub tx_checked_call : {K A : Type 0} → KernelCall K A → Prog K TxError A
tx_checked_call f k =
    let (ret, out, k') = f k in
    if ret == Sys.tx_success then (ok out, k') else (err (unwrap_or (from_u32 ret) unknown), k')

-- `tx_checked_call_no_log!`
unfoldable pub tx_checked_call_no_log : {K A : Type 0} → KernelCall K A → Prog K TxError A
tx_checked_call_no_log f k =
    let (ret, out, k') = f k in
    if ret == Sys.tx_success then (ok out, k') else (err (unwrap_or (from_u32 ret) unknown), k')

pub data WaitOption : Type 0 where
  wait_forever : WaitOption
  no_wait : WaitOption

-- `wait as ULONG`
unfoldable pub wait_code : WaitOption → ℕ
wait_code wait_forever = Sys.tx_wait_forever
wait_code no_wait = Sys.tx_no_wait
