-- ===== src/Error/Tests.antt =====
-- threadx-rs/src/error.rs and threadx-rs/src/time.rs: statuses and durations.
use threadx_rust.Sys
use threadx_rust.Base.{err, ◌≢◌, ok, ◌⊎◌, some, none, ◌+◌, ℕ, ◌≡◌, ◌↔◌}
use threadx_rust.Error.{from_u32, discriminant, TxError, queue_full}
use threadx_rust.Error.Codes.{from_u32_iff, tx_checked_call_lem}
use threadx_rust.Call.{tx_checked_call, KernelCall}

from_u32_iff_example : (from_u32 0x0b ≡ some queue_full) ↔ (discriminant queue_full ≡ 0x0b)
from_u32_iff_example = from_u32_iff 0x0b queue_full

-- A call that answers with a status of no variant.
abbrev odd : KernelCall ℕ ℕ
odd k = (0x77, k, k + 1)

tx_checked_call_lem_example :
    ((0x77 ≡ Sys.tx_success) × (tx_checked_call odd 5 ≡ (ok 5, 6)))
    ⊎ ((e : TxError) × (0x77 ≢ Sys.tx_success)
        × (tx_checked_call odd 5 ≡ (err e, 6))
        × ((discriminant e ≡ 0x77) ⊎ ((e ≡ TxError.unknown) × (from_u32 0x77 ≡ none))))
tx_checked_call_lem_example = tx_checked_call_lem odd 5
