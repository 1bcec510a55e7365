-- ===== src/Network/Errors.antt =====
-- threadx-app/cross/app/src/network: which NetX status gives which error of the TCP stack.
use threadx_rust.Base.{err, ◌≢◌, ok, arith, ℕ, ◌≡◌, ◌↔◌, ◌⊎◌}
use threadx_rust.Network.{nx_success, KernelCall, nx_checked_call, nx_from_u32, nx_not_connected}
use threadx_rust.Network.Stack.{tcp_from_nx, nb_from_nx, kind, other, pipe_closed}

-- A status of NetX becomes an error that reports a closed pipe exactly when it is
-- `NX_NOT_CONNECTED`; it never becomes `WouldBlock`, and both conversions give the same error.
pub closed_iff :
    (status : ℕ)
    → ((kind (tcp_from_nx (nx_from_u32 status)) ≡ pipe_closed) ↔ (status ≡ nx_not_connected))
      × (nb_from_nx (nx_from_u32 status) ≡ other (tcp_from_nx (nx_from_u32 status)))
unfolding kind tcp_from_nx nb_from_nx nx_from_u32
closed_iff status = ground arith

-- A checked call, by the status of the call.
pub nx_checked-cases :
    {K A : Type 0} (f : KernelCall K A) (k : K)
    → (((f k).0 ≡ nx_success) × (nx_checked_call f k ≡ (ok (f k).1, (f k).2)))
      ⊎ (((f k).0 ≢ nx_success) × (nx_checked_call f k ≡ (err (nx_from_u32 (f k).0), (f k).2)))
unfolding nx_checked_call
nx_checked-cases f k = ground arith
