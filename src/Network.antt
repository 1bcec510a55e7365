-- ===== src/Network.antt =====
-- threadx-app/cross/app/src/network/mod.rs: the errors of NetX Duo and its checked calls, with the
-- constants of netx-sys/src/lib.rs.
pub mod Stack
pub mod Setup
pub mod Errors
pub mod Sockets
pub mod Packets
pub mod Once
mod Tests
use threadx_rust.Base.{◌+◌, ℕ, Prog, ok, err, if◌then◌else◌, ◌==◌}
use threadx_rust.Call.{KernelCall}

abbrev pub nx_ipv4_packet : ℕ
nx_ipv4_packet = 14 + 12 + 18 + 20

abbrev pub nx_ipv4_tcp_packet : ℕ
nx_ipv4_tcp_packet = nx_ipv4_packet + 20

abbrev pub nx_dont_fragment : ℕ
nx_dont_fragment = 0x00004000

abbrev pub nx_ip_normal : ℕ
nx_ip_normal = 0

abbrev pub nx_no_wait : ℕ
nx_no_wait = 0

abbrev pub nx_wait_forever : ℕ
nx_wait_forever = 0xffffffff

abbrev pub nx_ip_address_resolved : ℕ
nx_ip_address_resolved = 0x0002

abbrev pub nx_success : ℕ
nx_success = 0

abbrev pub nx_no_packet : ℕ
nx_no_packet = 0x01

abbrev pub nx_pool_error : ℕ
nx_pool_error = 0x06

abbrev pub nx_not_connected : ℕ
nx_not_connected = 0x38

pub data NxError : Type 0 where
  pool_error : NxError
  socket_closed : NxError
  already_initialized : NxError
  unknown : NxError

-- `NxError::from_u32`.
unfoldable pub nx_from_u32 : ℕ → NxError
nx_from_u32 val =
    if val == nx_pool_error
    then pool_error
    else if val == nx_not_connected
    then socket_closed
    else unknown

-- `nx_checked_call!`
unfoldable pub nx_checked_call : {K A : Type 0} → KernelCall K A → Prog K NxError A
unfolding nx_from_u32
nx_checked_call f k =
    let (ret, out, k') = f k in
    if ret == nx_success then (ok out, k') else (err (nx_from_u32 ret), k')
