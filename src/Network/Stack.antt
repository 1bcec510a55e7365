-- ===== src/Network/Stack.antt =====
-- threadx-app/cross/app/src/network/network.rs: the TCP client stack on one NetX socket.
use threadx_rust.Base.{
  none, some, modify, gets, ◌>>=◌, ◌>>◌, ◌-◌, length, fail, replicate, ◌++◌, pure, ltb, catch,
  Option, List, ℕ, Prog, ok, if◌then◌else◌, ◌==◌,
}
use threadx_rust.Call.{KernelCall}
use threadx_rust.Boxed.{Slice}
use threadx_rust.Network.{
  nx_no_packet, nx_success, nx_ipv4_tcp_packet, nx_no_wait, nx_wait_forever, NxError,
  nx_checked_call, nx_from_u32,
}

pub data NetxTcpError : Type 0 where
  socket_closed : NetxTcpError
  unsupported_protocol : NetxTcpError
  buffer_too_small : NetxTcpError
  no_sockets_available : NetxTcpError
  unknown : NetxTcpError

-- `embedded_nal::TcpErrorKind`, as far as it is used.
pub data TcpErrorKind : Type 0 where
  pipe_closed : TcpErrorKind
  other_kind : TcpErrorKind

-- `TcpError::kind`
unfoldable pub kind : NetxTcpError → TcpErrorKind
kind socket_closed = pipe_closed
kind _ = other_kind

-- `From<NxError> for NetxTcpError`
unfoldable pub tcp_from_nx : NxError → NetxTcpError
tcp_from_nx NxError.socket_closed = socket_closed
tcp_from_nx _ = unknown

-- `embedded_nal::nb::Error`
pub data NbError (E : Type 0) : Type 0 where
  other : E → NbError E
  would_block : NbError E

-- `From<NxError> for nb::Error<NetxTcpError>`
unfoldable pub nb_from_nx : NxError → NbError NetxTcpError
unfolding tcp_from_nx
nb_from_nx NxError.socket_closed = other socket_closed
nb_from_nx e = other (tcp_from_nx e)

-- The calls of NetX Duo on sockets and packets. A packet and a socket are addresses.
pub record NetxApi (K : Type 0) : Type 0 where
  pub tcp_client_socket_bind : (socket_ptr port wait_option : ℕ) → KernelCall K (Unit {0})
  pub tcp_client_socket_connect :
      (socket_ptr server_ip server_port wait_option : ℕ) → KernelCall K (Unit {0})
  pub tcp_client_socket_unbind : (socket_ptr : ℕ) → KernelCall K (Unit {0})
  pub tcp_socket_disconnect : (socket_ptr wait_option : ℕ) → KernelCall K (Unit {0})
  pub packet_allocate : (pool_ptr packet_type wait_option : ℕ) → KernelCall K ℕ
  pub packet_data_append :
      (packet_ptr : ℕ) (data_start : List ℕ) (data_size pool_ptr wait_option : ℕ)
      → KernelCall K (Unit {0})
  pub tcp_socket_send : (socket_ptr packet_ptr wait_option : ℕ) → KernelCall K (Unit {0})
  pub tcp_socket_receive : (socket_ptr wait_option : ℕ) → KernelCall K ℕ
  pub packet_data_retrieve : (packet_ptr buffer_ptr : ℕ) → KernelCall K ℕ
  pub packet_release : (packet_ptr : ℕ) → KernelCall K (Unit {0})

pub record NetxTcpSocket : Type 0 where
  pub socket_ptr : ℕ

-- `ThreadxTcpWifiNetwork`, with the kernel beside it.
pub record Network (K : Type 0) : Type 0 where
  pub free_socket : Option NetxTcpSocket
  pub kernel : K

abbrev pub on_net : {K A : Type 0} → KernelCall K A → KernelCall (Network K) A
on_net f n = let (ret, out, k) = f n.kernel in (ret, out, record n { kernel = k })

-- `core::net::SocketAddr`
pub data SocketAddr : Type 0 where
  v4 : (ip port : ℕ) → SocketAddr
  v6 : (ip port : ℕ) → SocketAddr

-- The status of a call that is not checked, with what it wrote.
abbrev pub raw : {S E A : Type 0} → KernelCall S A → Prog S E (ℕ × A)
raw f s = let (ret, out, s') = f s in (ok (ret, out), s')

-- `r?` into another error type
abbrev pub into : {S E F A : Type 0} → (E → F) → Prog S E A → Prog S F A
into f m = catch m pure (λ e. fail (f e))

-- A buffer copied to the front of an array of zeros.
abbrev pub fill : List ℕ → ℕ → List ℕ
fill l n = l ++ replicate (n - length l) 0

-- `POOL[TX_IDX]` is at the address `tx_pool`.
module _ {K : Type 0} (os : NetxApi K) (tx_pool : ℕ) where
  unfoldable pub socket : Prog (Network K) NetxTcpError NetxTcpSocket
  socket = do
    sock ← gets (λ n. n.free_socket)
    modify (λ n. record n { free_socket = none })
    elim sock [ none ↦ fail no_sockets_available | some s ↦ pure s ]

  unfoldable pub connect :
      NetxTcpSocket → SocketAddr → Prog (Network K) (NbError NetxTcpError) (Unit {0})
  connect s (v4 ip port) = do
    into nb_from_nx
        (nx_checked_call (on_net (os.tcp_client_socket_bind s.socket_ptr 0 nx_wait_forever)))
    res ← raw (on_net (os.tcp_client_socket_connect s.socket_ptr ip port nx_wait_forever))
    if res.0 == nx_success
        then pure tt
        else (into nb_from_nx (nx_checked_call (on_net (os.tcp_client_socket_unbind s.socket_ptr)))
            >> fail (nb_from_nx (nx_from_u32 res.0)))
  connect s (v6 ip port) = fail (other unsupported_protocol)

  unfoldable pub send : NetxTcpSocket → List ℕ → Prog (Network K) (NbError NetxTcpError) ℕ
  send s buffer = if ltb 255 (length buffer) then fail (other buffer_too_small) else (do
    packet_ptr ←
        into nb_from_nx
          (nx_checked_call (on_net (os.packet_allocate tx_pool nx_ipv4_tcp_packet nx_wait_forever)))
    into nb_from_nx (
        nx_checked_call (
          on_net (
            os.packet_data_append packet_ptr (fill buffer 256) (length buffer) tx_pool
              nx_wait_forever)))
    into nb_from_nx
        (nx_checked_call (on_net (os.tcp_socket_send s.socket_ptr packet_ptr nx_wait_forever)))
    pure (length buffer))

  -- The length of the buffer is not used.
  unfoldable pub receive : NetxTcpSocket → Slice → Prog (Network K) (NbError NetxTcpError) ℕ
  receive s buffer = do
    got ← raw (on_net (os.tcp_socket_receive s.socket_ptr nx_no_wait))
    if got.0 == nx_success
        then (do
          copied ← raw (on_net (os.packet_data_retrieve got.1 buffer.ptr))
          into nb_from_nx (nx_checked_call (on_net (os.packet_release got.1)))
          if copied.0 == nx_success
              then pure copied.1
              else fail (other (tcp_from_nx (nx_from_u32 copied.0))))
        else if got.0 == nx_no_packet
        then fail would_block
        else fail (other (tcp_from_nx (nx_from_u32 got.0)))

  unfoldable pub close : NetxTcpSocket → Prog (Network K) NetxTcpError (Unit {0})
  close s = do
    into tcp_from_nx
        (nx_checked_call (on_net (os.tcp_socket_disconnect s.socket_ptr nx_wait_forever)))
    into tcp_from_nx (nx_checked_call (on_net (os.tcp_client_socket_unbind s.socket_ptr)))
    modify (λ n. record n { free_socket = some (record { socket_ptr = s.socket_ptr }) })
