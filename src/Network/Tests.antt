-- ===== src/Network/Tests.antt =====
-- threadx-app/cross/app/src/network: a network whose connection is refused and whose packets
-- arrive.
use threadx_rust.Base.{
  ◌≢◌, ◌&&◌, ◌≤◌, ◌⊎◌, true, ok, ◌<◌, Bool, err, false, ◌+◌, ◌∷◌, [], none, ℕ, ◌≡◌,
}
use threadx_rust.Boxed.{Slice}
use threadx_rust.Network.{nx_no_packet, nx_from_u32}
use threadx_rust.Network.Stack.{
  would_block, unsupported_protocol, v6, buffer_too_small, no_sockets_available, other, v4,
  tcp_from_nx, send, close, connect, socket, receive, NetxApi, NetxTcpSocket,
}
use threadx_rust.Network.Sockets.{
  allocated, appended, sent, bound, disconnected, received, retrieved, released, unbound, connected,
  logged, recording, connect_calls, close_calls, Fails,
}
use threadx_rust.Network.Packets.{send_calls, receive_calls}

abbrev os : NetxApi ℕ
os = record {
  tcp_client_socket_bind = λ s p w k. (0, tt, k);
  tcp_client_socket_connect = λ s i p w k. (0x38, tt, k);
  tcp_client_socket_unbind = λ s k. (0, tt, k);
  tcp_socket_disconnect = λ s w k. (0x41, tt, k);
  packet_allocate = λ p t w k. (0, k, k + 1);
  packet_data_append = λ p d n q w k. (0, tt, k);
  tcp_socket_send = λ s p w k. (0, tt, k);
  tcp_socket_receive = λ s w k. (0, k, k + 1);
  packet_data_retrieve = λ p b k. (0, 12, k);
  packet_release = λ p k. (0, tt, k);
}

abbrev sock : NetxTcpSocket
sock = record { socket_ptr = 100 }

connect_calls_example :
    let (r, n) = connect (logged os) 200 sock (v4 0x0a000001 1883) (recording none 0) in
    let log = n.kernel.0 in
    (((r ≡ ok tt) × (log ≡ connected true ∷ bound true ∷ []))
      ⊎ (Fails r
          × ((log ≡ bound false ∷ [])
              ⊎ ((b : Bool) × (log ≡ unbound b ∷ connected false ∷ bound true ∷ [])))))
    × (connect (logged os) 200 sock (v6 0x0a000001 1883) (recording none 0)
        ≡ (err (other unsupported_protocol), recording none 0))
connect_calls_example = connect_calls os 200 none 0 sock 0x0a000001 1883

close_calls_example :
    let (r, n) = close (logged os) 200 sock (recording none 0) in
    let log = n.kernel.0 in
    ((r ≡ ok tt)
      × (log ≡ unbound true ∷ disconnected true ∷ [])
      × ((socket (logged os) 200 n).0 ≡ ok sock))
    ⊎ (Fails r
        × ((log ≡ disconnected false ∷ []) ⊎ (log ≡ unbound false ∷ disconnected true ∷ []))
        × ((socket (logged os) 200 n).0 ≡ err no_sockets_available))
close_calls_example = close_calls os 200 0 sock

send_calls_example :
    let (r, n) = send (logged os) 200 sock (1 ∷ 2 ∷ []) (recording none 0) in
    let log = n.kernel.0 in
    ((255 < 2) × (r ≡ err (other buffer_too_small)) × (log ≡ []))
    ⊎ ((2 ≤ 255)
        × (((r ≡ ok 2) × (log ≡ sent true ∷ appended true ∷ allocated true ∷ []))
            ⊎ (Fails r
                × ((log ≡ allocated false ∷ [])
                    ⊎ ((log ≡ appended false ∷ allocated true ∷ [])
                        ⊎ (log ≡ sent false ∷ appended true ∷ allocated true ∷ []))))))
send_calls_example = send_calls os 200 none 0 sock (1 ∷ 2 ∷ [])

abbrev buffer : Slice
buffer = record { ptr = 5000; len = 8 }

receive_calls_example :
    let (r, n) = receive (logged os) 200 sock buffer (recording none 0) in
    let log = n.kernel.0 in
    ((b c : Bool) × (log ≡ released b ∷ retrieved c ∷ received true ∷ [])
      × (((b && c ≡ true) × (r ≡ ok 12)) ⊎ ((b && c ≡ false) × Fails r × (r ≢ err would_block))))
    ⊎ ((log ≡ received false ∷ [])
        × (((0 ≡ nx_no_packet) × (r ≡ err would_block))
            ⊎ ((0 ≢ nx_no_packet) × (r ≡ err (other (tcp_from_nx (nx_from_u32 0)))))))
receive_calls_example = receive_calls os 200 none 0 sock buffer

-- The first pool cannot be created.
