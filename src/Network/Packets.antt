-- ===== src/Network/Packets.antt =====
-- threadx-app/cross/app/src/network/network.rs: sending and receiving packets.
use threadx_rust.Network.Errors.{closed_iff, nx_checked-cases}
use threadx_rust.Base.{
  inr, inl, arith, ◌≢◌, false, ok, ◌≤◌, ◌&&◌, [], err, length, true, ◌∷◌, ◌<◌, Bool, List, Option,
  ℕ, ◌≡◌, ◌⊎◌,
}
use threadx_rust.Network.Stack.{
  tcp_from_nx, fill, on_net, NetxApi, NetxTcpSocket, buffer_too_small, would_block, send, receive,
  other,
}
use threadx_rust.Network.{
  nx_from_u32, nx_wait_forever, nx_ipv4_tcp_packet, nx_no_packet, nx_no_wait,
}
use threadx_rust.Boxed.{Slice}
use threadx_rust.Network.Sockets.{
  logged, recording, Fails, allocated, appended, sent, received, retrieved, released,
}

module _ {K : Type 0} (os : NetxApi K) (tx_pool : ℕ) (free : Option NetxTcpSocket) (k : K)
    (s : NetxTcpSocket) where
  -- `send` refuses more than 255 bytes with `BufferTooSmall` and no call. It reports the whole
  -- buffer as sent exactly when allocate, append and send all succeed; otherwise it stops at the
  -- first failure and fails. It never releases the packet that it allocated.
  pub send_calls :
      (buffer : List ℕ)
      → let (r, n) = send (logged os) tx_pool s buffer (recording free k) in
        let log = n.kernel.0 in
        ((255 < length buffer) × (r ≡ err (other buffer_too_small)) × (log ≡ []))
        ⊎ ((length buffer ≤ 255)
            × (((r ≡ ok (length buffer)) × (log ≡ sent true ∷ appended true ∷ allocated true ∷ []))
                ⊎ (Fails r
                    × ((log ≡ allocated false ∷ [])
                        ⊎ ((log ≡ appended false ∷ allocated true ∷ [])
                            ⊎ (log ≡ sent false ∷ appended true ∷ allocated true ∷ []))))))
  unfolding send
  send_calls buffer =
      let w = recording free k in
      let alloc = on_net ((logged os).packet_allocate tx_pool nx_ipv4_tcp_packet nx_wait_forever) in
      let packet = (alloc w).1 in
      let append = on_net (
        (logged os).packet_data_append packet (fill buffer 256) (length buffer) tx_pool
          nx_wait_forever) in
      let w1 = (alloc w).2 in
      let submit = on_net ((logged os).tcp_socket_send s.socket_ptr packet nx_wait_forever) in
      let w2 = (append w1).2 in
      elim (nx_checked-cases alloc w) [
        | inl (e, p) ↦ elim (nx_checked-cases append w1) [
          | inl (e', p') ↦ elim (nx_checked-cases submit w2) [
            | inl (e'', p'') ↦ ground arith
            | inr (e'', p'') ↦ ground arith
          ]
          | inr (e', p') ↦ ground arith
        ]
        | inr (e, p) ↦ ground arith
      ]

  -- `receive` retrieves and then releases every packet that it gets, also when the retrieval
  -- fails. It returns the number of bytes copied exactly when all three calls succeed, and an
  -- error other than `WouldBlock` when one of the last two fails. Without a packet it calls
  -- nothing more, and reports `WouldBlock` for the status `NX_NO_PACKET` and the error of the
  -- status otherwise.
  pub receive_calls :
      (buffer : Slice)
      → let (r, n) = receive (logged os) tx_pool s buffer (recording free k) in
        let log = n.kernel.0 in
        let (status, packet, k') = os.tcp_socket_receive s.socket_ptr nx_no_wait k in
        ((b c : Bool) × (log ≡ released b ∷ retrieved c ∷ received true ∷ [])
          × (((b && c ≡ true) × (r ≡ ok (os.packet_data_retrieve packet buffer.ptr k').1))
              ⊎ ((b && c ≡ false) × Fails r × (r ≢ err would_block))))
        ⊎ ((log ≡ received false ∷ [])
            × (((status ≡ nx_no_packet) × (r ≡ err would_block))
                ⊎ ((status ≢ nx_no_packet) × (r ≡ err (other (tcp_from_nx (nx_from_u32 status)))))))
  unfolding receive
  receive_calls buffer =
      let w = recording free k in
      let got = on_net ((logged os).tcp_socket_receive s.socket_ptr nx_no_wait) w in
      let copied = on_net ((logged os).packet_data_retrieve got.1 buffer.ptr) got.2 in
      let release = on_net ((logged os).packet_release got.1) in
      let other_of = (closed_iff (release copied.2).0).1 in
      elim (nx_checked-cases release copied.2) [
        | inl (e, p) ↦ ground (arith, other_of)
        | inr (e, p) ↦ ground (arith, other_of)
      ]
