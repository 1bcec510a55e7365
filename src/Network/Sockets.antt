-- ===== src/Network/Sockets.antt =====
-- threadx-app/cross/app/src/network/network.rs: which calls a connection makes on its socket, and
-- where the one socket is.
use threadx_rust.Network.Errors.{nx_checked-cases}
use threadx_rust.Base.{
  Bool-cases, refl, inr, inl, false, arith, ◌∷◌, [], some, ◌==◌, err, true, Option, Bool, ok,
  Outcome, none, List, ℕ, ◌≡◌, ◌⊎◌,
}
use threadx_rust.Call.{KernelCall}
use threadx_rust.Network.{nx_from_u32, nx_wait_forever, nx_success}
use threadx_rust.Network.Stack.{
  nb_from_nx, on_net, NetxApi, Network, NetxTcpSocket, v4, v6, unsupported_protocol,
  no_sockets_available, socket, connect, close, other,
}

-- A call of NetX, with whether it succeeded.
pub data Event : Type 0 where
  bound : Bool → Event
  connected : Bool → Event
  unbound : Bool → Event
  disconnected : Bool → Event
  allocated : Bool → Event
  appended : Bool → Event
  sent : Bool → Event
  received : Bool → Event
  retrieved : Bool → Event
  released : Bool → Event

-- A kernel that also records these calls, the last one first.
abbrev pub Log : Type 0 → Type 0
Log K = List Event × K

abbrev record_as : {K A : Type 0} → (Bool → Event) → KernelCall K A → KernelCall (Log K) A
record_as e f s = let (ret, out, k) = f s.1 in (ret, out, (e (ret == nx_success) ∷ s.0, k))

abbrev pub logged : {K : Type 0} → NetxApi K → NetxApi (Log K)
logged os = record {
  tcp_client_socket_bind = λ s p w. record_as bound (os.tcp_client_socket_bind s p w);
  tcp_client_socket_connect = λ s i p w. record_as connected (os.tcp_client_socket_connect s i p w);
  tcp_client_socket_unbind = λ s. record_as unbound (os.tcp_client_socket_unbind s);
  tcp_socket_disconnect = λ s w. record_as disconnected (os.tcp_socket_disconnect s w);
  packet_allocate = λ p t w. record_as allocated (os.packet_allocate p t w);
  packet_data_append = λ p d n q w. record_as appended (os.packet_data_append p d n q w);
  tcp_socket_send = λ s p w. record_as sent (os.tcp_socket_send s p w);
  tcp_socket_receive = λ s w. record_as received (os.tcp_socket_receive s w);
  packet_data_retrieve = λ p b. record_as retrieved (os.packet_data_retrieve p b);
  packet_release = λ p. record_as released (os.packet_release p);
}

-- A network whose calls are recorded from now on.
abbrev pub recording : {K : Type 0} → Option NetxTcpSocket → K → Network (Log K)
recording free k = record { free_socket = free; kernel = ([], k) }

-- An error, whichever it is.
abbrev pub Fails : {E A : Type 0} → Outcome E A → Type 0
Fails {E} r = (e : E) × (r ≡ err e)

module _ {K : Type 0} (os : NetxApi K) (tx_pool : ℕ) where
  -- `connect` to an IPv4 address binds, then connects; it returns `Ok` exactly when both
  -- succeed, and after a failed connect it unbinds. An IPv6 address is refused with
  -- `UnsupportedProtocol` and no call.
  pub connect_calls :
      (free : Option NetxTcpSocket) (k : K) (s : NetxTcpSocket) (ip port : ℕ)
      → let (r, n) = connect (logged os) tx_pool s (v4 ip port) (recording free k) in
        let log = n.kernel.0 in
        (((r ≡ ok tt) × (log ≡ connected true ∷ bound true ∷ []))
          ⊎ (Fails r
              × ((log ≡ bound false ∷ [])
                  ⊎ ((b : Bool) × (log ≡ unbound b ∷ connected false ∷ bound true ∷ [])))))
        × (connect (logged os) tx_pool s (v6 ip port) (recording free k)
            ≡ (err (other unsupported_protocol), recording free k))
  unfolding connect
  connect_calls free k s ip port =
      let w = recording free k in
      let bind = on_net ((logged os).tcp_client_socket_bind s.socket_ptr 0 nx_wait_forever) in
      let w' = (bind w).2 in
      let reached =
        on_net ((logged os).tcp_client_socket_connect s.socket_ptr ip port nx_wait_forever) w' in
      let unbind = on_net ((logged os).tcp_client_socket_unbind s.socket_ptr) in
      elim (nx_checked-cases bind w) [
        | inl (e, p) ↦ elim (Bool-cases (reached.0 == nx_success)) [
          | inl e' ↦ ground arith
          | inr e' ↦ elim (nx_checked-cases unbind reached.2) [
            | inl (f, q) ↦ (
              inr ((nb_from_nx (nx_from_u32 reached.0), ground arith), inr (true, ground arith)),
              refl,
            )
            | inr (f, q) ↦ (
              inr (
                (nb_from_nx (nx_from_u32 (unbind reached.2).0), ground arith),
                inr (false, ground arith),
              ),
              refl,
            )
          ]
        ]
        | inr (e, p) ↦ ground arith
      ]

  -- `close` disconnects, then unbinds. Its socket can be had again by `socket` exactly when both
  -- succeed; after a failed `close` there is no socket any more, and `socket` fails.
  pub close_calls :
      (k : K) (s : NetxTcpSocket)
      → let (r, n) = close (logged os) tx_pool s (recording none k) in
        let log = n.kernel.0 in
        ((r ≡ ok tt)
          × (log ≡ unbound true ∷ disconnected true ∷ [])
          × ((socket (logged os) tx_pool n).0 ≡ ok s))
        ⊎ (Fails r
            × ((log ≡ disconnected false ∷ []) ⊎ (log ≡ unbound false ∷ disconnected true ∷ []))
            × ((socket (logged os) tx_pool n).0 ≡ err no_sockets_available))
  unfolding close socket
  close_calls k s =
      let w = recording none k in
      let disconnect = on_net ((logged os).tcp_socket_disconnect s.socket_ptr nx_wait_forever) in
      let unbind = on_net ((logged os).tcp_client_socket_unbind s.socket_ptr) in
      let w' = (disconnect w).2 in
      elim (nx_checked-cases disconnect w) [
        | inl (e, p) ↦ elim (nx_checked-cases unbind w') [
          | inl (e', p') ↦ ground arith
          | inr (e', p') ↦ ground arith
        ]
        | inr (e, p) ↦ ground arith
      ]

  -- `socket` hands out the free socket, and a second `socket` directly after it fails.
  pub socket_once :
      (n : Network K) {s : NetxTcpSocket} {n' : Network K}
      → socket os tx_pool n ≡ (ok s, n')
      → (n.free_socket ≡ some s) × (socket os tx_pool n' ≡ (err no_sockets_available, n'))
  unfolding socket
  socket_once n p = ground arith
