-- ===== src/Network/Setup.antt =====
-- threadx-app/cross/app/src/network/network.rs: bringing the network up.
use threadx_rust.Base.{
  replicate, ◌++◌, ◌^◌, ◌%◌, fail, length, pure, ◌*◌, ltb, unwrap, panic_if, ◌-◌, true, Bool, gets,
  ◌+◌, modify, List, ℕ, Prog, err, if◌then◌else◌, ◌==◌, ◌>>=◌, ◌>>◌,
}
use threadx_rust.Call.{KernelCall}
use threadx_rust.Allocator.{align_offset}
use threadx_rust.Network.{
  nx_ip_address_resolved, nx_dont_fragment, nx_ip_normal, NxError, nx_checked_call,
  already_initialized, unknown,
}
use threadx_rust.Network.Stack.{NetxTcpSocket}

abbrev pub wiced_link_mtu : ℕ
wiced_link_mtu = 1500 + ((12 + 18) + 14) + 0

abbrev pub netx_ip_stack_size : ℕ
netx_ip_stack_size = 4096

abbrev pub netx_arp_cache_size : ℕ
netx_arp_cache_size = 512

-- `NETX_RX_POOL_SIZE` and `NETX_TX_POOL_SIZE`, from the size of an `NX_PACKET`.
abbrev pub netx_rx_pool_size : (packet_size : ℕ) → ℕ
netx_rx_pool_size packet_size = (wiced_link_mtu + packet_size) * 12

abbrev pub netx_tx_pool_size : (packet_size : ℕ) → ℕ
netx_tx_pool_size packet_size = (wiced_link_mtu + packet_size) * 16

-- Constants of the WICED headers.
abbrev pub country_world_wide : ℕ
country_world_wide = 22616

abbrev pub security_wpa2_aes_psk : ℕ
security_wpa2_aes_psk = 4194308

abbrev pub sta_interface : ℕ
sta_interface = 0

-- `wiced_ssid_t`
pub record Ssid : Type 0 where
  pub length_byte : ℕ
  pub value : List ℕ

-- The addresses of the statics and of the names, and the size of an `NX_PACKET`.
pub record Memory : Type 0 where
  pub tx_pool : ℕ
  pub rx_pool : ℕ
  pub pools : ℕ
  pub tx_packet_pool_mem : ℕ
  pub rx_packet_pool_mem : ℕ
  pub netx_ip_stack : ℕ
  pub netx_arp_cache_area : ℕ
  pub dhcp_client : ℕ
  pub socket_mem : ℕ
  pub ip_mem : ℕ
  pub tx_name : ℕ
  pub rx_name : ℕ
  pub ip_name : ℕ
  pub socket_name : ℕ
  pub host_name : ℕ
  pub driver_entry : ℕ
  pub packet_size : ℕ

-- The calls of NetX Duo and of the WICED driver that `initialize` makes.
pub record SetupApi (K : Type 0) : Type 0 where
  pub system_initialize : K → K
  pub packet_pool_create :
      (pool_ptr name payload_size memory_ptr memory_size : ℕ) → KernelCall K (Unit {0})
  pub buffer_init : (pools : ℕ) → KernelCall K (Unit {0})
  pub management_wifi_on : (country : ℕ) → KernelCall K (Unit {0})
  pub wifi_get_mac_address : (interface : ℕ) → KernelCall K (List ℕ)
  pub ip_create :
      (ip_ptr name ip_address network_mask default_pool driver memory_ptr memory_size priority : ℕ)
      → KernelCall K (Unit {0})
  pub arp_enable : (ip_ptr arp_cache_memory arp_cache_size : ℕ) → KernelCall K (Unit {0})
  pub tcp_enable : (ip_ptr : ℕ) → KernelCall K (Unit {0})
  pub udp_enable : (ip_ptr : ℕ) → KernelCall K (Unit {0})
  pub icmp_enable : (ip_ptr : ℕ) → KernelCall K (Unit {0})
  pub dhcp_create : (dhcp_ptr ip_ptr name : ℕ) → KernelCall K (Unit {0})
  pub dhcp_start : (dhcp_ptr : ℕ) → KernelCall K (Unit {0})
  pub wifi_join :
      Ssid
      → (security : ℕ) → (key : List ℕ) → (key_length semaphore interface : ℕ)
      → KernelCall K (Unit {0})
  pub ip_status_check : (ip_ptr needed_status wait_option : ℕ) → KernelCall K ℕ
  pub ip_address_get : (ip_ptr : ℕ) → KernelCall K (ℕ × ℕ)
  pub ip_gateway_address_get : (ip_ptr : ℕ) → KernelCall K ℕ
  pub tcp_socket_create :
      (ip_ptr socket_ptr name type_of_service fragment time_to_live window_size : ℕ)
      → KernelCall K (Unit {0})

-- Which `StaticCell`s have been taken, by address, and the kernel.
pub record Setup (K : Type 0) : Type 0 where
  pub taken : ℕ → Bool
  pub kernel : K

-- The same with `INITIALIZED`.
pub record SetupState (K : Type 0) : Type 0 where
  pub nx_initialized : Bool
  pub setup : Setup K

abbrev pub on_setup : {K A : Type 0} → KernelCall K A → KernelCall (Setup K) A
on_setup f s = let (ret, out, k) = f s.kernel in (ret, out, record s { kernel = k })

-- `StaticCell::uninit`, which panics the second time.
unfoldable pub uninit : {K : Type 0} → (cell : ℕ) → Prog (Setup K) NxError ℕ
uninit cell = do
  used ← gets (λ s. s.taken cell)
  panic_if used
  modify (λ s. record s { taken = λ a. if a == cell then true else s.taken a })
  pure cell

module _ {K : Type 0} (os : SetupApi K) (mem : Memory) where
  unfoldable pub create_socket : (ip_ptr : ℕ) → Prog (Setup K) NxError ℕ
  unfolding nx_checked_call uninit
  create_socket ip_ptr = do
    socket_ptr ← uninit mem.socket_mem
    nx_checked_call (
        on_setup (
          os.tcp_socket_create ip_ptr socket_ptr mem.socket_name nx_ip_normal nx_dont_fragment 0x80
            8192))
    pure socket_ptr

  -- The first part of `initialize`: pools, driver and protocols. The result is the address of the
  -- IP instance.
  unfoldable pub bring_up : Prog (Setup K) NxError ℕ
  unfolding nx_checked_call uninit align_offset
  bring_up = do
    modify (λ s. record s { kernel = os.system_initialize s.kernel })
    tx_mem ← uninit mem.tx_packet_pool_mem
    nx_checked_call (
        on_setup (
          os.packet_pool_create mem.tx_pool mem.tx_name wiced_link_mtu tx_mem
            (netx_tx_pool_size mem.packet_size)))
    rx_mem ← uninit mem.rx_packet_pool_mem
    nx_checked_call (
        on_setup (
          os.packet_pool_create mem.rx_pool mem.rx_name wiced_link_mtu rx_mem
            (netx_rx_pool_size mem.packet_size)))
    nx_checked_call (on_setup (os.buffer_init mem.pools))
    nx_checked_call (on_setup (os.management_wifi_on country_world_wide))
    nx_checked_call (on_setup (os.wifi_get_mac_address sta_interface))
    stack_mem ← uninit mem.netx_ip_stack
    ip_ptr ← uninit mem.ip_mem
    nx_checked_call (
        on_setup (
          os.ip_create ip_ptr mem.ip_name 0 0xffffff00 mem.tx_pool mem.driver_entry stack_mem
            netx_ip_stack_size 1))
    arp_mem ← uninit mem.netx_arp_cache_area
    let offset = align_offset arp_mem 4
    nx_checked_call
        (on_setup (os.arp_enable ip_ptr (arp_mem + offset) (netx_arp_cache_size - offset)))
    nx_checked_call (on_setup (os.tcp_enable ip_ptr))
    nx_checked_call (on_setup (os.udp_enable ip_ptr))
    nx_checked_call (on_setup (os.icmp_enable ip_ptr))
    dhcp_ptr ← uninit mem.dhcp_client
    nx_checked_call (on_setup (os.dhcp_create dhcp_ptr ip_ptr mem.host_name))
    nx_checked_call (on_setup (os.dhcp_start dhcp_ptr))
    pure ip_ptr

  -- The second part: the wireless network with this name (as bytes) and password.
  unfoldable pub join : (ip_ptr : ℕ) (ssid pw : List ℕ) → Prog (Setup K) NxError (Unit {0})
  unfolding nx_checked_call
  join ip_ptr ssid pw = if ltb 32 (length ssid) then fail unknown else (do
    let ssid_value : Ssid = record {
      length_byte = length ssid % 2 ^ 8;
      value = ssid ++ replicate (32 - length ssid) 0;
    }
    nx_checked_call (
        on_setup
          (os.wifi_join ssid_value security_wpa2_aes_psk pw (length pw % 2 ^ 8) 0 sta_interface))
    nx_checked_call (on_setup (os.ip_status_check ip_ptr nx_ip_address_resolved 3000))
    nx_checked_call (on_setup (os.ip_address_get ip_ptr))
    nx_checked_call (on_setup (os.ip_gateway_address_get ip_ptr))
    pure tt)

  -- `initialize` after its guard, up to the network with its one socket.
  unfoldable pub set_up : (ssid pw : List ℕ) → Prog (Setup K) NxError NetxTcpSocket
  set_up ssid pw = do
    ip_ptr ← bring_up
    join ip_ptr ssid pw
    socket_ptr ← unwrap (create_socket ip_ptr)
    pure (record { socket_ptr = socket_ptr })

  -- `ThreadxTcpWifiNetwork::initialize`. The result is the socket of the new network.
  unfoldable pub initialize : (ssid pw : List ℕ) → Prog (SetupState K) NxError NetxTcpSocket
  initialize ssid pw s =
      if s.nx_initialized
      then (err already_initialized, s)
      else (let (r, s') = set_up ssid pw s.setup in
          (r, record { nx_initialized = true; setup = s' }))
