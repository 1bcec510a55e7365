-- ===== src/App/OnceTests.antt =====
-- threadx-app/cross/app/src/bin/network.rs: do_network up to its loop, on a kernel that is the list of
-- the flags that have been published.
use threadx_rust.Base.{
  suc, ℕ, ◌≡◌, refl, true, false, some, none, List, [], ◌∷◌, ok, panic, replicate,
}
use threadx_rust.EventFlags.{EventFlagsGroupHandle, publish}
use threadx_rust.Executor
use threadx_rust.Executor.{ExecutorApi, Executor, World, unused}
use threadx_rust.Timer.{TimerApi, initialize_with_fn}
use threadx_rust.Network.Setup
use threadx_rust.Network.Setup.{SetupApi, Memory, uninit, bring_up, join, create_socket, set_up}
use threadx_rust.App.{flag_code, wifi_connected}
use threadx_rust.App.Startup.{
  ScreenApi, NetState, print_text, start_clock, take_display, connect, network_start,
}
use threadx_rust.App.Once.{network_started_once}

abbrev Kernel : Type 0
Kernel = List ℕ

abbrev os : ExecutorApi Kernel
os = record {
  mutexes = record {
    tx_mutex_create = λ p n i k. (0, tt, k);
    tx_mutex_get = λ p w k. (0, tt, k);
    tx_mutex_put = λ p k. (0, tt, k);
    tx_mutex_delete = λ p k. (0, tt, k);
  };
  flags = record {
    tx_event_flags_create = λ p n k. (0, tt, k);
    tx_event_flags_set = λ p f o k. (0, tt, f ∷ k);
    tx_event_flags_get = λ p f o w k. (0, f, k);
  };
  mutex_s = 100;
  executor_event = 200;
  signal_mtx_name = 300;
  executor_group_name = 400;
}

abbrev timers : TimerApi Kernel
timers = record { tx_timer_create = λ c k. (0, tt, k) }

abbrev network : SetupApi Kernel
network = record {
  system_initialize = λ k. k;
  packet_pool_create = λ p n s m z k. (0, tt, k);
  buffer_init = λ p k. (0, tt, k);
  management_wifi_on = λ c k. (0, tt, k);
  wifi_get_mac_address = λ i k. (0, [], k);
  ip_create = λ p n a m d e r z q k. (0, tt, k);
  arp_enable = λ p m z k. (0, tt, k);
  tcp_enable = λ p k. (0, tt, k);
  udp_enable = λ p k. (0, tt, k);
  icmp_enable = λ p k. (0, tt, k);
  dhcp_create = λ p i n k. (0, tt, k);
  dhcp_start = λ p k. (0, tt, k);
  wifi_join = λ s c q l m i k. (0, tt, k);
  ip_status_check = λ p n w k. (0, 0, k);
  ip_address_get = λ p k. (0, (0, 0), k);
  ip_gateway_address_get = λ p k. (0, 0, k);
  tcp_socket_create = λ p q n t f l w k. (0, tt, k);
}

abbrev memory : Memory
memory = record {
  tx_pool = 1;
  rx_pool = 2;
  pools = 3;
  tx_packet_pool_mem = 4;
  rx_packet_pool_mem = 5;
  netx_ip_stack = 6;
  netx_arp_cache_area = 7;
  dhcp_client = 8;
  socket_mem = 9;
  ip_mem = 10;
  tx_name = 11;
  rx_name = 12;
  ip_name = 13;
  socket_name = 14;
  host_name = 15;
  driver_entry = 16;
  packet_size = 60;
}

-- A display is the number of texts that it has shown.
abbrev screen : ScreenApi ℕ Kernel
screen = record { clear_buffer = λ d. d; draw = λ t d. (true, suc d); flush = λ d k. (true, d, k) }

abbrev fresh : NetState ℕ Kernel
fresh = record {
  world = record {
    signals = replicate 31 unused;
    event_taken = false;
    initialized = false;
    kernel = [];
  };
  display = record { inner = some 0; mutex = 90; initialized = true };
  nx_initialized = false;
  nx_taken = λ a. false;
  clock_taken = false;
}

abbrev evt_handle : EventFlagsGroupHandle
evt_handle = record { flag_group_ptr = 500 }

-- Where do_network gets to its loop.
abbrev ended : NetState ℕ Kernel
ended = (network_start os timers network memory screen true 100 20 30 40 evt_handle fresh).1

started : network_start os timers network memory screen true 100 20 30 40 evt_handle fresh ≡ (
  ok (record { event_handle = record { flag_group_ptr = 200 } }, record { socket_ptr = 9 }, 2),
  ended,
)
unfolding network_start Executor.new take_display Setup.initialize connect start_clock publish
    initialize_with_fn print_text set_up bring_up join create_socket
started = refl

network_started_once_example :
    ((u u' : Setup.SetupState Kernel) × (Setup.initialize network memory [] [] u
        ≡ (ok (record { socket_ptr = 9 }), u')))
    × ((k : Kernel) × (publish os.flags evt_handle (flag_code wifi_connected) k
          ≡ (ok tt, ended.world.kernel)))
    × (ended.display.inner ≡ none)
    × ((again : EventFlagsGroupHandle)
        → (network_start os timers network memory screen true 100 20 30 40 again ended).0 ≡ panic)
network_started_once_example =
    network_started_once os timers network memory screen true 100 20 30 40 evt_handle fresh started
