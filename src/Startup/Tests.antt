-- ===== src/Startup/Tests.antt =====
-- The start of the backend, server/backend/main.cpp, on a machine with two nodes of four CPUs and a port
-- that does all it is asked.
use clean_slate_inc.Prelude.{
  ℕ, ◌≡◌, refl, true, ◌&&◌, none, some, List, [], ◌∷◌, ◌++◌, ltb, leb, length, take, if◌then◌else◌,
}
use mathlib.Core.List.{reverse}
use clean_slate_inc.Prelude.Int.{pos}
use clean_slate_inc.Startup.Cpus.{
  max_element, empty_lists, push_cpu, fill_from, get_cpu_list_with_socket_index, cpu_list_on_node,
}
use clean_slate_inc.Startup.Cpus.Choice.{cpus_of, cpu_list_on_node_lem}
use clean_slate_inc.Startup.Device.{Interface, get_dev_by_ip, get_dev_by_ip_lem}
use clean_slate_inc.Startup.Port.{
  dev_info_get, dev_configure, adjust_nb_desc, rx_queue_setup, tx_queue_setup, dev_start,
  macaddr_get, promiscuous_enable, Port,
}
use clean_slate_inc.Startup.Port.Calls.{port_calls}

abbrev pub sockets : List ℕ
sockets = 0 ∷ 0 ∷ 1 ∷ 1 ∷ 0 ∷ 0 ∷ 1 ∷ 1 ∷ []

two_nodes :
    get_cpu_list_with_socket_index sockets ≡ some ((0 ∷ 1 ∷ 4 ∷ 5 ∷ []) ∷ (2 ∷ 3 ∷ 6 ∷ 7 ∷ []) ∷ [])
unfolding get_cpu_list_with_socket_index max_element empty_lists push_cpu fill_from
two_nodes = refl

cpu_list_on_node_lem_example : cpu_list_on_node sockets (pos 1) (pos 3) ≡ (
    if leb 3 (length (cpus_of 1 0 sockets)) && ltb 0 3
    then some (take 3 (reverse (cpus_of 1 0 sockets)))
    else none)
cpu_list_on_node_lem_example = cpu_list_on_node_lem 0 (0 ∷ 1 ∷ 1 ∷ 0 ∷ 0 ∷ 1 ∷ 1 ∷ []) 1 3

last_three : take 3 (reverse (cpus_of 1 0 sockets)) ≡ 7 ∷ 6 ∷ 3 ∷ []
last_three = refl

abbrev pub obliging_port : Port
obliging_port = record {
  is_valid = true;
  fast_free = true;
  adjusted = λ rx tx. (rx, tx);
  answer = λ made c. 0;
}

one_queue :
    port_calls obliging_port 1
    ≡ dev_info_get
      ∷ dev_configure 1 1 true
      ∷ adjust_nb_desc 1024 64
      ∷ rx_queue_setup 0 1024
      ∷ tx_queue_setup 0 64 true
      ∷ dev_start
      ∷ macaddr_get
      ∷ promiscuous_enable
      ∷ []
one_queue = refl

-- An interface of another family, one with another address, and one without any.
abbrev loopback_first : List (Interface ℕ)
loopback_first =
    record { ifa_addr = some (17, 9); ifa_name = 1 }
    ∷ record { ifa_addr = some (2, 8); ifa_name = 2 }
    ∷ []

abbrev third : Interface ℕ
third = record { ifa_addr = some (2, 9); ifa_name = 3 }

get_dev_by_ip_lem_example :
    (third.ifa_addr ≡ some (2, 9)
      → get_dev_by_ip (some 9) (some (loopback_first ++ third ∷ [])) ≡ some (some 3))
    × (third.ifa_addr ≡ none → get_dev_by_ip (some 9) (some (loopback_first ++ third ∷ [])) ≡ none)
get_dev_by_ip_lem_example =
    get_dev_by_ip_lem 9 loopback_first third [] ((17, 9, refl, refl), ((2, 8, refl, refl), tt))
