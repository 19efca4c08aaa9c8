-- ===== src/Startup/Launch/Tests.antt =====
-- The start of two workers by `dpdk_init` of server/backend/main.cpp, on a machine on which every call
-- succeeds.
use clean_slate_inc.Prelude.{
  ℕ, ◌+◌, ◌*◌, ◌/◌, ◌≡◌, ◌<◌, refl, true, false, some, List, [], ◌∷◌, arith, length, get_elem?,
}
use clean_slate_inc.Prelude.Int.{pos}
use clean_slate_inc.Packet.{Mbuf}
use clean_slate_inc.LoadBalancer.{SubOp}
use clean_slate_inc.QueuePair.{fresh}
use clean_slate_inc.QueuePair.ListQueue.{list_queue}
use clean_slate_inc.Congestion.FixedPoint.{fixed_point}
use clean_slate_inc.ProcessBuffer.{new_buffer}
use clean_slate_inc.Worker.Stream.Run.{IsFresh}
use clean_slate_inc.Startup.Flow.{
  ipproto_netccl, drop_rule, queue_rule, flow_create, flow_init_queue, flow_init_from, flow_init,
}
use clean_slate_inc.Startup.Flow.Steering.{queues_for}
use clean_slate_inc.Startup.Flow.Tests.{obliging}
use clean_slate_inc.Startup.Cpus.{
  max_element, empty_lists, push_cpu, fill_from, get_cpu_list_with_socket_index,
  get_cpu_list_by_socket, cpu_list_on_node,
}
use clean_slate_inc.Startup.Port.{call_step, setup_rx, setup_tx, set_up, port_init}
use clean_slate_inc.Startup.Port.Calls.{port_calls}
use clean_slate_inc.Startup.Device.{find_dev, get_dev_by_ip}
use clean_slate_inc.Startup.Tests.{sockets, obliging_port}
use clean_slate_inc.Startup.Launch.{
  Machine, worker_tos, new_window, start_worker, Ctx, make_pools, launch_from, Started, dpdk_init,
}
use clean_slate_inc.Startup.Launch.Success.{dpdk_init_lem}

abbrev pub blank : Mbuf
blank = record {
  data_len = 0;
  pkt_len = 0;
  type_of_service = 9;
  total_length = 0;
  dst_addr = 0;
  inc = record { coll_type = 0; group_id = 0; rank = 0; root = 0; agg_addr = 0; psn = 0 };
  payload = [];
}

abbrev pub machine : Machine
machine = record {
  Dev = ℕ;
  Pci = ℕ;
  Pool = ℕ;
  Queue = ℕ;
  inet_aton = some 77;
  getifaddrs = some (
      record { ifa_addr = some (17, 77); ifa_name = 1 }
      ∷ record { ifa_addr = some (2, 77); ifa_name = 5 }
      ∷ []);
  get_pci_by_dev = λ dev. some dev;
  get_socket_by_pci = λ pci. pos 1;
  sockets = sockets;
  eal_init = λ cpus. true;
  pool_create = λ rx i. some i;
  alloc = λ p i. blank;
  dev_count_avail = 1;
  get_port_by_name = λ pci. true;
  port = obliging_port;
  flow = obliging;
  flow_state = [];
  queue = λ i. i;
  remote_launch = λ lcore. true;
}

abbrev pub ctx : ℕ → Ctx machine (list_queue SubOp) fixed_point
ctx i = record {
  worker_id = i;
  tx_mbuf_pool = i;
  rx_mbuf_pool = i;
  qp = fresh (list_queue SubOp);
  window = new_window fixed_point (worker_tos i) (λ _. blank);
  process_buffer = record {
    rx_size = 32;
    tx_size = 32;
    rx = [];
    tx = [];
    flush_timer = 0;
    total_rx_nb = 0;
    total_tx_nb = 0;
    total_drop_nb = 0;
    nic = i;
  };
}

abbrev pub started : Started machine (list_queue SubOp) fixed_point
started = record {
  calls = port_calls obliging_port 2;
  flows = record { drop = false; nic = drop_rule ∷ queue_rule 0 ∷ queue_rule 1 ∷ [] };
  thread_ctx = ctx 0 ∷ ctx 1 ∷ [];
}

pub two_workers : dpdk_init machine (list_queue SubOp) fixed_point (pos 3) ≡ some started
unfolding dpdk_init get_dev_by_ip find_dev cpu_list_on_node get_cpu_list_by_socket
    get_cpu_list_with_socket_index max_element empty_lists push_cpu fill_from make_pools port_init
    set_up call_step setup_rx setup_tx flow_init flow_init_from flow_init_queue flow_create
    launch_from new_buffer
two_workers = refl

dpdk_init_lem_example :
    (length started.thread_ctx ≡ 2)
    × ((i : ℕ) (c : Ctx machine (list_queue SubOp) fixed_point)
        → get_elem? started.thread_ctx i ≡ some c
        → (c.worker_id ≡ i)
          × IsFresh {L = List Mbuf} (list_queue SubOp) (start_worker c [] (λ a. a) false)
          × ((p ecn : ℕ)
              → ecn < 4
              → queues_for started.flows.nic
                  ((c.window.state p).pkt.type_of_service / 4 * 4 + ecn)
                  ipproto_netccl
                ≡ i ∷ []))
dpdk_init_lem_example =
    dpdk_init_lem machine (list_queue SubOp) fixed_point {L = List Mbuf} (pos 3) started [] (λ a. a)
      false two_workers refl (omega arith)
