-- ===== src/Startup/Launch.antt =====
-- The start of the threads: `dpdk_init` of server/backend/main.cpp up to `shm_init`, and the constructor
-- of `window_t` and the initial values of the thread-local variables that it leaves. The operating system
-- and DPDK are the parameter `Machine`. Of the headers that are filled in once, only the fields that the
-- worker or the NIC's rules read are kept. `none` is a failed `assert`.
pub mod Success
pub mod Tests
use clean_slate_inc.Prelude.{
  ℕ, zero, suc, ◌+◌, ◌-◌, ◌*◌, ◌%◌, ◌≡◌, Bool, true, false, not, Option, none, some, List, [], ◌∷◌,
  ◌==◌, ◌>>=◌, ◌>>◌, assert, if◌then◌else◌, ltb,
}
use clean_slate_inc.Prelude.Int.{ℤ, pos, negsuc, pos_part}
use clean_slate_inc.Packet.{Mbuf, IncHdr}
use clean_slate_inc.LoadBalancer.{SubOp}
use clean_slate_inc.QueuePair.{Spsc, QueuePair, fresh}
use clean_slate_inc.Congestion.{Double, fresh_cc, cc_cwnd_min}
use clean_slate_inc.Window.{Window, PktState}
use clean_slate_inc.ProcessBuffer.{ProcessBuffer, new_buffer}
use clean_slate_inc.Worker.Defs.{Worker, Stats}
use clean_slate_inc.Worker.Send.{max_pkt_burst}
use clean_slate_inc.Startup.Flow.{FlowApi, Flows, flow_init}
use clean_slate_inc.Startup.Cpus.{cpu_list_on_node}
use clean_slate_inc.Startup.Port.{PortCall, Port, port_init}
use clean_slate_inc.Startup.Device.{Interface, get_dev_by_ip}

-- `pool_create` makes the pool of a worker for sending (false) or receiving (true), `alloc` is the mbuf
-- that `rte_pktmbuf_alloc` gives at its `n`-th call on a pool, and `Queue` is the NIC's queue of a worker.
pub record Machine : Type 1 where
  pub Dev : Type 0
  pub Pci : Type 0
  pub Pool : Type 0
  pub Queue : Type 0
  pub inet_aton : Option ℕ
  pub getifaddrs : Option (List (Interface Dev))
  pub get_pci_by_dev : Dev → Option Pci
  pub get_socket_by_pci : Pci → ℤ
  pub sockets : List ℕ
  pub eal_init : List ℕ → Bool
  pub pool_create : Bool → ℕ → Option Pool
  pub alloc : Pool → ℕ → Mbuf
  pub dev_count_avail : ℕ
  pub get_port_by_name : Pci → Bool
  pub port : Port
  pub flow : FlowApi
  pub flow_state : flow.State
  pub queue : ℕ → Queue
  pub remote_launch : ℕ → Bool

-- `(uint8_t)(worker_id << 2 | 0x1)`: the shifted number has no low bits.
unfoldable pub worker_tos : ℕ → ℕ
worker_tos worker_id = (worker_id * 4 + 1) % 256

-- The copy of the headers into a new packet.
unfoldable pub prefill : ℕ → Mbuf → Mbuf
prefill tos pkt = record pkt { type_of_service = tos; total_length = 0; dst_addr = 0 }

-- The constructor of `window_t`, over the packets that the pool gives.
unfoldable pub new_window : (d : Double) → ℕ → (ℕ → Mbuf) → Window d.F
unfolding prefill
new_window d tos alloc = record {
  last_ack_time_stamp = 0;
  to_send = 0;
  to_ack = 0;
  left_psn = 0;
  right_psn = 0;
  cc = fresh_cc d;
  state = λ i. record {
    acked = false;
    sub_op = none;
    data_addr = 0;
    size = 0;
    psn = 0;
    is_last = false;
    pkt = prefill tos (alloc i);
  };
}

-- `thread_ctx_t`; its map `group_ctx` is empty.
pub record ThreadCtx (P Q S F : Type 0) : Type 0 where
  pub worker_id : ℕ
  pub tx_mbuf_pool : P
  pub rx_mbuf_pool : P
  pub qp : QueuePair Q
  pub window : Window F
  pub process_buffer : ProcessBuffer S

-- The state in which `worker_loop` starts, with a link, the memory and whether
-- NETCCL_PACKET_LOOPBACK is set.
unfoldable pub start_worker :
    {P Q S L F : Type 0} → ThreadCtx P Q S F → L → (ℕ → ℕ) → Bool → Worker Q L F
start_worker c link mem packet_loopback = record {
  qp = c.qp;
  window = c.window;
  link = link;
  local_queue = [];
  packet_loopback = packet_loopback;
  psn_of = λ _. 0;
  mem = mem;
  global_ts = 0;
  current_switch_window_limit = cc_cwnd_min;
  current_group_id = 0;
  tos_monitor = 0;
  pkt_loss_flag = false;
  traffic_todo = false;
  cwnd_achieved = false;
  ack_cnt = 0;
  prev_ack_cnt = 0;
  prev_ack_cnt_cc = 0;
  progress = record { pkt_sent = 0; start_psn = 0; pkt_cnt = 0; sub_op = none };
  stats = record {
    cwnd_inc_cnt = 0;
    cwnd_dec_cnt = 0;
    shift_send_cnt = 0;
    shift_ack_cnt = 0;
    fast_retrans_trigger_cnt = 0;
    fast_retrans_pkt_cnt = 0;
    full_retrans_trigger_cnt = 0;
    full_retrans_pkt_cnt = 0;
    in_range_reduntant_ack_cnt = 0;
    out_range_reduntant_ack_cnt = 0;
    win_cnt = λ _. 0;
  };
}

-- `node != -1`
abbrev pub not_minus_1 : ℤ → Bool
not_minus_1 (pos n) = true
not_minus_1 (negsuc n) = not (n == 0)

module _ (m : Machine) (q : Spsc SubOp) (d : Double) where
  abbrev pub Ctx : Type 0
  Ctx = ThreadCtx m.Pool q.Queue m.Queue d.F

  -- The loop that makes the pools of the workers from `i` on, those for sending first.
  unfoldable pub make_pools : ℕ → ℕ → Option (List (m.Pool × m.Pool))
  make_pools i zero = some []
  make_pools i (suc count) = do
    tx ← m.pool_create false i
    rx ← m.pool_create true i
    rest ← make_pools (i + 1) count
    some ((tx, rx) ∷ rest)

  -- The loop that launches the workers from `worker_id` on.
  unfoldable pub launch_from : ℕ → List (m.Pool × m.Pool) → Option (List Ctx)
  launch_from worker_id [] = some []
  launch_from worker_id ((tx, rx) ∷ pools) = do
    process_buffer ← new_buffer max_pkt_burst max_pkt_burst (m.queue worker_id)
    let ctx : Ctx = record {
      worker_id = worker_id;
      tx_mbuf_pool = tx;
      rx_mbuf_pool = rx;
      qp = fresh q;
      window = new_window d (worker_tos worker_id) (m.alloc tx);
      process_buffer = process_buffer;
    }
    assert (m.remote_launch (worker_id + 1))
    rest ← launch_from (worker_id + 1) pools
    some (ctx ∷ rest)

  pub record Started : Type 0 where
    pub calls : List PortCall
    pub flows : Flows m.flow
    pub thread_ctx : List Ctx

  unfoldable pub dpdk_init : ℤ → Option Started
  dpdk_init nthread = do
    found ← get_dev_by_ip m.inet_aton m.getifaddrs
    dev ← found
    pci ← m.get_pci_by_dev dev
    let node = m.get_socket_by_pci pci
    assert (not_minus_1 node)
    cpu_list ← cpu_list_on_node m.sockets node nthread
    assert (m.eal_init cpu_list)
    let nworker = pos_part nthread - 1
    pools ← make_pools 0 nworker
    assert (ltb 0 m.dev_count_avail)
    assert (m.get_port_by_name pci)
    (port_ok, calls) ← port_init m.port nworker
    assert port_ok
    let (flow_ok, flows) = flow_init m.flow nworker (record { drop = true; nic = m.flow_state })
    assert flow_ok
    thread_ctx ← launch_from 0 pools
    some (record { calls = calls; flows = flows; thread_ctx = thread_ctx })
