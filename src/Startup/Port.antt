-- ===== src/Startup/Port.antt =====
-- The set-up of the NIC's port: `port_init` of server/backend/main.cpp. The calls of DPDK, with the
-- arguments that matter, are the steps; their answers are the parameter `Port`. A step that does not
-- return 0 fails an `assert`. The capability tested and the offload asked for are
-- MBUF_FAST_FREE, under either of its names, and the number of descriptors is that of a DPDK without
-- `rte_eth_tx_queue_count`.
pub mod Calls
use clean_slate_inc.Prelude.{
  ℕ, zero, suc, ◌+◌, ◌*◌, ◌≡◌, Bool, true, false, Option, none, some, List, [], ◌∷◌, ◌++◌, ◌==◌,
  ◌>>=◌, ◌%◌, u16_mod, if◌then◌else◌,
}
use clean_slate_inc.Congestion.{max_win_len}
use clean_slate_inc.Worker.Send.{max_pkt_burst}

pub data PortCall : Type 0 where
  dev_info_get : PortCall
  dev_configure : (nb_rx nb_tx : ℕ) (fast_free : Bool) → PortCall
  adjust_nb_desc : (nb_rxd nb_txd : ℕ) → PortCall
  rx_queue_setup : (queue nb_rxd : ℕ) → PortCall
  tx_queue_setup : (queue nb_txd : ℕ) (fast_free : Bool) → PortCall
  dev_start : PortCall
  macaddr_get : PortCall
  promiscuous_enable : PortCall

-- `fast_free` is the capability of the device; `adjusted` has the numbers of descriptors that
-- `rte_eth_dev_adjust_nb_rx_tx_desc` leaves; `answer` is what a call returns after those before it.
pub record Port : Type 0 where
  pub is_valid : Bool
  pub fast_free : Bool
  pub adjusted : ℕ → ℕ → ℕ × ℕ
  pub answer : List PortCall → PortCall → ℕ

module _ (p : Port) where
  -- One call and its `assert`; the calls made so far are passed on.
  unfoldable pub call_step : PortCall → List PortCall → Option (List PortCall)
  call_step c made = if p.answer made c == 0 then some (made ++ c ∷ []) else none

  unfoldable pub setup_rx : ℕ → ℕ → ℕ → List PortCall → Option (List PortCall)
  setup_rx q zero nb_rxd made = some made
  setup_rx q (suc count) nb_rxd made = do
    made' ← call_step (rx_queue_setup q nb_rxd) made
    setup_rx (q + 1) count nb_rxd made'

  unfoldable pub setup_tx : ℕ → ℕ → ℕ → List PortCall → Option (List PortCall)
  setup_tx q zero nb_txd made = some made
  setup_tx q (suc count) nb_txd made = do
    made' ← call_step (tx_queue_setup q nb_txd p.fast_free) made
    setup_tx (q + 1) count nb_txd made'

  -- `port_init` from `rte_eth_dev_info_get` on.
  unfoldable pub set_up : ℕ → Option (Bool × List PortCall)
  set_up nqueues = do
    let nb = p.adjusted max_win_len (2 * max_pkt_burst)
    c1 ← call_step dev_info_get []
    c2 ← call_step (dev_configure nqueues nqueues p.fast_free) c1
    c3 ← call_step (adjust_nb_desc max_win_len (2 * max_pkt_burst)) c2
    c4 ← setup_rx 0 nqueues nb.0 c3
    c5 ← setup_tx 0 nqueues nb.1 c4
    c6 ← call_step dev_start c5
    c7 ← call_step macaddr_get c6
    c8 ← call_step promiscuous_enable c7
    some (true, c8)

  -- `port_init`, whose return value is 0 exactly for true; `none` is a failed `assert`. `rx_queues` and
  -- `tx_queues` have 16 bits.
  unfoldable pub port_init : ℕ → Option (Bool × List PortCall)
  port_init nqueues =
      if nqueues == 0
      then some (true, [])
      else if p.is_valid
      then set_up (nqueues % u16_mod)
      else some (false, [])
