-- ===== src/Startup/Port/Calls.antt =====
-- The calls of `port_init` of server/backend/main.cpp as a list, for the tests.
use clean_slate_inc.Prelude.{ℕ, zero, suc, ◌+◌, ◌*◌, Bool, true, ◌&&◌, List, [], ◌∷◌, ◌++◌, ◌==◌}
use clean_slate_inc.Congestion.{max_win_len}
use clean_slate_inc.Worker.Send.{max_pkt_burst}
use clean_slate_inc.Startup.Port.{
  PortCall, dev_info_get, dev_configure, adjust_nb_desc, rx_queue_setup, tx_queue_setup, dev_start,
  macaddr_get, promiscuous_enable, Port,
}

abbrev pub rx_setups : ℕ → ℕ → ℕ → List PortCall
rx_setups q zero nb = []
rx_setups q (suc count) nb = rx_queue_setup q nb ∷ rx_setups (q + 1) count nb

abbrev pub tx_setups : Bool → ℕ → ℕ → ℕ → List PortCall
tx_setups fast q zero nb = []
tx_setups fast q (suc count) nb = tx_queue_setup q nb fast ∷ tx_setups fast (q + 1) count nb

module _ (p : Port) where
  -- The set-up of `n` queues: every receive queue and every send queue once, before the start.
  abbrev pub port_calls : ℕ → List PortCall
  port_calls n =
      dev_info_get
      ∷ dev_configure n n p.fast_free
      ∷ adjust_nb_desc max_win_len (2 * max_pkt_burst)
      ∷ (rx_setups 0 n (p.adjusted max_win_len (2 * max_pkt_burst)).0
          ++ (tx_setups p.fast_free 0 n (p.adjusted max_win_len (2 * max_pkt_burst)).1
              ++ (dev_start ∷ macaddr_get ∷ promiscuous_enable ∷ [])))

  -- Every call, made after those in front of it, returns 0.
  abbrev pub all_zero : List PortCall → List PortCall → Bool
  all_zero made [] = true
  all_zero made (c ∷ cs) = (p.answer made c == 0) && all_zero (made ++ c ∷ []) cs
